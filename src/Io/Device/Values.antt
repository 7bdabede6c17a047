-- ===== src/Io/Device/Values.antt =====
-- What a device that is polled over Modbus TCP has in its input cache (io/modbus_tcp_driver.cpp and
-- io/modbus_client.cpp).
use std.Path.{subst}
use soft_plc.Base.{
  ℕ, zero, suc, ◌<◌, ◌+◌, ◌≡◌, ◌≢◌, refl, ◌∙◌, ap, arith, Bool, true, false, ◌&&◌, some, ◌⊎◌, inl,
  inr, List, [], ◌∷◌, ◌==◌, get_elem?, set, All, Bool-cases, Result-cases, Result, ok, ok_inj,
  some_inj, get_elem?-set_ne,
}
use soft_plc.Io.Mapping.{
  ModbusPointMapping, PointRef, ReadBatch, enumerate, build_batches, validate_points,
  decode_modbus_point_value, vector_at,
}
use soft_plc.Io.Mapping.Groups.{All-enumerate}
use soft_plc.Io.Mapping.Batches.{BatchOk, Within, build_batches-BatchOk}
use soft_plc.Io.Mapping.Members.{Holds, build_batches-Holds}
use soft_plc.Io.Mapping.Validation.{PointOk, validate_points-PointOk, seq-ok}
use soft_plc.Io.Client.{Nmbs, ModbusClient, client_requests, is_ok, read_batch}
use soft_plc.Io.Client.Replies.{client_requests-IsFaithful}
use soft_plc.Io.Device.{
  CachedPoint, Device, DeviceConfig, new_device, of_direction, store_points, poll_read, poll_reads,
}
use soft_plc.Io.Device.Image.{Image, Serves, device_value, read_batch-device_value}
use soft_plc.Io.Device.Marks.{get_elem?-set_present}
use soft_plc.Io.Device.Outcomes.{asks, was_read, outcomes, poll_read-effect}
use soft_plc.Io.Device.Reads.{poll_reads-ok, All-zip, All-of_direction, All-InSpace}

-- The entry at `i` is valid and has the device's value of the point.
abbrev pub Reflects : Image → ModbusPointMapping → List CachedPoint → ℕ → Type 0
Reflects m p cache i =
    (c : CachedPoint) × (get_elem? cache i ≡ some c)
    × (c.valid ≡ true)
    × (c.value ≡ device_value m p)

vector_at-ok :
    {A : Type 0} (xs : List A) (i : ℕ) (x : A) → vector_at xs i ≡ ok x → get_elem? xs i ≡ some x
vector_at-ok xs i x e = ground arith

store_points-Reflects :
    (m : Image) (b : ReadBatch) (registers : List ℕ) (bits : List Bool) (ps : List PointRef)
    (cache cache' : List CachedPoint) (i : ℕ) (p : ModbusPointMapping)
    → All (λ (r : PointRef). r.0 ≡ i → r.1 ≡ p) ps
    → All
        (λ (r : PointRef). decode_modbus_point_value r.1 b registers bits ≡ ok (device_value m r.1))
        ps
    → store_points b registers bits ps cache ≡ ok cache'
    → (asks i ps ≡ true) ⊎ Reflects m p cache i
    → Reflects m p cache' i
unfolding store_points
store_points-Reflects m b registers bits [] cache cache' i p h v e (inl a) = cc
store_points-Reflects m b registers bits [] cache cache' i p h v e (inr a) =
    subst (λ x. Reflects m p x i) (ok_inj e) a
store_points-Reflects m b registers bits ((j, q) ∷ ps) cache cache' i p h v e a =
    elim (Result-cases (vector_at cache j)) [
      | inr (z, k) ↦ let bad : Result.err z ≡ ok cache' = rw (v.0, k) at e in absurd (cc bad)
      | inl (c, k) ↦
          let stored : CachedPoint = record c { value = device_value m q; valid = true } in
          let rest =
            store_points-Reflects m b registers bits ps (set cache j stored) cache' i p h.1 v.1
              (rw (v.0, k) at e) in
          elim (Bool-cases (j == i)) [
            | inl g ↦
                let same : j ≡ i = ground arith in
                rest (
                  inr (
                    stored,
                    rw (← same) (get_elem?-set_present cache j c stored (vector_at-ok cache j c k)),
                    refl,
                    ap (λ x. device_value m x) (h.0 same),
                  ))
            | inr g ↦
                let other : j ≢ i = ground arith in
                rest (elim a [
                  | inl asked ↦ inl (ground arith)
                  | inr (x, f, u, w) ↦ inr (x, get_elem?-set_ne cache j i stored other ∙ f, u, w)
                ])
          ]
    ]

enumerate_after :
    (i k : ℕ) (ps : List ModbusPointMapping) (p : ModbusPointMapping)
    → i < k
    → All (λ (r : PointRef). r.0 ≡ i → r.1 ≡ p) (enumerate k ps)
enumerate_after i k [] p h = tt
enumerate_after i k (q ∷ ps) p h =
    ((λ e. absurd (omega (arith, h, e))), enumerate_after i (suc k) ps p (omega (arith, h)))

-- The position `i` stands for the point `p` only.
enumerate_same :
    (i k j : ℕ) (ps : List ModbusPointMapping) (p : ModbusPointMapping)
    → i ≡ k + j
    → get_elem? ps j ≡ some p
    → All (λ (r : PointRef). r.0 ≡ i → r.1 ≡ p) (enumerate k ps)
enumerate_same i k j [] p h e = tt
enumerate_same i k zero (q ∷ ps) p h e =
    ((λ _. some_inj e), enumerate_after i (suc k) ps p (omega (arith, h)))
enumerate_same i k (suc j) (q ∷ ps) p h e =
    ((λ f. absurd (omega (arith, h, f))), enumerate_same i (suc k) j ps p (omega (arith, h)) e)

-- A valid point, which is `p` if its position is `i`.
abbrev Known : ℕ → ModbusPointMapping → PointRef → Type 0
Known i p r = PointOk r.1 × (r.0 ≡ i → r.1 ≡ p)

All-map :
    (P Q : PointRef → Type 0) (ps : List PointRef)
    → ((r : PointRef) → P r → Q r)
    → All P ps
    → All Q ps
All-map P Q [] f h = tt
All-map P Q (r ∷ ps) f h = (f r h.0, All-map P Q ps f h.1)

module _ {N T : Type 0} (nmbs : Nmbs N) (clock : T → ℕ × T) (m : Image)
    (serves : Serves nmbs (λ _. m)) where
  poll_read-Reflects :
      (b : ReadBatch) (d : Device) (c : ModbusClient nmbs × T) (d1 : Device)
      (c1 : ModbusClient nmbs × T) (i : ℕ) (p : ModbusPointMapping)
      → BatchOk b
      → Holds (Known i p) b
      → poll_read (client_requests nmbs clock) b d c ≡ ok (d1, c1)
      → ((is_ok (read_batch nmbs b c.0).0.0 && asks i b.points) ≡ true)
        ⊎ Reflects m p d.input_cache i
      → Reflects m p d1.input_cache i
  unfolding poll_read
  poll_read-Reflects b d c d1 c1 i p fit known e a =
      let ((r, (registers, bits)), s1) = read_batch nmbs b c.0 in
      elim (Bool-cases (is_ok r)) [
        | inr z ↦
            let made = ok_inj (rw z at e) in
            elim a [
              | inl asked ↦ absurd (let asked' = rw z at asked in cc asked')
              | inr old ↦ subst (λ x. Reflects m p x.0.input_cache i) made old
            ]
        | inl z ↦ elim (Result-cases (store_points b registers bits b.points d.input_cache)) [
          | inr (y, q) ↦ let bad : Result.err y ≡ ok (d1, c1) = rw (z, q) at e in absurd (cc bad)
          | inl (cache, q) ↦
              let made = ok_inj (rw (z, q) at e) in
              let values =
                All-zip (Within b) _
                  (λ (r : PointRef).
                    decode_modbus_point_value r.1 b registers bits ≡ ok (device_value m r.1))
                  b.points
                  (λ r w k.
                    read_batch-device_value nmbs (λ _. m) serves b c.0 r.0 r.1 fit w k.0.0 k.1 z)
                  fit.covers known in
              let asked : (asks i b.points ≡ true) ⊎ Reflects m p d.input_cache i = elim a [
                | inl x ↦ inl (ground arith)
                | inr x ↦ inr x
              ] in
              subst (λ x. Reflects m p x.0.input_cache i) made
                (store_points-Reflects m b registers bits b.points d.input_cache cache i p
                  (All-map _ _ b.points (λ r k. k.0.1) known) values q asked)
        ]
      ]

  poll_reads-Reflects :
      (bs : List ReadBatch) (d : Device) (c : ModbusClient nmbs × T) (d1 : Device)
      (c1 : ModbusClient nmbs × T) (i : ℕ) (p : ModbusPointMapping)
      → All BatchOk bs
      → All (Holds (Known i p)) bs
      → poll_reads (client_requests nmbs clock) bs d c ≡ ok (d1, c1)
      → (was_read i bs (outcomes (client_requests nmbs clock) bs c) ≡ true)
        ⊎ Reflects m p d.input_cache i
      → Reflects m p d1.input_cache i
  unfolding poll_reads
  poll_reads-Reflects [] d c d1 c1 i p fit known e (inl a) = cc
  poll_reads-Reflects [] d c d1 c1 i p fit known e (inr a) =
      subst (λ x. Reflects m p x.0.input_cache i) (ok_inj e) a
  poll_reads-Reflects (b ∷ bs) d c d1 c1 i p fit known e a =
      elim (Result-cases (poll_read (client_requests nmbs clock) b d c)) [
        | inr (y, q) ↦ let bad : Result.err y ≡ ok (d1, c1) = rw q at e in absurd (cc bad)
        | inl ((d2, c2), q) ↦
            let (s, diag, out, entry) =
              poll_read-effect (client_requests nmbs clock) b d c d2 c2 i q in
            let now = poll_read-Reflects b d c d2 c2 i p fit.0 known.0 q in
            poll_reads-Reflects bs d2 c2 d1 c1 i p fit.1 known.1 (rw q at e) (elim a [
              | inr old ↦ inr (now (inr old))
              | inl asked ↦
                  let asked' = rw s at asked in
                  elim (Bool-cases (is_ok (read_batch nmbs b c.0).0.0 && asks i b.points)) [
                    | inl z ↦ inr (now (inl z))
                    | inr z ↦ inl (ground arith)
                  ]
            ])
      ]

  -- For a device with fixed tables that the library's reads give: the read phase of a device that the
  -- constructor accepts does not throw, and each input point that a successful read asked for is then
  -- valid in the cache, with the value that the device has at the point's own address, table, type and word
  -- order, whichever batches the points were read in and whatever came of the other reads.
  pub poll_reads-device_value :
      (config : DeviceConfig) (d : Device) (c : ModbusClient nmbs × T) (i : ℕ)
      (p : ModbusPointMapping)
      → new_device config ≡ ok d
      → get_elem? d.input_points i ≡ some p
      → was_read i d.read_batches (outcomes (client_requests nmbs clock) d.read_batches c) ≡ true
      → (d' : Device) × (c' : ModbusClient nmbs × T) × (poll_reads
            (client_requests nmbs clock)
            d.read_batches
            d
            c
          ≡ ok (d', c'))
        × Reflects m p d'.input_cache i
  unfolding new_device
  poll_reads-device_value config d c i p made at read =
      let (d', c', e, l) =
        poll_reads-ok (client_requests nmbs clock) config d c
          (client_requests-IsFaithful nmbs clock) made in
      let (valid, built) = seq-ok (validate_points config.points) _ d made in
      let inputs = of_direction false config.points in
      let points : inputs ≡ d.input_points = ap (λ x. x.input_points) (ok_inj built) in
      let batches : build_batches inputs ≡ d.read_batches =
        ap (λ x. x.read_batches) (ok_inj built) in
      let fine =
        All-of_direction PointOk false config.points
          (validate_points-PointOk config.points valid) in
      let place : get_elem? inputs i ≡ some p = ap (λ x. get_elem? x i) points ∙ at in
      let known = build_batches-Holds (Known i p) inputs (
        All-zip _ _ (Known i p) (enumerate 0 inputs) (λ r a b. (a, b))
          (All-enumerate PointOk 0 inputs fine)
          (enumerate_same i 0 i inputs p (omega arith) place)) in
      (
        d',
        c',
        e,
        poll_reads-Reflects d.read_batches d c d' c' i p
            (subst (λ x. All BatchOk x) batches
              (build_batches-BatchOk inputs (All-InSpace inputs fine)))
            (subst (λ x. All (Holds (Known i p)) x) batches known) e (inl read),
      )
