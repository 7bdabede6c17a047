-- ===== src/Io/Device/Outcomes.antt =====
-- What the read phase of pollOnce leaves of the outcomes of its requests (io/modbus_tcp_driver.cpp).
use std.Path.{subst}
use soft_plc.Base.{
  ℕ, suc, ◌+◌, ◌%◌, ◌^◌, ◌≡◌, ◌≢◌, refl, sym, ◌∙◌, ap, arith, Bool, true, false, not, ◌&&◌, ◌||◌,
  Option, none, some, ◌⊎◌, List, [], ◌∷◌, ◌==◌, length, get_elem?, set, Bool-cases, inl, inr,
  if◌then◌else◌, Result, ok, ok_inj, get_elem?-set_ne, Result-cases, Option-cases,
}
use soft_plc.Io.Mapping.{PointRef, ReadBatch, decode_modbus_point_value, vector_at}
use soft_plc.Io.Client.{RequestResult, is_ok, is_exception, Requests}
use soft_plc.Io.Device.{
  CachedPoint, Device, DeviceDiagnostics, store_points, record_outcome, poll_read, poll_reads,
}

-- The results of the reads of these batches, one after the other.
abbrev pub outcomes : {C : Type 0} → Requests C → List ReadBatch → C → List RequestResult
outcomes req [] c = []
outcomes req (b ∷ bs) c =
    let ((r, x), c1) = req.read_batch b c in let (now, c2) = req.clock c1 in r ∷ outcomes req bs c2

-- The number of results of this kind.
abbrev pub count : (RequestResult → Bool) → List RequestResult → ℕ
count p [] = 0
count p (r ∷ rs) = (if p r then 1 else 0) + count p rs

abbrev pub is_failure : RequestResult → Bool
is_failure r = not (is_ok r)

-- A batch asks for the point at this position.
abbrev pub asks : ℕ → List PointRef → Bool
asks i [] = false
asks i ((j, p) ∷ ps) = (j == i) || asks i ps

-- A read that succeeded asked for the point.
abbrev pub was_read : ℕ → List ReadBatch → List RequestResult → Bool
was_read i (b ∷ bs) (r ∷ rs) = (is_ok r && asks i b.points) || was_read i bs rs
was_read i [] rs = false
was_read i (b ∷ bs) [] = false

-- The number of results behind the last success.
abbrev pub final_failures : List RequestResult → ℕ
final_failures [] = 0
final_failures (r ∷ rs) = if count is_ok (r ∷ rs) == 0 then suc (length rs) else final_failures rs

-- The last result that is no exception response.
abbrev pub last_contact : List RequestResult → Option RequestResult
last_contact [] = none
last_contact (r ∷ rs) = elim (last_contact rs) [
  | some x ↦ some x
  | none ↦ if is_exception r then none else some r
]

-- The diagnostics `e` are those of `d` after these results.
abbrev pub Records : DeviceDiagnostics → List RequestResult → DeviceDiagnostics → Type 0
Records d rs e =
    (e.successful_polls % 2 ^ 64 ≡ (d.successful_polls + count is_ok rs) % 2 ^ 64)
    × (e.failed_polls % 2 ^ 64 ≡ (d.failed_polls + count is_failure rs) % 2 ^ 64)
    × (e.consecutive_failures % 2 ^ 64
        ≡ (if count is_ok rs == 0 then d.consecutive_failures + length rs else final_failures rs)
          % 2 ^ 64)
    × (e.connected ≡ (elim (last_contact rs) [ none ↦ d.connected | some r ↦ is_ok r ]))

Records-nil : (d : DeviceDiagnostics) → Records d [] d
Records-nil d = (omega arith, omega arith, omega arith, refl)

final_failures_all :
    (rs : List RequestResult) → (count is_ok rs == 0) ≡ true → final_failures rs ≡ length rs
final_failures_all [] h = refl
final_failures_all (r ∷ rs) h = rw h refl

is_exception-ok : (r : RequestResult) → is_ok r ≡ true → is_exception r ≡ false
is_exception-ok r h = ground arith

Records-ok :
    (r : RequestResult) (now : ℕ) (d e : DeviceDiagnostics) (rs : List RequestResult)
    → is_ok r ≡ true
    → Records (record_outcome r now d) rs e
    → Records d (r ∷ rs) e
unfolding record_outcome
Records-ok r now d e rs z h =
    let x = is_exception-ok r z in
    let after : DeviceDiagnostics = record d {
      connected = true;
      successful_polls = (d.successful_polls + 1) % 2 ^ 64;
      consecutive_failures = 0;
      last_success_time = now;
    } in
    let same : record_outcome r now d ≡ after = rw z refl in
    let (s, f, k, q) = subst (λ y. Records y rs e) same h in
    (
      rw z (omega (arith, s)),
      rw z (omega (arith, f)),
      rw z (elim (Bool-cases (count is_ok rs == 0)) [
        | inl g ↦ let k' = rw g at k in let t = final_failures_all rs g in grind arith
        | inr g ↦ let k' = rw g at k in grind arith
      ]),
      elim (Option-cases (last_contact rs)) [
        | inr (u, w) ↦ rw w (rw w at q)
        | inl w ↦ rw (w, x, z) (rw w at q)
      ],
    )

Records-failure :
    (r : RequestResult) (now : ℕ) (d e : DeviceDiagnostics) (rs : List RequestResult)
    → is_ok r ≡ false
    → Records (record_outcome r now d) rs e
    → Records d (r ∷ rs) e
unfolding record_outcome
Records-failure r now d e rs z h =
    let after : DeviceDiagnostics = record d {
      connected = if is_exception r then d.connected else false;
      failed_polls = (d.failed_polls + 1) % 2 ^ 64;
      consecutive_failures = (d.consecutive_failures + 1) % 2 ^ 64;
      last_error = r.detail;
    } in
    let same : record_outcome r now d ≡ after = rw z refl in
    let (s, f, k, q) = subst (λ y. Records y rs e) same h in
    (
      rw z (omega (arith, s)),
      rw z (omega (arith, f)),
      rw z (elim (Bool-cases (count is_ok rs == 0)) [
        | inl g ↦ let k' = rw g at k in grind arith
        | inr g ↦ let k' = rw g at k in grind arith
      ]),
      elim (Option-cases (last_contact rs)) [
        | inr (u, w) ↦ rw w (rw w at q)
        | inl w ↦ elim (Bool-cases (is_exception r)) [
          | inl g ↦ rw (w, g) (let q' = rw w at q in rw g at q')
          | inr g ↦ rw (w, g, z) (let q' = rw w at q in rw g at q')
        ]
      ],
    )

Records-cons :
    (r : RequestResult) (now : ℕ) (d e : DeviceDiagnostics) (rs : List RequestResult)
    → Records (record_outcome r now d) rs e
    → Records d (r ∷ rs) e
Records-cons r now d e rs h = elim (Bool-cases (is_ok r)) [
  | inl z ↦ Records-ok r now d e rs z h
  | inr z ↦ Records-failure r now d e rs z h
]

store_points-other :
    (b : ReadBatch) (registers : List ℕ) (bits : List Bool) (ps : List PointRef)
    (cache cache' : List CachedPoint) (i : ℕ)
    → store_points b registers bits ps cache ≡ ok cache'
    → asks i ps ≡ false
    → get_elem? cache' i ≡ get_elem? cache i
unfolding store_points
store_points-other b registers bits [] cache cache' i e h = ap (λ x. get_elem? x i) (sym (ok_inj e))
store_points-other b registers bits ((j, p) ∷ ps) cache cache' i e h =
    elim (Result-cases (decode_modbus_point_value p b registers bits)) [
      | inr (z, q) ↦ let bad : Result.err z ≡ ok cache' = rw q at e in absurd (cc bad)
      | inl (v, q) ↦ elim (Result-cases (vector_at cache j)) [
        | inr (z, k) ↦ let bad : Result.err z ≡ ok cache' = rw (q, k) at e in absurd (cc bad)
        | inl (c, k) ↦
            let stored : CachedPoint = record c { value = v; valid = true } in
            let other : j ≢ i = ground arith in
            store_points-other b registers bits ps (set cache j stored) cache' i (rw (q, k) at e)
              (ground arith)
            ∙ get_elem?-set_ne cache j i stored other
      ]
    ]

module _ {C : Type 0} (req : Requests C) where
  -- The diagnostics and caches after the read of a batch, for the entry `i`.
  pub poll_read-effect :
      (b : ReadBatch) (d : Device) (c : C) (d1 : Device) (c1 : C) (i : ℕ)
      → poll_read req b d c ≡ ok (d1, c1)
      → let ((r, x), s1) = req.read_batch b c in
        let (now, s2) = req.clock s1 in
        (s2 ≡ c1)
        × (record_outcome r now d.diag ≡ d1.diag)
        × (d1.output_cache ≡ d.output_cache)
        × ((get_elem? d1.input_cache i ≡ get_elem? d.input_cache i)
            ⊎ ((is_ok r && asks i b.points) ≡ true))
  unfolding poll_read
  poll_read-effect b d c d1 c1 i e =
      let ((r, (registers, bits)), s1) = req.read_batch b c in
      let (now, s2) = req.clock s1 in
      elim (Bool-cases (is_ok r)) [
        | inr z ↦
            let made = ok_inj (rw z at e) in
            (
              ap (λ x. x.1) made,
              ap (λ x. x.0.diag) made,
              ap (λ x. x.0.output_cache) (sym made),
              inl (ap (λ x. get_elem? x.0.input_cache i) (sym made)),
            )
        | inl z ↦ elim (Result-cases (store_points b registers bits b.points d.input_cache)) [
          | inr (y, q) ↦ let bad : Result.err y ≡ ok (d1, c1) = rw (z, q) at e in absurd (cc bad)
          | inl (cache, q) ↦
              let made = ok_inj (rw (z, q) at e) in
              (
                ap (λ x. x.1) made,
                ap (λ x. x.0.diag) made,
                ap (λ x. x.0.output_cache) (sym made),
                elim (Bool-cases (asks i b.points)) [
                  | inl g ↦ inr (rw (z, g) refl)
                  | inr g ↦ inl (
                      ap (λ x. get_elem? x.0.input_cache i) (sym made)
                      ∙ store_points-other b registers bits b.points d.input_cache cache i q g)
                ],
              )
        ]
      ]

  -- After a read phase that does not throw, whatever the outcome of each read: every success and every
  -- failure is counted (modulo 2^64), the failures in a row are those behind the last success, or these and
  -- the ones before where there was none, the connection mark is that of the last result other than an
  -- exception response, the output cache is as before, and so is each entry of the input cache that no
  -- successful read asked for.
  pub poll_reads-outcomes :
      (bs : List ReadBatch) (d : Device) (c : C) (d' : Device) (c' : C) (i : ℕ)
      → poll_reads req bs d c ≡ ok (d', c')
      → Records d.diag (outcomes req bs c) d'.diag
        × (d'.output_cache ≡ d.output_cache)
        × ((get_elem? d'.input_cache i ≡ get_elem? d.input_cache i)
            ⊎ (was_read i bs (outcomes req bs c) ≡ true))
  unfolding poll_reads
  poll_reads-outcomes [] d c d' c' i e =
      let made = ok_inj e in rw (← ap (λ x. x.0) made) (Records-nil d.diag, refl, inl refl)
  poll_reads-outcomes (b ∷ bs) d c d' c' i e = elim (Result-cases (poll_read req b d c)) [
    | inr (y, q) ↦ let bad : Result.err y ≡ ok (d', c') = rw q at e in absurd (cc bad)
    | inl ((d1, c1), q) ↦
        let (s, g, out, entry) = poll_read-effect b d c d1 c1 i q in
        let (records, out', entry') = poll_reads-outcomes bs d1 c1 d' c' i (rw q at e) in
        let ((r, x), s1) = req.read_batch b c in
        let (now, s2) = req.clock s1 in
        (
          rw s (
              Records-cons r now d.diag d'.diag (outcomes req bs c1)
                (subst (λ y. Records y (outcomes req bs c1) d'.diag) (sym g) records)),
          out' ∙ out,
          rw s (elim entry' [
            | inr h ↦ inr (ground arith)
            | inl h ↦ elim entry [ inl k ↦ inl (h ∙ k) | inr k ↦ inr (ground arith) ]
          ]),
        )
  ]
