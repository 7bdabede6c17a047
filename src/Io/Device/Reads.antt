-- ===== src/Io/Device/Reads.antt =====
-- The input side of a polled device: the read phase of pollOnce (io/modbus_tcp_driver.cpp).
use soft_plc.Base.{
  ℕ, ◌+◌, ◌-◌, ◌%◌, ◌^◌, ◌<◌, ◌≤◌, ◌≡◌, refl, ◌∙◌, Bool, true, false, List, [], ◌∷◌, arith, length,
  set, All, get_elem?-lt, length-set, length-replicate, Bool-cases, inl, inr, Result, ok, ok_inj,
}
use soft_plc.Base.Int.{of_word}
use soft_plc.Tags.Value.{TypeId, Value, default_value_for}
use soft_plc.Io.Mapping.{
  ModbusPointMapping, PointRef, ReadBatch, WordOrder, is_bit_table, register_count, count_of,
  offset_in, vector_at, decode_register, decode_modbus_point_value, enumerate, build_batches,
  validate_points, combine,
}
use soft_plc.Io.Mapping.Groups.{All-enumerate}
use soft_plc.Io.Mapping.Batches.{BatchOk, build_batches-BatchOk, InSpace, Within}
use soft_plc.Io.Mapping.Members.{Holds, build_batches-Holds, enumerate-lt}
use soft_plc.Io.Mapping.Validation.{PointOk, validate_points-PointOk, seq-ok}
use soft_plc.Io.Client.{Requests, is_ok, Answers, IsFaithful}
use soft_plc.Io.Device.{
  CachedPoint, empty_point, is_output, Device, DeviceConfig, of_direction, new_device, store_points,
  record_outcome, poll_read, poll_reads,
}

vector_at-lt :
    {A : Type 0} (xs : List A) (i : ℕ) → i < length xs → (x : A) × (vector_at xs i ≡ ok x)
vector_at-lt xs i h = let (x, e) = get_elem?-lt xs i h in (x, rw (e, vector_at) refl)

decode_register-ok :
    (t : TypeId) (order : WordOrder) (i : ℕ) (rs : List ℕ)
    → i + count_of t ≤ length rs
    → (v : Value) × (decode_register t order i rs ≡ ok v)
unfolding decode_register
decode_register-ok TypeId.byte order i rs h =
    let (x, e) = vector_at-lt rs i (omega arith) in (Value.byte (x % 256), rw e refl)
decode_register-ok TypeId.int order i rs h =
    let (x, e) = vector_at-lt rs i (omega arith) in (Value.int (of_word 32768 x), rw e refl)
decode_register-ok TypeId.dint order i rs h =
    let (x, e) = vector_at-lt rs i (omega arith) in
    let (y, f) = vector_at-lt rs (i + 1) (omega arith) in
    (Value.dint (of_word 2147483648 (combine order x y)), rw (e, f) refl)
decode_register-ok TypeId.real order i rs h =
    let (x, e) = vector_at-lt rs i (omega arith) in
    let (y, f) = vector_at-lt rs (i + 1) (omega arith) in
    (Value.real (combine order x y), rw (e, f) refl)
decode_register-ok t order i rs h = (default_value_for t, refl)

pub offset_small :
    (a s c q : ℕ)
    → s ≤ a
    → 0 < c
    → a + c ≤ s + q
    → s + q ≤ 65536
    → ((a + 2 ^ 64 - s) % 2 ^ 64 + c ≤ q) × ((a + 2 ^ 64 - s) % 2 ^ 64 < q)
offset_small a s c q h p k l = (omega arith, omega arith)

decode-ok :
    (i : ℕ) (p : ModbusPointMapping) (b : ReadBatch) (registers : List ℕ) (bits : List Bool)
    → BatchOk b
    → Within b (i, p)
    → PointOk p
    → p.register_type ≡ b.register_type
    → Answers b registers bits
    → (v : Value) × (decode_modbus_point_value p b registers bits ≡ ok v)
unfolding decode_modbus_point_value
decode-ok i p b registers bits h w k same answers =
    let (end, below) =
      offset_small p.register_address b.start_address (register_count p) b.quantity w.0 k.in_space.0
        w.1 h.in_space in
    elim (Bool-cases (is_bit_table p.register_type)) [
      | inl e ↦
          let (x, f) =
            vector_at-lt bits (offset_in p b) (omega (arith, answers.0 (rw same at e))) in
          (Value.bool x, rw (e, f) refl)
      | inr e ↦
          let (v, f) =
            decode_register-ok p.type p.word_order (offset_in p b) registers
              (omega (arith, answers.1 (rw same at e))) in
          (v, rw e f)
    ]

-- The points of a batch are valid, lie in it, and have entries in a cache of length `n`.
abbrev Slot : ℕ → PointRef → Type 0
Slot n r = PointOk r.1 × (r.0 < n)

store_points-ok :
    (n : ℕ) (b : ReadBatch) (registers : List ℕ) (bits : List Bool) (ps : List PointRef)
    (cache : List CachedPoint)
    → BatchOk b
    → Answers b registers bits
    → All (Within b) ps
    → All (λ (r : PointRef). Slot n r × (r.1.register_type ≡ b.register_type)) ps
    → length cache ≡ n
    → (cache' : List CachedPoint) × (store_points b registers bits ps cache ≡ ok cache')
      × (length cache' ≡ n)
unfolding store_points
store_points-ok n b registers bits [] cache h a w k l = (cache, refl, l)
store_points-ok n b registers bits ((i, p) ∷ ps) cache h a w k l =
    let (v, e) = decode-ok i p b registers bits h w.0 k.0.0.0 k.0.1 a in
    let (c, f) = vector_at-lt cache i (omega (arith, k.0.0.1)) in
    let stored : CachedPoint = record c { value = v; valid = true } in
    let (cache', g, m) =
      store_points-ok n b registers bits ps (set cache i stored) h a w.1 k.1
        (length-set cache i stored ∙ l) in
    (cache', rw (e, f) g, m)

-- What polling needs of a batch for a cache of length `n`.
abbrev Served : ℕ → ReadBatch → Type 0
Served n b = BatchOk b × Holds (Slot n) b

abbrev Reads : {C : Type 0} → ℕ → Result (Device × C) → Type 0
Reads {C} n m = (d : Device) × (c : C) × (m ≡ ok (d, c)) × (length d.input_cache ≡ n)

module _ {C : Type 0} (req : Requests C) (faithful : IsFaithful req) where
  poll_read-ok :
      (n : ℕ) (b : ReadBatch) (d : Device) (c : C)
      → Served n b
      → length d.input_cache ≡ n
      → Reads n (poll_read req b d c)
  unfolding poll_read
  poll_read-ok n b d c h l =
      let ((r, (registers, bits)), c1) = req.read_batch b c in
      let (now, c2) = req.clock c1 in
      elim (Bool-cases (is_ok r)) [
        | inl e ↦
            let (cache, f, m) =
              store_points-ok n b registers bits b.points d.input_cache h.0 (faithful b c e)
                h.0.covers h.1 l in
            (
              record d { diag = record_outcome r now d.diag; input_cache = cache },
              c2,
              rw (e, f) refl,
              m,
            )
        | inr e ↦ (record d { diag = record_outcome r now d.diag }, c2, rw e refl, l)
      ]

  poll_reads-Served :
      (n : ℕ) (bs : List ReadBatch) (d : Device) (c : C)
      → All (Served n) bs
      → length d.input_cache ≡ n
      → Reads n (poll_reads req bs d c)
  unfolding poll_reads
  poll_reads-Served n [] d c h l = (d, c, refl, l)
  poll_reads-Served n (b ∷ bs) d c h l =
      let (d1, c1, e, l1) = poll_read-ok n b d c h.0 l in
      let (d2, c2, f, l2) = poll_reads-Served n bs d1 c1 h.1 l1 in (d2, c2, rw e f, l2)

pub All-of_direction :
    (P : ModbusPointMapping → Type 0) (x : Bool) (ps : List ModbusPointMapping)
    → All P ps
    → All P (of_direction x ps)
unfolding of_direction
All-of_direction P x [] h = tt
All-of_direction P true (p ∷ ps) h = elim (Bool-cases (is_output p)) [
  | inl e ↦ rw e (h.0, All-of_direction P true ps h.1)
  | inr e ↦ rw e (All-of_direction P true ps h.1)
]
All-of_direction P false (p ∷ ps) h = elim (Bool-cases (is_output p)) [
  | inl e ↦ rw e (All-of_direction P false ps h.1)
  | inr e ↦ rw e (h.0, All-of_direction P false ps h.1)
]

pub All-zip :
    (P Q R : PointRef → Type 0) (ps : List PointRef)
    → ((r : PointRef) → P r → Q r → R r)
    → All P ps
    → All Q ps
    → All R ps
All-zip P Q R [] f h k = tt
All-zip P Q R (r ∷ ps) f h k = (f r h.0 k.0, All-zip P Q R ps f h.1 k.1)

All-Served :
    (n : ℕ) (bs : List ReadBatch) → All BatchOk bs → All (Holds (Slot n)) bs → All (Served n) bs
All-Served n [] h k = tt
All-Served n (b ∷ bs) h k = ((h.0, k.0), All-Served n bs h.1 k.1)

pub All-InSpace : (ps : List ModbusPointMapping) → All PointOk ps → All InSpace ps
All-InSpace [] h = tt
All-InSpace (p ∷ ps) h = (h.0.in_space, All-InSpace ps h.1)

-- The batches of points that validation accepts are served from a cache that is parallel to them.
built-Served :
    (ps : List ModbusPointMapping) → All PointOk ps → All (Served (length ps)) (build_batches ps)
built-Served ps h =
    All-Served (length ps) (build_batches ps) (build_batches-BatchOk ps (All-InSpace ps h)) (
      build_batches-Holds (Slot (length ps)) ps (
        All-zip _ _ (Slot (length ps)) (enumerate 0 ps) (λ r a b. (a, b))
          (All-enumerate PointOk 0 ps h) (enumerate-lt 0 (length ps) ps (omega arith))))

-- For a client whose successful replies hold what was asked for, a device that the constructor
-- accepts polls all its read batches without a throw, whatever the outcome of each request.
pub poll_reads-ok :
    {C : Type 0} (req : Requests C) (config : DeviceConfig) (d : Device) (c : C)
    → IsFaithful req
    → new_device config ≡ ok d
    → (d' : Device) × (c' : C) × (poll_reads req d.read_batches d c ≡ ok (d', c'))
      × (length d'.input_cache ≡ length d.input_points)
unfolding new_device
poll_reads-ok req config d c faithful e =
    let (valid, made) = seq-ok (validate_points config.points) _ d e in
    rw (← ok_inj made) (
      poll_reads-Served req faithful (length (of_direction false config.points))
        (build_batches (of_direction false config.points)) _ c
        (built-Served (of_direction false config.points) (
          All-of_direction PointOk false config.points
            (validate_points-PointOk config.points valid)))
        (length-replicate (length (of_direction false config.points)) empty_point))
