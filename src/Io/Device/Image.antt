-- ===== src/Io/Device/Image.antt =====
-- The values of points after a successful read, against the tables of the device that answers
-- (io/modbus_client.cpp and io/modbus_register_mapping.cpp).
use soft_plc.Base.{
  ℕ, zero, suc, ◌+◌, ◌%◌, ◌<◌, ◌≤◌, ◌≡◌, refl, ◌∙◌, ap, arith, Bool, true, false, some, List, [],
  if◌then◌else◌, get_elem?, Bool-cases, inl, inr, ok,
}
use soft_plc.Base.Int.{ℤ, of_word, beq_ℤ}
use soft_plc.Tags.Value.{TypeId, Value, default_value_for}
use soft_plc.Io.Mapping.{
  ModbusPointMapping, PointRef, ReadBatch, RegisterType, coil, discrete_input, holding_register,
  input_register, WordOrder, is_bit_table, register_count, count_of, offset_in, decode_register,
  decode_modbus_point_value, combine, vector_at,
}
use soft_plc.Io.Mapping.Batches.{BatchOk, Within}
use soft_plc.Io.Mapping.Validation.{PointOk}
use soft_plc.Io.Client.{
  is_ok, Nmbs, elements, ModbusClient, ensure_connected, conclude, translate_modbus_error,
  read_connected, read_batch,
}
use soft_plc.Io.Client.Replies.{conclude_ok}
use soft_plc.Io.Device.Reads.{offset_small}

-- The tables of a device.
pub record Image : Type 0 where
  pub bits : RegisterType → ℕ → Bool
  pub words : RegisterType → ℕ → ℕ

-- Where the library reports no error, the buffer holds the elements of the table from the address on.
pub record Serves {N : Type 0} (nmbs : Nmbs N) (image : N → Image) : Type 0 where
  pub coils :
      (a q i : ℕ) (n : N)
      → let ((rc, f), n') = nmbs.read_coils a q n in
        beq_ℤ rc nmbs.error_none ≡ true → i < q → f i ≡ (image n').bits coil (a + i)
  pub discrete_inputs :
      (a q i : ℕ) (n : N)
      → let ((rc, f), n') = nmbs.read_discrete_inputs a q n in
        beq_ℤ rc nmbs.error_none ≡ true → i < q → f i ≡ (image n').bits discrete_input (a + i)
  pub holding_registers :
      (a q i : ℕ) (n : N)
      → let ((rc, f), n') = nmbs.read_holding_registers a q n in
        beq_ℤ rc nmbs.error_none ≡ true → i < q → f i ≡ (image n').words holding_register (a + i)
  pub input_registers :
      (a q i : ℕ) (n : N)
      → let ((rc, f), n') = nmbs.read_input_registers a q n in
        beq_ℤ rc nmbs.error_none ≡ true → i < q → f i ≡ (image n').words input_register (a + i)

-- The value of a type in a register and the one after it.
abbrev pub word_value : TypeId → WordOrder → ℕ → ℕ → Value
word_value TypeId.byte order x y = Value.byte (x % 256)
word_value TypeId.int order x y = Value.int (of_word 32768 x)
word_value TypeId.dint order x y = Value.dint (of_word 2147483648 (combine order x y))
word_value TypeId.real order x y = Value.real (combine order x y)
word_value t order x y = default_value_for t

-- The value of a point in the tables: at its own address of its own table, without batches.
abbrev pub device_value : Image → ModbusPointMapping → Value
device_value m p =
    if is_bit_table p.register_type
    then Value.bool (m.bits p.register_type p.register_address)
    else word_value p.type p.word_order (m.words p.register_type p.register_address)
        (m.words p.register_type (p.register_address + 1))

-- The lists hold a stretch of a table.
abbrev Mirrors : Image → RegisterType → ℕ → ℕ → List ℕ → List Bool → Type 0
Mirrors m t start q registers bits =
    ((i : ℕ) → is_bit_table t ≡ true → i < q → get_elem? bits i ≡ some (m.bits t (start + i)))
    × ((i : ℕ)
        → is_bit_table t ≡ false
        → i < q
        → get_elem? registers i ≡ some (m.words t (start + i)))

get_elem?-elements :
    {A : Type 0} (f : ℕ → A) (s n i : ℕ) → i < n → get_elem? (elements f s n) i ≡ some (f (s + i))
get_elem?-elements f s zero i h = elim h [ ]
get_elem?-elements f s (suc n) zero h = ap (λ k. some (f k)) (omega arith)
get_elem?-elements f s (suc n) (suc i) h =
    get_elem?-elements f (suc s) n i (omega (arith, h)) ∙ ap (λ k. some (f k)) (omega arith)

elements_first :
    {A : Type 0} (f : ℕ → A) (n i : ℕ) → i < n → get_elem? (elements f 0 n) i ≡ some (f i)
elements_first f n i h = get_elem?-elements f 0 n i h ∙ ap (λ k. some (f k)) (omega arith)

conclude-library :
    {N : Type 0} (nmbs : Nmbs N) (rc : ℤ) (n : N)
    → is_ok (conclude nmbs rc n).0 ≡ true
    → (conclude nmbs rc n).1.library ≡ n
unfolding conclude translate_modbus_error
conclude-library nmbs rc n h = ground arith

vector_at-some :
    {A : Type 0} (xs : List A) (i : ℕ) (x : A) → get_elem? xs i ≡ some x → vector_at xs i ≡ ok x
vector_at-some xs i x e = rw (vector_at, e) refl

decode_register-Mirrors :
    (m : Image) (u : RegisterType) (start q : ℕ) (registers : List ℕ) (bits : List Bool)
    (t : TypeId) (order : WordOrder) (o : ℕ)
    → Mirrors m u start q registers bits
    → is_bit_table u ≡ false
    → o + count_of t ≤ q
    → decode_register t order o registers
      ≡ ok (word_value t order (m.words u (start + o)) (m.words u (start + (o + 1))))
unfolding decode_register
decode_register-Mirrors m u start q registers bits TypeId.byte order o h w k =
    rw (vector_at-some _ _ _ (h.1 o w (omega (arith, k)))) refl
decode_register-Mirrors m u start q registers bits TypeId.int order o h w k =
    rw (vector_at-some _ _ _ (h.1 o w (omega (arith, k)))) refl
decode_register-Mirrors m u start q registers bits TypeId.dint order o h w k =
    rw
      (
        vector_at-some _ _ _ (h.1 o w (omega (arith, k))),
        vector_at-some _ _ _ (h.1 (o + 1) w (omega (arith, k))),
      )
      refl
decode_register-Mirrors m u start q registers bits TypeId.real order o h w k =
    rw
      (
        vector_at-some _ _ _ (h.1 o w (omega (arith, k))),
        vector_at-some _ _ _ (h.1 (o + 1) w (omega (arith, k))),
      )
      refl
decode_register-Mirrors m u start q registers bits t order o h w k = refl

decode-Mirrors :
    (m : Image) (b : ReadBatch) (registers : List ℕ) (bits : List Bool) (i : ℕ)
    (p : ModbusPointMapping)
    → Mirrors m b.register_type b.start_address b.quantity registers bits
    → BatchOk b
    → Within b (i, p)
    → PointOk p
    → p.register_type ≡ b.register_type
    → decode_modbus_point_value p b registers bits ≡ ok (device_value m p)
unfolding decode_modbus_point_value
decode-Mirrors m b registers bits i p h fit w k same =
    let (end, below) =
      offset_small p.register_address b.start_address (register_count p) b.quantity w.0 k.in_space.0
        w.1 fit.in_space in
    let here : b.start_address + offset_in p b ≡ p.register_address = omega arith in
    let next : b.start_address + (offset_in p b + 1) ≡ p.register_address + 1 = omega arith in
    elim (Bool-cases (is_bit_table p.register_type)) [
      | inl e ↦
          let bit = h.0 (offset_in p b) (rw same at e) below in
          rw (vector_at-some _ _ _ bit, e, here, same) refl
      | inr e ↦
          let words =
            decode_register-Mirrors m b.register_type b.start_address b.quantity registers bits
              p.type p.word_order (offset_in p b) h (rw same at e) end in
          rw (e, words, here, next, same) refl
    ]

module _ {N : Type 0} (nmbs : Nmbs N) (image : N → Image) (serves : Serves nmbs image) where
  bits_at :
      (rc : ℤ) (n : N) (f g : ℕ → Bool) (q i : ℕ)
      → is_ok (conclude nmbs rc n).0 ≡ true
      → i < q
      → f i ≡ g i
      → get_elem? (if beq_ℤ rc nmbs.error_none then elements f 0 q else []) i ≡ some (g i)
  bits_at rc n f g q i h lt e = rw (conclude_ok nmbs rc n h) (elements_first f q i lt ∙ ap some e)

  read_connected-Mirrors :
      (u : RegisterType) (start q : ℕ) (ps : List PointRef) (n : N)
      → let b : ReadBatch = record {
        register_type = u;
        start_address = start;
        quantity = q;
        points = ps;
      } in
        let ((r, (registers, bits)), c) = read_connected nmbs b n in
        is_ok r ≡ true → Mirrors (image c.library) u start q registers bits
  unfolding read_connected
  read_connected-Mirrors coil start q ps n h =
      let ((rc, bits), n') = nmbs.read_coils start q n in
      let fine = conclude_ok nmbs rc n' h in
      rw (conclude-library nmbs rc n' h) (
        (λ i w lt.
            bits_at rc n' bits (λ j. (image n').bits coil (start + j)) q i h lt
              (serves.coils start q i n fine lt)),
        (λ i w. cc),
      )
  read_connected-Mirrors discrete_input start q ps n h =
      let ((rc, bits), n') = nmbs.read_discrete_inputs start q n in
      let fine = conclude_ok nmbs rc n' h in
      rw (conclude-library nmbs rc n' h) (
        (λ i w lt.
            bits_at rc n' bits (λ j. (image n').bits discrete_input (start + j)) q i h lt
              (serves.discrete_inputs start q i n fine lt)),
        (λ i w. cc),
      )
  read_connected-Mirrors holding_register start q ps n h =
      let ((rc, words), n') = nmbs.read_holding_registers start q n in
      let fine = conclude_ok nmbs rc n' h in
      rw (conclude-library nmbs rc n' h) (
        (λ i w. cc),
        (λ i w lt.
            elements_first words q i lt ∙ ap some (serves.holding_registers start q i n fine lt)),
      )
  read_connected-Mirrors input_register start q ps n h =
      let ((rc, words), n') = nmbs.read_input_registers start q n in
      let fine = conclude_ok nmbs rc n' h in
      rw (conclude-library nmbs rc n' h) (
        (λ i w. cc),
        (λ i w lt.
            elements_first words q i lt ∙ ap some (serves.input_registers start q i n fine lt)),
      )

  -- Where the library's reads give the elements of the device's tables, each point that a batch covers gets the
  -- value of the device at the point's own address, table, type and word order, if the read of the
  -- batch by ModbusClient succeeds. The conditions are that the batch and the point are valid.
  pub read_batch-device_value :
      (b : ReadBatch) (c : ModbusClient nmbs) (i : ℕ) (p : ModbusPointMapping)
      → BatchOk b
      → Within b (i, p)
      → PointOk p
      → p.register_type ≡ b.register_type
      → is_ok (read_batch nmbs b c).0.0 ≡ true
      → let ((r, (registers, bits)), c') = read_batch nmbs b c in
        decode_modbus_point_value p b registers bits ≡ ok (device_value (image c'.library) p)
  unfolding read_batch
  read_batch-device_value b c i p fit w k same h =
      let n = (ensure_connected nmbs c).1.library in
      elim (Bool-cases (is_ok (ensure_connected nmbs c).0)) [
        | inr e ↦
            let bad : is_ok (ensure_connected nmbs c).0 ≡ true = rw e at h in absurd (cc (e, bad))
        | inl e ↦
            let h' = rw e at h in
            rw e (
              decode-Mirrors (image (read_connected nmbs b n).1.library) b _ _ i p
                (read_connected-Mirrors b.register_type b.start_address b.quantity b.points n h')
                fit w k same)
      ]
