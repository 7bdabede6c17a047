-- ===== src/Io/Client/Replies.antt =====
-- The replies of ModbusClient and its connection after a failure (io/modbus_client.cpp).
use soft_plc.Base.{
  ℕ, zero, suc, ◌≤◌, ◌≡◌, refl, Bool, true, false, List, [], arith, length, if◌then◌else◌,
  Bool-cases, inl, inr,
}
use soft_plc.Base.Int.{ℤ, beq_ℤ}
use soft_plc.Io.Mapping.{
  RegisterType, coil, discrete_input, holding_register, input_register, ReadBatch, PointRef,
}
use soft_plc.Io.Client.{
  RequestResult, is_ok, is_exception, Nmbs, elements, translate_modbus_error, ModbusClient,
  is_connected, ensure_connected, create_client, conclude, read_connected, read_batch,
  write_registers, write_coils, client_requests, Answers, IsFaithful,
}

pub length-elements : {A : Type 0} (f : ℕ → A) (i n : ℕ) → length (elements f i n) ≡ n
length-elements f i zero = refl
length-elements f i (suc n) = omega (arith, length-elements f (suc i) n)

module _ {N : Type 0} (nmbs : Nmbs N) where
  -- A failure other than an exception response leaves the client unconnected.
  abbrev pub Closes : RequestResult × ModbusClient nmbs → Type 0
  Closes (r, c) = is_ok r ≡ false → is_exception r ≡ false → is_connected nmbs c ≡ false

  not_created : (n : N) → is_connected nmbs (record { library = n; created = false }) ≡ false
  not_created n = ground arith

  conclude-Closes : (rc : ℤ) (n : N) → Closes (conclude nmbs rc n)
  unfolding conclude
  conclude-Closes rc n p q = ground arith

  create_client-Closes : (n : N) → Closes (create_client nmbs n)
  unfolding create_client
  create_client-Closes n p q = ground arith

  ensure_connected-Closes : (c : ModbusClient nmbs) → Closes (ensure_connected nmbs c)
  unfolding ensure_connected create_client
  ensure_connected-Closes c p q = ground arith

  read_connected-Closes :
      (b : ReadBatch) (n : N) → let ((r, x), c) = read_connected nmbs b n in Closes (r, c)
  unfolding read_connected
  read_connected-Closes b n = by_table b.register_type
    where
      by_table :
          (t : RegisterType)
          → let ((r, x), c) = read_connected nmbs (record b { register_type = t }) n in
            Closes (r, c)
      by_table coil =
          let ((rc, bits), n') = nmbs.read_coils b.start_address b.quantity n in
          conclude-Closes rc n'
      by_table discrete_input =
          let ((rc, bits), n') = nmbs.read_discrete_inputs b.start_address b.quantity n in
          conclude-Closes rc n'
      by_table holding_register =
          let ((rc, words), n') = nmbs.read_holding_registers b.start_address b.quantity n in
          conclude-Closes rc n'
      by_table input_register =
          let ((rc, words), n') = nmbs.read_input_registers b.start_address b.quantity n in
          conclude-Closes rc n'

  -- After a read or a write that fails without an exception response, the client is not connected,
  -- so that the next request connects afresh.
  pub requests-Closes :
      (b : ReadBatch) (address : ℕ) (values : List ℕ) (bits : List Bool) (c : ModbusClient nmbs)
      → let ((r, x), c') = read_batch nmbs b c in
        Closes (r, c')
        × Closes (write_registers nmbs address values c)
        × Closes (write_coils nmbs address bits c)
  unfolding read_batch write_registers write_coils
  requests-Closes b address values bits c =
      let open_fails = ensure_connected-Closes c in
      elim (Bool-cases (is_ok (ensure_connected nmbs c).0)) [
        | inl e ↦ rw e (
          read_connected-Closes b (ensure_connected nmbs c).1.library,
          conclude-Closes _ _,
          conclude-Closes _ _,
        )
        | inr e ↦ rw e (open_fails, open_fails, open_fails)
      ]

  pub conclude_ok :
      (rc : ℤ) (n : N) → is_ok (conclude nmbs rc n).0 ≡ true → beq_ℤ rc nmbs.error_none ≡ true
  unfolding conclude translate_modbus_error
  conclude_ok rc n e = ground arith

  bits_length :
      (rc : ℤ) (n : N) (f : ℕ → Bool) (q : ℕ)
      → is_ok (conclude nmbs rc n).0 ≡ true
      → q ≤ length (if beq_ℤ rc nmbs.error_none then elements f 0 q else [])
  bits_length rc n f q p = rw (conclude_ok rc n p) (omega (arith, length-elements f 0 q))

  read_connected-Answers :
      (u : RegisterType) (start q : ℕ) (ps : List PointRef) (n : N)
      → let b : ReadBatch = record {
        register_type = u;
        start_address = start;
        quantity = q;
        points = ps;
      } in
        let ((r, (registers, bits)), c) = read_connected nmbs b n in
        is_ok r ≡ true → Answers b registers bits
  unfolding read_connected
  read_connected-Answers coil start q ps n p =
      let ((rc, bits), n') = nmbs.read_coils start q n in
      ((λ _. bits_length rc n' bits q p), (λ z. cc))
  read_connected-Answers discrete_input start q ps n p =
      let ((rc, bits), n') = nmbs.read_discrete_inputs start q n in
      ((λ _. bits_length rc n' bits q p), (λ z. cc))
  read_connected-Answers holding_register start q ps n p =
      let ((rc, words), n') = nmbs.read_holding_registers start q n in
      ((λ z. cc), (λ _. omega (arith, length-elements words 0 q)))
  read_connected-Answers input_register start q ps n p =
      let ((rc, words), n') = nmbs.read_input_registers start q n in
      ((λ z. cc), (λ _. omega (arith, length-elements words 0 q)))

  -- A read of ModbusClient that succeeds holds all the registers or bits that were asked for.
  pub client_requests-IsFaithful :
      {T : Type 0} (clock : T → ℕ × T) → IsFaithful (client_requests nmbs clock)
  unfolding read_batch
  client_requests-IsFaithful clock b (c, t) =
      elim (Bool-cases (is_ok (ensure_connected nmbs c).0)) [
        | inl e ↦ rw e (
            read_connected-Answers b.register_type b.start_address b.quantity b.points
              (ensure_connected nmbs c).1.library)
        | inr e ↦ rw e (λ p. cc)
      ]
