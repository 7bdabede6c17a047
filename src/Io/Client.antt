-- ===== src/Io/Client.antt =====
-- Requests to a Modbus device: their results (io/modbus_client.hpp, modbus_nmbs_error.hpp), the client of
-- Modbus TCP (modbus_client.cpp), and the interface that the pollers use.
pub mod Replies
use soft_plc.Base.{
  ℕ, ◌%◌, ◌^◌, Bool, true, false, not, ◌&&◌, ◌||◌, Option, none, some, List, [], ◌∷◌, zero, suc,
  ◌+◌, ◌-◌, Str, if◌then◌else◌, length, get_elem?, ◌==◌, ltb, ◌≡◌, ◌≤◌,
}
use soft_plc.Base.Int.{ℤ, to_word, beq_ℤ}
use soft_plc.Io.Mapping.{
  RegisterType, coil, discrete_input, holding_register, input_register, ReadBatch, is_bit_table,
}

pub data RequestOutcome : Type 0 where
  success connect_failed timeout connection_lost protocol_error modbus_exception : RequestOutcome

pub record RequestResult : Type 0 where
  pub outcome : RequestOutcome
  pub detail : Str
  pub modbus_exception_code : ℕ

abbrev pub is_ok : RequestResult → Bool
is_ok r = elim r.outcome [ RequestOutcome.success ↦ true | _ ↦ false ]

abbrev pub is_exception : RequestResult → Bool
is_exception r = elim r.outcome [ RequestOutcome.modbus_exception ↦ true | _ ↦ false ]

-- RequestResult{}
abbrev pub succeeded : RequestResult
succeeded = record { outcome = RequestOutcome.success; detail = []; modbus_exception_code = 0 }

-- The socket and the vendored nanoMODBUS library, on the state `N` of both. An nmbs_error is its number, and a
-- buffer that the library fills is the function of its elements.
pub record Nmbs (N : Type 0) : Type 0 where
  pub is_open : N → Bool
  pub close : N → N
  -- The text of the error, if there is one.
  pub connect : N → Option Str × N
  pub create : N → ℤ × N
  pub error_none : ℤ
  pub error_timeout : ℤ
  pub error_transport : ℤ
  pub error_invalid_tcp_mbap : ℤ
  pub error_invalid_unit_id : ℤ
  pub error_crc : ℤ
  pub error_is_exception : ℤ → Bool
  pub strerror : ℤ → Str
  pub read_coils : ℕ → ℕ → N → (ℤ × (ℕ → Bool)) × N
  pub read_discrete_inputs : ℕ → ℕ → N → (ℤ × (ℕ → Bool)) × N
  pub read_holding_registers : ℕ → ℕ → N → (ℤ × (ℕ → ℕ)) × N
  pub read_input_registers : ℕ → ℕ → N → (ℤ × (ℕ → ℕ)) × N
  pub write_multiple_registers : ℕ → List ℕ → N → ℤ × N
  pub write_multiple_coils : ℕ → List Bool → N → ℤ × N

-- What a poller asks of its client on the state `C`, which also holds the steady clock. A read gives the
-- registers and the bits.
pub record Requests (C : Type 0) : Type 0 where
  pub read_batch : ReadBatch → C → (RequestResult × (List ℕ × List Bool)) × C
  pub write_registers : ℕ → List ℕ → C → RequestResult × C
  pub write_coils : ℕ → List Bool → C → RequestResult × C
  pub clock : C → ℕ × C

-- A reply holds what its batch asked for.
abbrev pub Answers : ReadBatch → List ℕ → List Bool → Type 0
Answers b registers bits =
    (is_bit_table b.register_type ≡ true → b.quantity ≤ length bits)
    × (is_bit_table b.register_type ≡ false → b.quantity ≤ length registers)

-- What a poller relies on: a read that succeeds holds what was asked for.
abbrev pub IsFaithful : {C : Type 0} → Requests C → Type 0
IsFaithful {C} req =
    (b : ReadBatch) (c : C)
    → let ((r, (registers, bits)), c') = req.read_batch b c in
      is_ok r ≡ true → Answers b registers bits

-- The first `n` elements of a buffer, from the element `i`.
abbrev pub elements {ℓ} : {A : Type ℓ} → (ℕ → A) → ℕ → ℕ → List A
elements f i zero = []
elements f i (suc n) = f i ∷ elements f (suc i) n

module _ {N : Type 0} (nmbs : Nmbs N) where
  unfoldable pub translate_modbus_error : ℤ → RequestResult
  translate_modbus_error rc =
      if beq_ℤ rc nmbs.error_none
      then succeeded
      else if nmbs.error_is_exception rc
      then record {
        outcome = RequestOutcome.modbus_exception;
        detail = nmbs.strerror rc;
        modbus_exception_code = to_word 256 rc;
      }
      else record {
        outcome =
            if beq_ℤ rc nmbs.error_timeout
            then RequestOutcome.timeout
            else if beq_ℤ rc nmbs.error_transport
                || (beq_ℤ rc nmbs.error_invalid_tcp_mbap
                    || (beq_ℤ rc nmbs.error_invalid_unit_id || beq_ℤ rc nmbs.error_crc))
            then RequestOutcome.connection_lost
            else RequestOutcome.protocol_error;
        detail = nmbs.strerror rc;
        modbus_exception_code = 0;
      }

  -- ModbusClient: the socket and library, and Impl::created.
  pub record ModbusClient : Type 0 where
    pub library : N
    pub created : Bool

  abbrev pub is_connected : ModbusClient → Bool
  is_connected c = nmbs.is_open c.library && c.created

  abbrev pub disconnect : ModbusClient → ModbusClient
  disconnect c = record { library = nmbs.close c.library; created = false }

  abbrev failed_connect : Str → RequestResult
  failed_connect text = record {
    outcome = RequestOutcome.connect_failed;
    detail = text;
    modbus_exception_code = 0;
  }

  -- The part of ensureConnected after the socket is open.
  unfoldable pub create_client : N → RequestResult × ModbusClient
  create_client n =
      let (rc, n') = nmbs.create n in
      if beq_ℤ rc nmbs.error_none
      then (succeeded, record { library = n'; created = true })
      else (failed_connect (nmbs.strerror rc), record { library = nmbs.close n'; created = false })

  unfoldable pub ensure_connected : ModbusClient → RequestResult × ModbusClient
  unfolding create_client
  ensure_connected c =
      if is_connected c
      then (succeeded, c)
      else let (error, n) = nmbs.connect (disconnect c).library in
        elim error [
          | some text ↦ (failed_connect text, record { library = n; created = false })
          | none ↦ create_client n
        ]

  -- The end of each request: a failure that is no exception response closes the connection.
  unfoldable pub conclude : ℤ → N → RequestResult × ModbusClient
  unfolding translate_modbus_error
  conclude rc n =
      let r = translate_modbus_error rc in
      let c : ModbusClient = record { library = n; created = true } in
      if not (is_ok r) && not (is_exception r) then (r, disconnect c) else (r, c)

  -- readBatch once connected.
  unfoldable pub read_connected :
      ReadBatch → N → (RequestResult × (List ℕ × List Bool)) × ModbusClient
  read_connected b n = elim b.register_type [
    | coil ↦
        let ((rc, bits), n') = nmbs.read_coils b.start_address b.quantity n in
        let (r, c) = conclude rc n' in
        ((r, ([], if beq_ℤ rc nmbs.error_none then elements bits 0 b.quantity else [])), c)
    | discrete_input ↦
        let ((rc, bits), n') = nmbs.read_discrete_inputs b.start_address b.quantity n in
        let (r, c) = conclude rc n' in
        ((r, ([], if beq_ℤ rc nmbs.error_none then elements bits 0 b.quantity else [])), c)
    | holding_register ↦
        let ((rc, words), n') = nmbs.read_holding_registers b.start_address b.quantity n in
        let (r, c) = conclude rc n' in ((r, (elements words 0 b.quantity, [])), c)
    | input_register ↦
        let ((rc, words), n') = nmbs.read_input_registers b.start_address b.quantity n in
        let (r, c) = conclude rc n' in ((r, (elements words 0 b.quantity, [])), c)
  ]

  unfoldable pub read_batch :
      ReadBatch → ModbusClient → (RequestResult × (List ℕ × List Bool)) × ModbusClient
  read_batch b c =
      let (r, c') = ensure_connected c in
      if is_ok r then read_connected b c'.library else ((r, ([], [])), c')

  unfoldable pub write_registers : ℕ → List ℕ → ModbusClient → RequestResult × ModbusClient
  write_registers address values c =
      let (r, c') = ensure_connected c in
      if is_ok r
      then (let (rc, n) = nmbs.write_multiple_registers address values c'.library in conclude rc n)
      else (r, c')

  -- The bitfield that the source fills from `values` holds just these bits.
  unfoldable pub write_coils : ℕ → List Bool → ModbusClient → RequestResult × ModbusClient
  write_coils address values c =
      let (r, c') = ensure_connected c in
      if is_ok r
      then (let (rc, n) = nmbs.write_multiple_coils address values c'.library in conclude rc n)
      else (r, c')

  -- The client as the poller uses it, beside a clock.
  abbrev pub client_requests : {T : Type 0} → (T → ℕ × T) → Requests (ModbusClient × T)
  client_requests clock = record {
    read_batch = λ b (c, t). let (answer, c') = read_batch b c in (answer, (c', t));
    write_registers = λ a v (c, t). let (r, c') = write_registers a v c in (r, (c', t));
    write_coils = λ a v (c, t). let (r, c') = write_coils a v c in (r, (c', t));
    clock = λ (c, t). let (now, t') = clock t in (now, (c, t'));
  }
