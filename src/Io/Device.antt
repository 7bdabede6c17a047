-- ===== src/Io/Device.antt =====
-- A polled Modbus device: the caches between the tag store and the poller (io/modbus_tcp_driver.cpp). The
-- driver of a serial bus has the same code for each of its devices.
pub mod Writes
pub mod Reads
pub mod Outcomes
pub mod Marks
pub mod Outputs
pub mod Meanwhile
pub mod Image
pub mod Values
use soft_plc.Base.{
  ℕ, ◌+◌, ◌%◌, ◌^◌, Bool, true, false, not, ◌&&◌, ◌||◌, Option, none, some, List, [], ◌∷◌, Str, ltb,
  leb, ◌==◌, if◌then◌else◌, length, get_elem?, set, replicate, Result, ok, err, Error,
  bad_variant_access, ◌>>=◌, ◌>>◌, str_eq,
}
use soft_plc.Base.Int.{ℤ, pos, beq_ℤ}
use soft_plc.Tags.Value.{TypeId, Value, type_eq, Address, MemoryArea, area_index, output}
use soft_plc.Tags.Store.{TagStore, find_address, read, tag_type, write}
use soft_plc.St.Fpu.{Fpu}
use soft_plc.St.Exec.{Exec, ◌>>=◌ as bind_exec, ◌>>◌ as seq_exec, pure, gets}
use soft_plc.St.Ops.{bool_eq}
use soft_plc.Io.Mapping.{
  ModbusPointMapping, PointRef, ReadBatch, RegisterType, coil, build_batches, validate_points,
  decode_modbus_point_value, encode_modbus_point_value, offset_in, vector_at,
}
use soft_plc.Io.Client.{RequestResult, is_ok, is_exception, Requests}

-- Times are counts of the steady clock.
pub record CachedPoint : Type 0 where
  pub value : Value
  pub valid : Bool
  pub dirty : Bool
  pub last_write_time : ℕ

-- A default CachedPoint: the first alternative of the variant, and the epoch of the clock.
abbrev pub empty_point : CachedPoint
empty_point = record { value = Value.bool false; valid = false; dirty = false; last_write_time = 0 }

pub record DeviceDiagnostics : Type 0 where
  pub connected : Bool
  pub successful_polls : ℕ
  pub failed_polls : ℕ
  pub consecutive_failures : ℕ
  pub last_error : Str
  pub last_success_time : ℕ

abbrev pub no_diagnostics : DeviceDiagnostics
no_diagnostics = record {
  connected = false;
  successful_polls = 0;
  failed_polls = 0;
  consecutive_failures = 0;
  last_error = [];
  last_success_time = 0;
}

pub record DeviceConfig : Type 0 where
  pub health_tag_address : Option Address
  pub output_refresh_interval : ℕ
  pub points : List ModbusPointMapping

pub record Device : Type 0 where
  pub config : DeviceConfig
  pub input_points : List ModbusPointMapping
  pub output_points : List ModbusPointMapping
  pub read_batches : List ReadBatch
  pub write_batches : List ReadBatch
  pub input_cache : List CachedPoint
  pub output_cache : List CachedPoint
  pub diag : DeviceDiagnostics

abbrev pub is_output : ModbusPointMapping → Bool
is_output p = area_index p.iec_address.area == area_index output

-- The points of one direction, in order.
unfoldable pub of_direction : Bool → List ModbusPointMapping → List ModbusPointMapping
of_direction d [] = []
of_direction d (p ∷ ps) =
    let rest = of_direction d ps in if bool_eq (is_output p) d then p ∷ rest else rest

-- The body of the constructor's loop, without the client.
unfoldable pub new_device : DeviceConfig → Result Device
new_device config =
    validate_points config.points
    >> (let inputs = of_direction false config.points in
        let outputs = of_direction true config.points in
        ok (record {
          config = config;
          input_points = inputs;
          output_points = outputs;
          read_batches = build_batches inputs;
          write_batches = build_batches outputs;
          input_cache = replicate (length inputs) empty_point;
          output_cache = replicate (length outputs) empty_point;
          diag = no_diagnostics;
        }))

-- One round of the loop of readInputs.
unfoldable pub read_input_point : ModbusPointMapping → CachedPoint → Exec (Unit {0})
read_input_point p c s =
    if c.valid
    then elim (find_address p.iec_address s) [
      | none ↦ (ok tt, s)
      | some id ↦
          bind_exec (gets (tag_type id))
            (λ t. if type_eq t p.type then write id c.value else pure tt) s
    ]
    else (ok tt, s)

-- The loop of readInputs over the points and their caches, which are parallel.
unfoldable pub read_input_points : List ModbusPointMapping → List CachedPoint → Exec (Unit {0})
read_input_points (p ∷ ps) (c ∷ cs) = seq_exec (read_input_point p c) (read_input_points ps cs)
read_input_points _ _ = pure tt

unfoldable pub publish_health : Device → Exec (Unit {0})
publish_health d s = elim d.config.health_tag_address [
  | none ↦ (ok tt, s)
  | some a ↦ elim (find_address a s) [
    | none ↦ (ok tt, s)
    | some id ↦
        bind_exec (gets (tag_type id))
          (λ t. if type_eq t TypeId.bool then write id (Value.bool d.diag.connected) else pure tt) s
  ]
]

-- readInputs for one device.
unfoldable pub read_inputs : Device → Exec (Unit {0})
read_inputs d = seq_exec (read_input_points d.input_points d.input_cache) (publish_health d)

-- recordOutcome at the time `now`.
unfoldable pub record_outcome : RequestResult → ℕ → DeviceDiagnostics → DeviceDiagnostics
record_outcome r now d =
    if is_ok r
    then record d {
      connected = true;
      successful_polls = (d.successful_polls + 1) % 2 ^ 64;
      consecutive_failures = 0;
      last_success_time = now;
    }
    else record d {
      connected = if is_exception r then d.connected else false;
      failed_polls = (d.failed_polls + 1) % 2 ^ 64;
      consecutive_failures = (d.consecutive_failures + 1) % 2 ^ 64;
      last_error = r.detail;
    }

module _ (fpu : Fpu) where
  -- operator== of the variant.
  unfoldable pub value_eq : Value → Value → Bool
  value_eq (Value.bool a) (Value.bool b) = bool_eq a b
  value_eq (Value.byte a) (Value.byte b) = a == b
  value_eq (Value.int a) (Value.int b) = beq_ℤ a b
  value_eq (Value.dint a) (Value.dint b) = beq_ℤ a b
  value_eq (Value.real a) (Value.real b) = fpu.eq_float a b
  value_eq (Value.lreal a) (Value.lreal b) = fpu.eq a b
  value_eq (Value.time a) (Value.time b) = beq_ℤ a b
  value_eq (Value.string a) (Value.string b) = str_eq a b
  value_eq _ _ = false

  -- What writeOutputs does to a cached point whose tag has the value `current`.
  unfoldable pub observe : Value → CachedPoint → CachedPoint
  observe current c =
      if not c.valid || not (value_eq c.value current)
      then record c { value = current; valid = true; dirty = true }
      else c

  -- One round of the loop of writeOutputs.
  unfoldable pub write_output_point :
      TagStore → ModbusPointMapping → CachedPoint → Result CachedPoint
  write_output_point s p c = elim (find_address p.iec_address s) [
    | none ↦ ok c
    | some id ↦ tag_type id s >>= λ t.
        if type_eq t p.type then (read id s >>= λ v. ok (observe v c)) else ok c
  ]

  unfoldable pub write_output_points :
      TagStore → List ModbusPointMapping → List CachedPoint → Result (List CachedPoint)
  write_output_points s (p ∷ ps) (c ∷ cs) =
      write_output_point s p c >>= λ c'. write_output_points s ps cs >>= λ cs'. ok (c' ∷ cs')
  write_output_points s _ cs = ok cs

  -- writeOutputs for one device.
  unfoldable pub write_outputs : TagStore → Device → Result Device
  write_outputs s d = write_output_points s d.output_points d.output_cache >>= λ cs.
      ok (record d { output_cache = cs })

-- The loop that stores the values of a batch in the cache.
unfoldable pub store_points :
    ReadBatch → List ℕ → List Bool → List PointRef → List CachedPoint → Result (List CachedPoint)
store_points b registers bits [] cache = ok cache
store_points b registers bits ((i, p) ∷ ps) cache =
    decode_modbus_point_value p b registers bits >>= λ v. vector_at cache i >>= λ c.
    store_points b registers bits ps (set cache i (record c { value = v; valid = true }))

-- A point that has to be sent at the time `now`.
abbrev pub is_due : ℕ → ℕ → CachedPoint → Bool
is_due now interval c = c.valid && (c.dirty || leb (c.last_write_time + interval) now)

-- needsWrite of a batch.
unfoldable pub needs_write : ℕ → ℕ → List PointRef → List CachedPoint → Bool
needs_write now interval [] cache = false
needs_write now interval ((i, p) ∷ ps) cache =
    elim (get_elem? cache i) [ none ↦ false | some c ↦ is_due now interval c ]
    || needs_write now interval ps cache

-- The element of the snapshot for a point: its cached value, or a default Value, a BOOL.
abbrev pub snapshot_value : List CachedPoint → PointRef → Value
snapshot_value cache r = elim (get_elem? cache r.0) [
  | none ↦ Value.bool false
  | some c ↦ if c.valid then c.value else Value.bool false
]

-- std::get<bool> of each element of the snapshot.
unfoldable pub coil_image : List PointRef → List CachedPoint → Result (List Bool)
coil_image [] cache = ok []
coil_image (r ∷ rs) cache = elim (snapshot_value cache r) [
  | Value.bool b ↦ coil_image rs cache >>= λ bs. ok (b ∷ bs)
  | _ ↦ err bad_variant_access
]

-- The registers to write, from those filled by the points before.
unfoldable pub register_image :
    ReadBatch → List PointRef → List CachedPoint → List ℕ → Result (List ℕ)
register_image b [] cache rs = ok rs
register_image b (r ∷ ps) cache rs =
    encode_modbus_point_value r.1 (snapshot_value cache r) (offset_in r.1 b) rs >>= λ rs'.
    register_image b ps cache rs'

abbrev pub mark : ℕ → CachedPoint → CachedPoint
mark now c = record c { dirty = false; last_write_time = now }

-- The loop after a successful write.
unfoldable pub mark_written : ℕ → List PointRef → List CachedPoint → List CachedPoint
mark_written now [] cache = cache
mark_written now ((i, p) ∷ ps) cache = elim (get_elem? cache i) [
  | none ↦ mark_written now ps cache
  | some c ↦ mark_written now ps (set cache i (mark now c))
]

module _ {C : Type 0} (req : Requests C) where
  -- One round of the loop over the read batches. An exception ends the poller.
  unfoldable pub poll_read : ReadBatch → Device → C → Result (Device × C)
  poll_read b d c =
      let ((r, (registers, bits)), c1) = req.read_batch b c in
      let (now, c2) = req.clock c1 in
      let diag = record_outcome r now d.diag in
      if is_ok r
      then (store_points b registers bits b.points d.input_cache >>= λ cache.
          ok (record d { diag = diag; input_cache = cache }, c2))
      else ok (record d { diag = diag }, c2)

  unfoldable pub poll_reads : List ReadBatch → Device → C → Result (Device × C)
  poll_reads [] d c = ok (d, c)
  poll_reads (b ∷ bs) d c = poll_read b d c >>= λ (d', c'). poll_reads bs d' c'

  -- The request for a batch that needs one.
  unfoldable pub send : ReadBatch → List CachedPoint → C → Result (RequestResult × C)
  send b cache c = elim b.register_type [
    | coil ↦ coil_image b.points cache >>= λ bits. ok (req.write_coils b.start_address bits c)
    | _ ↦ register_image b b.points cache (replicate b.quantity 0) >>= λ registers.
        ok (req.write_registers b.start_address registers c)
  ]

  -- One round of the loop over the write batches, where `now` was read before the loop. The cache is locked for
  -- the snapshot and again when the request has ended; `meanwhile` is what other threads make of it between.
  unfoldable pub poll_write_while :
      (List CachedPoint → List CachedPoint) → ℕ → ReadBatch → Device → C → Result (Device × C)
  poll_write_while meanwhile now b d c =
      if needs_write now d.config.output_refresh_interval b.points d.output_cache
      then (send b d.output_cache c >>= λ (r, c1).
          let (time, c2) = req.clock c1 in
          let diag = record_outcome r time d.diag in
          let cache = meanwhile d.output_cache in
          ok (
            record d {
              diag = diag;
              output_cache = if is_ok r then mark_written now b.points cache else cache;
            },
            c2,
          ))
      else ok (d, c)

  -- The round that no other thread meets.
  abbrev pub poll_write : ℕ → ReadBatch → Device → C → Result (Device × C)
  poll_write = poll_write_while (λ cache. cache)

  unfoldable pub poll_writes : ℕ → List ReadBatch → Device → C → Result (Device × C)
  poll_writes now [] d c = ok (d, c)
  poll_writes now (b ∷ bs) d c = poll_write now b d c >>= λ (d', c'). poll_writes now bs d' c'

  -- pollOnce, without writeOutputs of another thread between its steps.
  unfoldable pub poll_once : Device → C → Result (Device × C)
  poll_once d c = poll_reads d.read_batches d c >>= λ (d1, c1).
      let (now, c2) = req.clock c1 in poll_writes now d1.write_batches d1 c2
