-- ===== src/Tests/Polling.antt =====
-- A device that is polled, and the theorems on what is read and sent.
use soft_plc.Base.{
  ℕ, ◌+◌, ◌<◌, ◌≡◌, ◌⊎◌, refl, Bool, true, false, some, List, [], ◌∷◌, arith, codes, ok, map,
  get_elem?, if◌then◌else◌,
}
use soft_plc.Base.Int.{pos}
use soft_plc.Tags.Value.{TypeId, Value, addr_eq}
use soft_plc.Tags.Store.{TagStore, find_address, tag_type, read, at}
use soft_plc.Io.Mapping.{
  ModbusPointMapping, RegisterType, coil, holding_register, ReadBatch, decode_modbus_point_value,
}
use soft_plc.Io.Client.{
  Nmbs, ModbusClient, Requests, client_requests, is_ok, succeeded, read_batch, write_coils,
  ensure_connected, create_client, read_connected, conclude, translate_modbus_error,
}
use soft_plc.Io.Device.{
  CachedPoint, Device, of_direction, empty_point, record_outcome, poll_read, poll_reads,
  store_points, needs_write, send, coil_image, snapshot_value, poll_write, poll_write_while,
  mark_written, value_eq, observe, write_output_point, write_output_points, write_outputs,
}
use soft_plc.Io.Device.Outcomes.{Records, outcomes, was_read, poll_reads-outcomes}
use soft_plc.Io.Device.Marks.{HasValue}
use soft_plc.Io.Device.Outputs.{Shows, IsNews}
use soft_plc.Io.Device.Meanwhile.{poll_write-write_outputs, poll_write-poll_write_while}
use soft_plc.Io.Mapping.{
  build_batches, build_from, build_group, group, insert_point, sort_points, of_table,
}
use soft_plc.Io.Device.Image.{Image, Serves}
use soft_plc.Io.Device.Values.{Reflects, poll_reads-device_value}
use soft_plc.Tests.SampleFpu.{sample_fpu}
use soft_plc.Tests.Points.{point}
use soft_plc.Tests.Tags.{coil_address}
use soft_plc.Tests.Devices.{flaky, requests, fresh, batch, sample_device, config, device_made}

abbrev running_point : ModbusPointMapping
running_point = record (point 6 TypeId.bool RegisterType.coil 12) { iec_address = coil_address }

abbrev coils : ReadBatch
coils = record {
  register_type = RegisterType.coil;
  start_address = 12;
  quantity = 1;
  points = (2, running_point) ∷ [];
}

abbrev coil_read : CachedPoint
coil_read = record empty_point { value = Value.bool true; valid = true }

-- After a read of holding registers that times out and a read of coils that succeeds.
abbrev polled : Device
polled = record sample_device {
  input_cache = empty_point ∷ empty_point ∷ coil_read ∷ [];
  diag = record {
    connected = true;
    successful_polls = 1;
    failed_polls = 1;
    consecutive_failures = 0;
    last_error = codes "error";
    last_success_time = 6;
  };
}

abbrev later : ModbusClient flaky × ℕ
later = (record { library = 3; created = true }, 7)

both_read : poll_reads requests (batch ∷ coils ∷ []) sample_device (fresh, 5) ≡ ok (polled, later)
unfolding poll_reads poll_read read_batch ensure_connected create_client read_connected conclude
    translate_modbus_error record_outcome store_points decode_modbus_point_value sample_device
both_read = refl

poll_reads-outcomes_example :
    Records sample_device.diag (outcomes requests (batch ∷ coils ∷ []) (fresh, 5)) polled.diag
    × (polled.output_cache ≡ sample_device.output_cache)
    × ((get_elem? polled.input_cache 1 ≡ get_elem? sample_device.input_cache 1)
        ⊎ (was_read 1 (batch ∷ coils ∷ []) (outcomes requests (batch ∷ coils ∷ []) (fresh, 5))
            ≡ true))
poll_reads-outcomes_example =
    poll_reads-outcomes requests (batch ∷ coils ∷ []) sample_device (fresh, 5) polled later 1
      both_read

-- A library that answers from tables in which a register holds its own address.
abbrev steady : Nmbs ℕ
steady = record flaky {
  read_coils = λ a q n. ((pos 0, λ i. true), n);
  read_discrete_inputs = λ a q n. ((pos 0, λ i. false), n);
  read_holding_registers = λ a q n. ((pos 0, λ i. a + i), n);
  read_input_registers = λ a q n. ((pos 0, λ i. a + i + 1), n);
}

abbrev tables : Image
tables = record {
  bits = λ t a. elim t [ coil ↦ true | _ ↦ false ];
  words = λ t a. elim t [ holding_register ↦ a | _ ↦ a + 1 ];
}

steady-Serves : Serves steady (λ _. tables)
steady-Serves = record {
  coils = λ a q i n e lt. refl;
  discrete_inputs = λ a q i n e lt. refl;
  holding_registers = λ a q i n e lt. refl;
  input_registers = λ a q i n e lt. refl;
}

abbrev connected : ModbusClient steady
connected = record { library = 1; created = true }

abbrev steady_requests : Requests (ModbusClient steady × ℕ)
steady_requests = client_requests steady (λ t. (t, t + 1))

level_asked :
    was_read 1 sample_device.read_batches
      (outcomes steady_requests sample_device.read_batches (connected, 5))
    ≡ true
unfolding sample_device build_batches build_from build_group group insert_point sort_points of_table
    of_direction read_batch ensure_connected read_connected conclude translate_modbus_error
level_asked = refl

level_placed :
    get_elem? sample_device.input_points 1
    ≡ some (point 4 TypeId.int RegisterType.holding_register 14)
unfolding sample_device of_direction
level_placed = refl

poll_reads-device_value_example :
    (d' : Device) × (c' : ModbusClient steady × ℕ) × (poll_reads steady_requests
        sample_device.read_batches sample_device
        (connected, 5)
      ≡ ok (d', c'))
    × Reflects tables (point 4 TypeId.int RegisterType.holding_register 14) d'.input_cache 1
poll_reads-device_value_example =
    poll_reads-device_value steady (λ t. (t, t + 1)) tables steady-Serves config sample_device
      (connected, 5) 1 (point 4 TypeId.int RegisterType.holding_register 14) device_made
      level_placed level_asked

-- The tag of the output point has just become true.
abbrev switched_on : TagStore
switched_on = record {
  tags =
      record {
        name = codes "running";
        type = TypeId.bool;
        address = some coil_address;
        value = Value.bool true;
      }
      ∷ [];
  by_name = (codes "running", 0) ∷ [];
  by_address = (coil_address, 0) ∷ [];
}

-- The output is in the cache as false, and dirty.
abbrev off : CachedPoint
off = record { value = Value.bool false; valid = true; dirty = true; last_write_time = 0 }

abbrev output_batch : ReadBatch
output_batch = record coils { points = (0, running_point) ∷ [] }

abbrev actuator : Device
actuator = record sample_device {
  output_points = running_point ∷ [];
  write_batches = output_batch ∷ [];
  output_cache = off ∷ [];
}

abbrev after_scan : Device
after_scan = record actuator { output_cache = record off { value = Value.bool true } ∷ [] }

scanned : write_outputs sample_fpu switched_on actuator ≡ ok after_scan
unfolding write_outputs write_output_points write_output_point find_address tag_type read at
    value_eq observe sample_device addr_eq
scanned = refl

running-Shows : Shows switched_on running_point (Value.bool true)
unfolding find_address tag_type read at addr_eq
running-Shows = (0, TypeId.bool, refl, refl, refl, refl)

running-IsNews : IsNews sample_fpu (Value.bool true) off
unfolding value_eq
running-IsNews = refl

poll_write-write_outputs_example :
    (bits : List Bool) × (map (λ r. snapshot_value after_scan.output_cache r) output_batch.points
      ≡ map Value.bool bits)
    × (get_elem? bits 0 ≡ some true)
    × (let (r, c1) = requests.write_coils 12 bits (fresh, 5) in
        let (time, c2) = requests.clock c1 in
        poll_write requests 5 output_batch after_scan (fresh, 5)
        ≡ ok (
          record after_scan {
            diag = record_outcome r time after_scan.diag;
            output_cache =
                if is_ok r
                then mark_written 5 output_batch.points after_scan.output_cache
                else after_scan.output_cache;
          },
          c2,
        ))
poll_write-write_outputs_example =
    poll_write-write_outputs requests sample_fpu switched_on 5 output_batch actuator after_scan
      (fresh, 5) 0 0 running_point off true scanned refl refl running-Shows running-IsNews refl refl
      ((true, refl), tt)

off_due :
    needs_write 5 actuator.config.output_refresh_interval output_batch.points actuator.output_cache
    ≡ true
unfolding needs_write sample_device
off_due = refl

off_sent :
    send requests output_batch (off ∷ []) (fresh, 5)
    ≡ ok (succeeded, (record { library = 1; created = true }, 5))
unfolding send coil_image write_coils ensure_connected create_client conclude translate_modbus_error
off_sent = refl

soon : 900 < 5 + actuator.config.output_refresh_interval
unfolding sample_device
soon = omega arith

poll_write-poll_write_while_example :
    (needs_write 900 actuator.config.output_refresh_interval output_batch.points
        after_scan.output_cache
      ≡ true)
    × (d2 : Device) × (poll_write_while requests
          (λ _. after_scan.output_cache)
          5
          output_batch
          actuator
          (fresh, 5)
        ≡ ok (d2, (requests.clock (record { library = 1; created = true }, 5)).1))
    × HasValue d2.output_cache 0 (Value.bool true)
    × (poll_write requests 900 output_batch d2 (fresh, 7) ≡ ok (d2, (fresh, 7)))
poll_write-poll_write_while_example =
    poll_write-poll_write_while requests sample_fpu switched_on 5 900 output_batch actuator
      after_scan (fresh, 5) (record { library = 1; created = true }, 5) (fresh, 7) succeeded 0 0
      running_point off (Value.bool true) scanned refl refl running-Shows running-IsNews off_due
      off_sent refl refl soon
