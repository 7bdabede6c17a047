-- ===== src/Tests/Devices.antt =====
-- A Modbus device, a bus and a client, and the theorems on them.
use soft_plc.Base.{
  ℕ, ◌+◌, ◌%◌, ◌≡◌, ◌≢◌, refl, Bool, true, false, none, some, List, [], ◌∷◌, codes, ok, length,
  if◌then◌else◌, ◌==◌,
}
use soft_plc.Base.Int.{ℤ, pos, negsuc}
use soft_plc.Tags.Value.{TypeId, Value}
use soft_plc.Io.Mapping.{RegisterType, ReadBatch, build_batches}
use soft_plc.Io.Client.{
  Nmbs, ModbusClient, client_requests, read_batch, write_registers, write_coils, Requests,
  RequestOutcome,
}
use soft_plc.Io.Client.Replies.{Closes, requests-Closes, client_requests-IsFaithful}
use soft_plc.Io.Device.{
  CachedPoint, empty_point, no_diagnostics, Device, DeviceConfig, of_direction, new_device, send,
  poll_reads,
}
use soft_plc.Io.Device.Writes.{send-gap}
use soft_plc.Io.Device.Reads.{poll_reads-ok}
use soft_plc.Io.Rtu.{
  RtuBusConfig, validate_rtu_bus_config, validate_devices, insert_id, sort_ids, has_adjacent,
  unit_ids,
}
use soft_plc.Io.Rtu.Units.{AreDistinct, validate_rtu_bus_config-AreDistinct}
use soft_plc.Tests.Points.{point, points, accepted}

abbrev if_odd : ℕ → Bool
if_odd n = n % 2 == 1

abbrev is_positive : ℤ → Bool
is_positive (pos n) = true
is_positive (negsuc n) = false

-- A library that is open in its odd states, where a read of holding registers times out.
abbrev pub flaky : Nmbs ℕ
flaky = record {
  is_open = λ n. if_odd n;
  close = λ n. n + n % 2;
  connect = λ n. (if if_odd n then some (codes "refused") else none, n + 1);
  create = λ n. (pos 0, n);
  error_none = pos 0;
  error_timeout = negsuc 1;
  error_transport = negsuc 2;
  error_invalid_tcp_mbap = negsuc 3;
  error_invalid_unit_id = negsuc 4;
  error_crc = negsuc 5;
  error_is_exception = λ e. is_positive e;
  strerror = λ e. codes "error";
  read_coils = λ a q n. ((pos 0, λ i. true), n);
  read_discrete_inputs = λ a q n. ((pos 0, λ i. true), n);
  read_holding_registers = λ a q n. ((negsuc 1, λ i. i), n);
  read_input_registers = λ a q n. ((pos 2, λ i. i), n);
  write_multiple_registers = λ a v n. (pos 0, n);
  write_multiple_coils = λ a v n. (pos 0, n);
}

abbrev pub requests : Requests (ModbusClient flaky × ℕ)
requests = client_requests flaky (λ t. (t, t + 1))

abbrev pub fresh : ModbusClient flaky
fresh = record { library = 0; created = false }

abbrev pub config : DeviceConfig
config = record { health_tag_address = none; output_refresh_interval = 1000; points = points }

unfoldable pub sample_device : Device
sample_device = record {
  config = config;
  input_points = of_direction false points;
  output_points = of_direction true points;
  read_batches = build_batches (of_direction false points);
  write_batches = build_batches (of_direction true points);
  input_cache = empty_point ∷ empty_point ∷ empty_point ∷ [];
  output_cache = [];
  diag = no_diagnostics;
}

pub device_made : new_device config ≡ ok sample_device
unfolding new_device sample_device of_direction
device_made = rw accepted refl

poll_reads-ok_example :
    (d' : Device) × (c' : ModbusClient flaky × ℕ) × (poll_reads requests sample_device.read_batches
        sample_device
        (fresh, 5)
      ≡ ok (d', c'))
    × (length d'.input_cache ≡ length sample_device.input_points)
poll_reads-ok_example =
    poll_reads-ok requests config sample_device (fresh, 5)
      (client_requests-IsFaithful flaky (λ t. (t, t + 1))) device_made

abbrev pub batch : ReadBatch
batch = record {
  register_type = RegisterType.holding_register;
  start_address = 12;
  quantity = 3;
  points =
      (0, point 0 TypeId.dint RegisterType.holding_register 12)
      ∷ (1, point 4 TypeId.int RegisterType.holding_register 14)
      ∷ [];
}

requests-Closes_example :
    let ((r, x), c') = read_batch flaky batch fresh in
    Closes flaky (r, c')
    × Closes flaky (write_registers flaky 12 (1 ∷ []) fresh)
    × Closes flaky (write_coils flaky 12 (true ∷ []) fresh)
requests-Closes_example = requests-Closes flaky batch 12 (1 ∷ []) (true ∷ []) fresh

abbrev half_filled : List CachedPoint
half_filled =
    record { value = Value.dint (pos 7); valid = true; dirty = true; last_write_time = 0 }
    ∷ empty_point
    ∷ []

send-gap_example :
    send requests batch half_filled (fresh, 5)
    ≢ ok (
      record { outcome = RequestOutcome.success; detail = []; modbus_exception_code = 0 },
      (fresh, 5),
    )
send-gap_example =
    send-gap requests batch half_filled (fresh, 5) 1
      (1, point 4 TypeId.int RegisterType.holding_register 14) empty_point
      (
        record { outcome = RequestOutcome.success; detail = []; modbus_exception_code = 0 },
        (fresh, 5),
      )
      refl refl refl refl refl

abbrev bus : RtuBusConfig
bus = record {
  device_path = codes "/dev/ttyUSB0";
  output_refresh_interval = 1000;
  devices =
      record { unit_id = 7; health_tag_address = none; points = points }
      ∷ record { unit_id = 2; health_tag_address = none; points = points }
      ∷ [];
}

bus_accepted : validate_rtu_bus_config bus ≡ ok tt
unfolding validate_rtu_bus_config validate_devices sort_ids insert_id has_adjacent
bus_accepted = rw accepted refl

validate_rtu_bus_config-AreDistinct_example : AreDistinct (unit_ids bus.devices)
validate_rtu_bus_config-AreDistinct_example = validate_rtu_bus_config-AreDistinct bus bus_accepted
