-- ===== src/Io/Rtu.antt =====
-- The driver of serial buses (io/modbus_rtu_driver.cpp) and the test of a bus (io/modbus_mapping.cpp). The
-- devices of a bus share its client, and each request names the unit that it is for.
pub mod Units
use soft_plc.Base.{
  ℕ, ◌+◌, Bool, true, false, ◌||◌, Option, none, some, List, [], ◌∷◌, Str, ltb, ◌==◌, if◌then◌else◌,
  length, get_elem?, Result, ok, err, Error, throw_if, empty_device_path, shared_unit_id,
  out_of_range, ◌>>=◌, ◌>>◌,
}
use soft_plc.Tags.Value.{Address}
use soft_plc.Tags.Store.{TagStore}
use soft_plc.St.Fpu.{Fpu}
use soft_plc.St.Exec.{Exec, ◌>>◌ as seq_exec, pure}
use soft_plc.Io.Mapping.{ModbusPointMapping, validate_points, vector_at}
use soft_plc.Io.Client.{Requests}
use soft_plc.Io.Device.{
  Device, DeviceConfig, DeviceDiagnostics, new_device, read_inputs, write_outputs, poll_once,
}

pub record RtuDeviceConfig : Type 0 where
  pub unit_id : ℕ
  pub health_tag_address : Option Address
  pub points : List ModbusPointMapping

pub record RtuBusConfig : Type 0 where
  pub device_path : Str
  pub output_refresh_interval : ℕ
  pub devices : List RtuDeviceConfig

-- std::sort of the unit ids.
unfoldable pub insert_id : ℕ → List ℕ → List ℕ
insert_id u [] = u ∷ []
insert_id u (v ∷ vs) = let rest = insert_id u vs in if ltb v u then v ∷ rest else u ∷ v ∷ vs

unfoldable pub sort_ids : List ℕ → List ℕ
unfolding insert_id
sort_ids [] = []
sort_ids (u ∷ us) = insert_id u (sort_ids us)

-- std::adjacent_find finds something.
unfoldable pub has_adjacent : List ℕ → Bool
has_adjacent [] = false
has_adjacent (u ∷ []) = false
has_adjacent (u ∷ v ∷ vs) = (u == v) || has_adjacent (v ∷ vs)

abbrev pub unit_ids : List RtuDeviceConfig → List ℕ
unit_ids [] = []
unit_ids (d ∷ ds) = d.unit_id ∷ unit_ids ds

unfoldable pub validate_devices : List RtuDeviceConfig → Result (Unit {0})
validate_devices [] = ok tt
validate_devices (d ∷ ds) = validate_points d.points >> validate_devices ds

unfoldable pub validate_rtu_bus_config : RtuBusConfig → Result (Unit {0})
validate_rtu_bus_config bus = do
  throw_if (length bus.device_path == 0) empty_device_path
  validate_devices bus.devices
  throw_if (has_adjacent (sort_ids (unit_ids bus.devices))) shared_unit_id

-- A device with its unit id.
abbrev pub RtuDevice : Type 0
RtuDevice = ℕ × Device

-- The constructor's loop over the devices of a bus; the refresh interval is the bus's.
unfoldable pub new_devices : ℕ → List RtuDeviceConfig → Result (List RtuDevice)
new_devices interval [] = ok []
new_devices interval (c ∷ cs) =
    new_device (record {
      health_tag_address = c.health_tag_address;
      output_refresh_interval = interval;
      points = c.points;
    })
    >>= λ d. new_devices interval cs >>= λ ds. ok ((c.unit_id, d) ∷ ds)

-- The body of the constructor's loop. Each device's points are validated once more, with no effect.
unfoldable pub new_bus : RtuBusConfig → Result (List RtuDevice)
new_bus bus = validate_rtu_bus_config bus >> new_devices bus.output_refresh_interval bus.devices

-- readInputs for one bus.
unfoldable pub read_bus_inputs : List RtuDevice → Exec (Unit {0})
read_bus_inputs [] = pure tt
read_bus_inputs ((u, d) ∷ ds) = seq_exec (read_inputs d) (read_bus_inputs ds)

-- writeOutputs for one bus.
unfoldable pub write_bus_outputs : Fpu → TagStore → List RtuDevice → Result (List RtuDevice)
write_bus_outputs fpu s [] = ok []
write_bus_outputs fpu s ((u, d) ∷ ds) =
    write_outputs fpu s d >>= λ d'. write_bus_outputs fpu s ds >>= λ ds'. ok ((u, d') ∷ ds')

unfoldable pub device_diagnostics : ℕ → List RtuDevice → Result DeviceDiagnostics
device_diagnostics i ds = vector_at ds i >>= λ (u, d). ok d.diag

-- pollBusOnce, on the requests to each unit.
unfoldable pub poll_bus_once :
    {C : Type 0} → (ℕ → Requests C) → List RtuDevice → C → Result (List RtuDevice × C)
poll_bus_once req [] c = ok ([], c)
poll_bus_once req ((u, d) ∷ ds) c = poll_once (req u) d c >>= λ (d', c1).
    poll_bus_once req ds c1 >>= λ (ds', c2). ok ((u, d') ∷ ds', c2)
