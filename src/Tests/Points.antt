-- ===== src/Tests/Points.antt =====
-- Modbus points, and the theorems on the mapping at them.
use soft_plc.Base.{ℕ, ◌≡◌, refl, List, [], ◌∷◌, arith, ok, All}
use soft_plc.Base.Int.{negsuc}
use soft_plc.Tags.Value.{TypeId, Value, Address, MemoryArea}
use soft_plc.Io.Mapping.{
  RegisterType, WordOrder, ModbusPointMapping, build_batches, validate_point, validate_each,
  validate_points, check_overlaps, group, insert_point, sort_points, of_table, enumerate,
  encode_modbus_point_value, decode_modbus_point_value,
}
use soft_plc.Io.Mapping.Codec.{SameOutside, decode-encode}
use soft_plc.Io.Mapping.Batches.{batched, occurs-build_batches}
use soft_plc.Io.Mapping.Groups.{occurs}
use soft_plc.Io.Mapping.Validation.{
  PointOk, Pairwise, ApartInTable, validate_points-PointOk, validate_points-Pairwise,
  validate_points-wraps,
}

abbrev pub memory_address : ℕ → Address
memory_address n = record { area = MemoryArea.memory; byte_offset = n; bit_offset = 255 }

abbrev pub point : ℕ → TypeId → RegisterType → ℕ → ModbusPointMapping
point n t r a = record {
  iec_address = memory_address n;
  type = t;
  register_type = r;
  register_address = a;
  word_order = WordOrder.little_endian_words;
}

abbrev pub points : List ModbusPointMapping
points =
    point 0 TypeId.dint RegisterType.holding_register 12
    ∷ point 4 TypeId.int RegisterType.holding_register 14
    ∷ point 6 TypeId.bool RegisterType.coil 12
    ∷ []

pub accepted : validate_points points ≡ ok tt
unfolding validate_points validate_each validate_point group insert_point sort_points of_table
    check_overlaps
accepted = refl

decode-encode_example :
    (rs' : List ℕ) × (encode_modbus_point_value
        (point 0 TypeId.dint RegisterType.holding_register 12)
        (Value.dint (negsuc 69999))
        1
        (7 ∷ 0 ∷ 0 ∷ 9 ∷ [])
      ≡ ok rs')
    × (decode_modbus_point_value
          (point 0 TypeId.dint RegisterType.holding_register 12)
          (record {
            register_type = RegisterType.holding_register;
            start_address = 11;
            quantity = 4;
            points = [];
          })
          rs'
          []
        ≡ ok (Value.dint (negsuc 69999)))
    × SameOutside 1 2 (7 ∷ 0 ∷ 0 ∷ 9 ∷ []) rs'
decode-encode_example =
    decode-encode (point 0 TypeId.dint RegisterType.holding_register 12)
      (record {
        register_type = RegisterType.holding_register;
        start_address = 11;
        quantity = 4;
        points = [];
      })
      (Value.dint (negsuc 69999)) (7 ∷ 0 ∷ 0 ∷ 9 ∷ []) [] refl refl refl (omega arith, omega arith)
      (omega arith)

validate_points-PointOk_example : All PointOk points
validate_points-PointOk_example = validate_points-PointOk points accepted

validate_points-Pairwise_example : Pairwise ApartInTable (enumerate 0 points)
validate_points-Pairwise_example =
    validate_points-Pairwise points (omega arith, (omega arith, (omega arith, tt))) accepted

last_accepted : validate_point (point 0 TypeId.dint RegisterType.holding_register 65534) ≡ ok tt
unfolding validate_point
last_accepted = refl

validate_points-wraps_example :
    validate_points (
      point 0 TypeId.dint RegisterType.holding_register 65534
      ∷ point 0 TypeId.dint RegisterType.holding_register 65534
      ∷ [])
    ≡ ok tt
validate_points-wraps_example =
    validate_points-wraps (point 0 TypeId.dint RegisterType.holding_register 65534) last_accepted
      refl

occurs-build_batches_example : occurs 1 (batched (build_batches points)) ≡ 1
occurs-build_batches_example = occurs-build_batches 1 points
