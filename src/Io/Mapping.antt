-- ===== src/Io/Mapping.antt =====
-- The mapping of tags to Modbus registers (io/modbus_mapping.hpp, modbus_mapping.cpp).
pub mod Codec
pub mod Batches
pub mod Groups
pub mod Members
pub mod Validation
use soft_plc.Base.{
  ℕ, zero, suc, ◌+◌, ◌-◌, ◌*◌, ◌/◌, ◌%◌, ◌^◌, Bool, true, false, not, ◌&&◌, ◌||◌, Option, none,
  some, List, [], ◌∷◌, ◌++◌, Str, ltb, leb, ◌==◌, if◌then◌else◌, Result, ok, err, Error, ◌>>=◌,
  ◌>>◌, throw_if, get_elem?, set, bit_table_type, register_table_type, read_only_output,
  address_overflow, overlap, empty_device_path, shared_unit_id, bad_variant_access, out_of_range,
}
use soft_plc.Base.Int.{ℤ, to_word, of_word}
use soft_plc.Tags.Value.{
  TypeId, Value, type_eq, Address, MemoryArea, area_index, output, default_value_for,
}

pub data RegisterType : Type 0 where
  coil discrete_input holding_register input_register : RegisterType

pub data WordOrder : Type 0 where
  big_endian_words little_endian_words : WordOrder

pub record ModbusPointMapping : Type 0 where
  pub iec_address : Address
  pub type : TypeId
  pub register_type : RegisterType
  pub register_address : ℕ
  pub word_order : WordOrder

abbrev pub table_index : RegisterType → ℕ
table_index coil = 0
table_index discrete_input = 1
table_index holding_register = 2
table_index input_register = 3

abbrev pub is_bit_table : RegisterType → Bool
is_bit_table coil = true
is_bit_table discrete_input = true
is_bit_table holding_register = false
is_bit_table input_register = false

abbrev pub is_read_only_table : RegisterType → Bool
is_read_only_table coil = false
is_read_only_table discrete_input = true
is_read_only_table holding_register = false
is_read_only_table input_register = true

abbrev pub count_of : TypeId → ℕ
count_of TypeId.bool = 1
count_of TypeId.byte = 1
count_of TypeId.int = 1
count_of TypeId.dint = 2
count_of TypeId.real = 2
count_of _ = 0

-- registerCount
abbrev pub register_count : ModbusPointMapping → ℕ
register_count p = count_of p.type

-- A pointer to an element of the vector of points: its position, and the element.
abbrev pub PointRef : Type 0
PointRef = ℕ × ModbusPointMapping

abbrev pub enumerate : ℕ → List ModbusPointMapping → List PointRef
enumerate i [] = []
enumerate i (p ∷ ps) = (i, p) ∷ enumerate (suc i) ps

-- The comparison of std::sort in groupByRegisterType.
abbrev pub precedes : PointRef → PointRef → Bool
precedes a b = ltb a.1.register_address b.1.register_address

-- std::sort by address, as insertion. It keeps the order of equal addresses, which std::sort leaves
-- open.
unfoldable pub insert_point : PointRef → List PointRef → List PointRef
insert_point p [] = p ∷ []
insert_point p (q ∷ qs) = if precedes q p then q ∷ insert_point p qs else p ∷ q ∷ qs

unfoldable pub sort_points : List PointRef → List PointRef
unfolding insert_point
sort_points [] = []
sort_points (p ∷ ps) = insert_point p (sort_points ps)

unfoldable pub of_table : RegisterType → List PointRef → List PointRef
of_table t [] = []
of_table t (p ∷ ps) =
    let rest = of_table t ps in
    if table_index p.1.register_type == table_index t then p ∷ rest else rest

-- One entry of groupByRegisterType's map. A table without points has no entry, and both callers do
-- nothing for an empty group.
unfoldable pub group : RegisterType → List ModbusPointMapping → List PointRef
group t ps = sort_points (of_table t (enumerate 0 ps))

abbrev pub is_register_type : TypeId → Bool
is_register_type TypeId.byte = true
is_register_type TypeId.int = true
is_register_type TypeId.dint = true
is_register_type TypeId.real = true
is_register_type _ = false

-- The body of the first loop of validatePoints.
unfoldable pub validate_point : ModbusPointMapping → Result (Unit {0})
validate_point p = do
  if is_bit_table p.register_type
      then throw_if (not (type_eq p.type TypeId.bool)) bit_table_type
      else throw_if (not (is_register_type p.type)) register_table_type
  throw_if
      (is_read_only_table p.register_type && (area_index p.iec_address.area == area_index output))
      read_only_output
  throw_if ((register_count p == 0) || ltb 65536 (p.register_address + register_count p))
      address_overflow

unfoldable pub validate_each : List ModbusPointMapping → Result (Unit {0})
unfolding validate_point
validate_each [] = ok tt
validate_each (p ∷ ps) = validate_point p >> validate_each ps

-- prevEnd is a uint16_t.
abbrev pub end_of : ModbusPointMapping → ℕ
end_of p = (p.register_address + register_count p) % 65536

-- The second loop of validatePoints over one group.
unfoldable pub check_overlaps : List PointRef → Result (Unit {0})
check_overlaps [] = ok tt
check_overlaps (p ∷ []) = ok tt
check_overlaps (p ∷ q ∷ qs) =
    throw_if (ltb q.1.register_address (end_of p.1)) overlap >> check_overlaps (q ∷ qs)

unfoldable pub validate_points : List ModbusPointMapping → Result (Unit {0})
validate_points ps = do
  validate_each ps
  check_overlaps (group coil ps)
  check_overlaps (group discrete_input ps)
  check_overlaps (group holding_register ps)
  check_overlaps (group input_register ps)

pub record ReadBatch : Type 0 where
  pub register_type : RegisterType
  pub start_address : ℕ
  pub quantity : ℕ
  pub points : List PointRef

abbrev pub max_quantity : RegisterType → ℕ
max_quantity t = if is_bit_table t then 2000 else 125

-- A batch of one point.
abbrev pub single : RegisterType → PointRef → ReadBatch
single t p = record {
  register_type = t;
  start_address = p.1.register_address;
  quantity = register_count p.1;
  points = p ∷ [];
}

-- The test of buildBatches to extend the batch `b` by the point `p`.
abbrev pub extends : ReadBatch → PointRef → Bool
extends b p =
    (p.1.register_address == (b.start_address + b.quantity) % 65536)
    && leb ((b.quantity + register_count p.1) % 65536) (max_quantity b.register_type)

abbrev pub extend : ReadBatch → PointRef → ReadBatch
extend b p = record b {
  quantity = (b.quantity + register_count p.1) % 65536;
  points = b.points ++ p ∷ [];
}

-- The loop of buildBatches over one group, from its current batch.
unfoldable pub build_from : ReadBatch → List PointRef → List ReadBatch
build_from b [] = b ∷ []
build_from b (p ∷ ps) =
    let longer = build_from (extend b p) ps in
    let fresh = b ∷ build_from (single b.register_type p) ps in
    if extends b p then longer else fresh

unfoldable pub build_group : RegisterType → List PointRef → List ReadBatch
unfolding build_from
build_group t [] = []
build_group t (p ∷ ps) = build_from (single t p) ps

unfoldable pub build_batches : List ModbusPointMapping → List ReadBatch
build_batches ps =
    build_group coil (group coil ps)
    ++ (build_group discrete_input (group discrete_input ps)
        ++ (build_group holding_register (group holding_register ps)
            ++ build_group input_register (group input_register ps)))

-- vector::at
abbrev pub vector_at {ℓ} : {A : Type ℓ} → List A → ℕ → Result A
vector_at xs i = elim (get_elem? xs i) [ none ↦ err out_of_range | some x ↦ ok x ]

-- vector::at on the left of an assignment
abbrev pub vector_set : List ℕ → ℕ → ℕ → Result (List ℕ)
vector_set xs i v = elim (get_elem? xs i) [ none ↦ err out_of_range | some x ↦ ok (set xs i v) ]

-- A difference of addresses, converted to std::size_t.
abbrev pub offset_in : ModbusPointMapping → ReadBatch → ℕ
offset_in p b = (p.register_address + 2 ^ 64 - b.start_address) % 2 ^ 64

abbrev pub in_order : {A : Type 0} → WordOrder → A → A → A × A
in_order big_endian_words a b = (a, b)
in_order little_endian_words a b = (b, a)

-- The two registers of a 32-bit value: (high << 16) | low.
abbrev pub combine : WordOrder → ℕ → ℕ → ℕ
combine order a b = let (high, low) = in_order order a b in high * 65536 + low

unfoldable pub decode_register : TypeId → WordOrder → ℕ → List ℕ → Result Value
decode_register TypeId.byte order i rs = vector_at rs i >>= λ r. ok (Value.byte (r % 256))
decode_register TypeId.int order i rs = vector_at rs i >>= λ r. ok (Value.int (of_word 32768 r))
decode_register TypeId.dint order i rs = vector_at rs i >>= λ a.
    vector_at rs (i + 1) >>= λ b. ok (Value.dint (of_word 2147483648 (combine order a b)))
decode_register TypeId.real order i rs =
    vector_at rs i >>= λ a. vector_at rs (i + 1) >>= λ b. ok (Value.real (combine order a b))
decode_register t order i rs = ok (default_value_for t)

unfoldable pub decode_modbus_point_value :
    ModbusPointMapping → ReadBatch → List ℕ → List Bool → Result Value
unfolding decode_register
decode_modbus_point_value p b registers bits =
    if is_bit_table p.register_type
    then (vector_at bits (offset_in p b) >>= λ x. ok (Value.bool x))
    else decode_register p.type p.word_order (offset_in p b) registers

-- The two writes of a 32-bit value, whose words are `combined >> 16` and `combined & 0xFFFF`.
unfoldable pub encode_words : WordOrder → ℕ → ℕ → List ℕ → Result (List ℕ)
encode_words order combined i rs =
    let (first, second) = in_order order (combined / 65536 % 65536) (combined % 65536) in
    vector_set rs i first >>= λ rs'. vector_set rs' (i + 1) second

-- encodeModbusPointValue, with std::get on the value's alternative.
unfoldable pub encode_value : TypeId → WordOrder → Value → ℕ → List ℕ → Result (List ℕ)
unfolding encode_words
encode_value TypeId.byte order (Value.byte n) i rs = vector_set rs i n
encode_value TypeId.int order (Value.int z) i rs = vector_set rs i (to_word 65536 z)
encode_value TypeId.dint order (Value.dint z) i rs = encode_words order (to_word (2 ^ 32) z) i rs
encode_value TypeId.real order (Value.real w) i rs = encode_words order w i rs
encode_value TypeId.byte order _ i rs = err bad_variant_access
encode_value TypeId.int order _ i rs = err bad_variant_access
encode_value TypeId.dint order _ i rs = err bad_variant_access
encode_value TypeId.real order _ i rs = err bad_variant_access
encode_value t order v i rs = ok rs

unfoldable pub encode_modbus_point_value : ModbusPointMapping → Value → ℕ → List ℕ → Result (List ℕ)
unfolding encode_value
encode_modbus_point_value p v i rs = encode_value p.type p.word_order v i rs
