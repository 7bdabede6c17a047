-- ===== src/Tags/Value.antt =====
-- The elementary types and values (tags/value.hpp, value.cpp) and the tags (tags/tag.hpp).
use soft_plc.Base.{
  ℕ, ◌<◌, ◌^◌, ◌≡◌, ◌↔◌, Bool, true, false, ◌&&◌, Option, [], arith, ltb, ◌==◌, if◌then◌else◌, Str,
  codes, Eq,
}
use soft_plc.Base.Int.{ℤ, pos, InSigned}

pub data TypeId : Type 0 where
  bool byte int dint real lreal time string : TypeId

-- std::variant: one constructor for each alternative. A float and a double are their IEEE 754 bit
-- patterns, a signed integer is a number of its range, and TIME is a count of milliseconds.
pub data Value : Type 0 where
  bool : Bool → Value
  byte : ℕ → Value
  int : ℤ → Value
  dint : ℤ → Value
  real : ℕ → Value
  lreal : ℕ → Value
  time : ℤ → Value
  string : Str → Value

-- static_cast<uint32_t>(type)
abbrev pub index : TypeId → ℕ
index TypeId.bool = 0
index TypeId.byte = 1
index TypeId.int = 2
index TypeId.dint = 3
index TypeId.real = 4
index TypeId.lreal = 5
index TypeId.time = 6
index TypeId.string = 7

abbrev pub type_eq : TypeId → TypeId → Bool
type_eq a b = index a == index b

pub type_eq_iff : (a b : TypeId) → (type_eq a b ≡ true) ↔ (a ≡ b)
type_eq_iff a b = ground arith

unfoldable pub to_string : TypeId → Str
to_string TypeId.bool = codes "BOOL"
to_string TypeId.byte = codes "BYTE"
to_string TypeId.int = codes "INT"
to_string TypeId.dint = codes "DINT"
to_string TypeId.real = codes "REAL"
to_string TypeId.lreal = codes "LREAL"
to_string TypeId.time = codes "TIME"
to_string TypeId.string = codes "STRING"

abbrev pub type_of : Value → TypeId
type_of (Value.bool b) = TypeId.bool
type_of (Value.byte n) = TypeId.byte
type_of (Value.int z) = TypeId.int
type_of (Value.dint z) = TypeId.dint
type_of (Value.real w) = TypeId.real
type_of (Value.lreal w) = TypeId.lreal
type_of (Value.time t) = TypeId.time
type_of (Value.string s) = TypeId.string

unfoldable pub default_value_for : TypeId → Value
default_value_for TypeId.bool = Value.bool false
default_value_for TypeId.byte = Value.byte 0
default_value_for TypeId.int = Value.int (pos 0)
default_value_for TypeId.dint = Value.dint (pos 0)
default_value_for TypeId.real = Value.real 0
default_value_for TypeId.lreal = Value.lreal 0
default_value_for TypeId.time = Value.time (pos 0)
default_value_for TypeId.string = Value.string []

-- The range of each machine type.
abbrev pub InRange : Value → Type 0
InRange (Value.bool b) = Unit
InRange (Value.byte n) = n < 256
InRange (Value.int z) = InSigned 32768 z
InRange (Value.dint z) = InSigned 2147483648 z
InRange (Value.real w) = w < 2 ^ 32
InRange (Value.lreal w) = w < 2 ^ 64
InRange (Value.time t) = InSigned (2 ^ 63) t
InRange (Value.string s) = Unit

pub data MemoryArea : Type 0 where
  no_area input output memory : MemoryArea

abbrev pub area_index : MemoryArea → ℕ
area_index no_area = 0
area_index input = 1
area_index output = 2
area_index memory = 3

-- `bit_offset` is `no_bit` for an address that names no bit.
pub record Address : Type 0 where
  pub area : MemoryArea
  pub byte_offset : ℕ
  pub bit_offset : ℕ

abbrev pub no_bit : ℕ
no_bit = 255

unfoldable pub addr_eq : Address → Address → Bool
addr_eq a b =
    (area_index a.area == area_index b.area)
    && (a.byte_offset == b.byte_offset)
    && (a.bit_offset == b.bit_offset)

-- operator<
unfoldable pub addr_lt : Address → Address → Bool
addr_lt a b =
    if area_index a.area == area_index b.area
    then if a.byte_offset == b.byte_offset
      then ltb a.bit_offset b.bit_offset
      else ltb a.byte_offset b.byte_offset
    else ltb (area_index a.area) (area_index b.area)

pub addr_eq_iff : (a b : Address) → (addr_eq a b ≡ true) ↔ (a ≡ b)
unfolding addr_eq
addr_eq_iff a b = ground arith

instance abbrev pub Address-eq : Eq Address
Address-eq = record { beq = addr_eq; beq_iff = addr_eq_iff }

pub record Tag : Type 0 where
  pub name : Str
  pub type : TypeId
  pub address : Option Address
  pub value : Value
