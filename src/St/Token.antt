-- ===== src/St/Token.antt =====
-- The tokens of Structured Text (include/softplc/st/token.hpp).
use soft_plc.Base.{ℕ, ◌==◌, Bool, false, Str, []}
use soft_plc.Base.Int.{ℤ, pos}
use soft_plc.Tags.Value.{Address, MemoryArea, no_bit}

pub data TokenType : Type 0 where
  int_literal real_literal bool_literal time_literal string_literal address_literal : TokenType
  ident : TokenType
  kw_program kw_end_program kw_var kw_var_input kw_var_output kw_end_var kw_at : TokenType
  kw_if kw_then kw_elsif kw_else kw_end_if kw_while kw_do kw_end_while : TokenType
  kw_and kw_or kw_xor kw_not : TokenType
  kw_bool kw_byte kw_int kw_dint kw_real kw_lreal kw_time kw_string : TokenType
  kw_function_block kw_end_function_block kw_function kw_end_function kw_var_temp : TokenType
  kw_data_block kw_end_data_block kw_rung kw_set kw_reset : TokenType
  colon semicolon assign_sign l_paren r_paren plus minus star slash : TokenType
  eq_sign ne_sign lt_sign gt_sign le_sign ge_sign dot_sign comma r_arrow : TokenType
  end_of_file : TokenType

-- A real value is the bit pattern of the double.
pub record Token : Type 0 where
  pub type : TokenType
  pub text : Str
  pub line : ℕ
  pub column : ℕ
  pub int_value : ℕ
  pub real_value : ℕ
  pub bool_value : Bool
  pub string_value : Str
  pub time_value : ℤ
  pub address_value : Address

abbrev pub new_token : TokenType → Str → ℕ → ℕ → Token
new_token type text line column = record {
  type = type;
  text = text;
  line = line;
  column = column;
  int_value = 0;
  real_value = 0;
  bool_value = false;
  string_value = [];
  time_value = pos 0;
  address_value = record { area = MemoryArea.no_area; byte_offset = 0; bit_offset = no_bit };
}

-- The position of a type in the enumeration of token.hpp.
abbrev pub type_index : TokenType → ℕ
type_index TokenType.int_literal = 0
type_index TokenType.real_literal = 1
type_index TokenType.bool_literal = 2
type_index TokenType.time_literal = 3
type_index TokenType.string_literal = 4
type_index TokenType.address_literal = 5
type_index TokenType.ident = 6
type_index TokenType.kw_program = 7
type_index TokenType.kw_end_program = 8
type_index TokenType.kw_var = 9
type_index TokenType.kw_var_input = 10
type_index TokenType.kw_var_output = 11
type_index TokenType.kw_end_var = 12
type_index TokenType.kw_at = 13
type_index TokenType.kw_if = 14
type_index TokenType.kw_then = 15
type_index TokenType.kw_elsif = 16
type_index TokenType.kw_else = 17
type_index TokenType.kw_end_if = 18
type_index TokenType.kw_while = 19
type_index TokenType.kw_do = 20
type_index TokenType.kw_end_while = 21
type_index TokenType.kw_and = 22
type_index TokenType.kw_or = 23
type_index TokenType.kw_xor = 24
type_index TokenType.kw_not = 25
type_index TokenType.kw_bool = 26
type_index TokenType.kw_byte = 27
type_index TokenType.kw_int = 28
type_index TokenType.kw_dint = 29
type_index TokenType.kw_real = 30
type_index TokenType.kw_lreal = 31
type_index TokenType.kw_time = 32
type_index TokenType.kw_string = 33
type_index TokenType.kw_function_block = 34
type_index TokenType.kw_end_function_block = 35
type_index TokenType.kw_function = 36
type_index TokenType.kw_end_function = 37
type_index TokenType.kw_var_temp = 38
type_index TokenType.kw_data_block = 39
type_index TokenType.kw_end_data_block = 40
type_index TokenType.kw_rung = 41
type_index TokenType.kw_set = 42
type_index TokenType.kw_reset = 43
type_index TokenType.colon = 44
type_index TokenType.semicolon = 45
type_index TokenType.assign_sign = 46
type_index TokenType.l_paren = 47
type_index TokenType.r_paren = 48
type_index TokenType.plus = 49
type_index TokenType.minus = 50
type_index TokenType.star = 51
type_index TokenType.slash = 52
type_index TokenType.eq_sign = 53
type_index TokenType.ne_sign = 54
type_index TokenType.lt_sign = 55
type_index TokenType.gt_sign = 56
type_index TokenType.le_sign = 57
type_index TokenType.ge_sign = 58
type_index TokenType.dot_sign = 59
type_index TokenType.comma = 60
type_index TokenType.r_arrow = 61
type_index TokenType.end_of_file = 62

abbrev pub type_eq : TokenType → TokenType → Bool
type_eq s t = type_index s == type_index t

unfoldable pub is_end : TokenType → Bool
is_end type = type_eq type TokenType.end_of_file
