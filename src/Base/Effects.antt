-- ===== src/Base/Effects.antt =====
-- C++ exceptions as results. An error names the throw statement, without the texts in its message.
use mathlib.Core.Path.{◌≡◌, refl}
use mathlib.Core.Logic.{◌⊎◌, inl, inr}
use mathlib.Core.Bool.{Bool, true, false}

pub data Error : Type 0 where
  -- tags/tag_store.cpp
  name_in_use address_in_use invalid_tag_id : Error
  -- st/value_ops.hpp
  not_numeric non_finite overflow not_numeric_result type_mismatch : Error
  time_overflow time_operator not_arithmetic arithmetic_operands division_by_zero : Error
  bool_operator not_comparison comparison_mismatch : Error
  logical_operands not_logical not_operand minus_operand : Error
  -- st/interpreter.cpp
  unresolved_identifier unresolved_target condition_not_bool too_many_iterations : Error
  unresolved_call : Error
  -- st/pou_binder.cpp
  undeclared_identifier undeclared_type circular untyped_declaration undeclared_callee : Error
  block_not_instance unknown_parameter wrong_direction unbound_parameter missing_input : Error
  rung_not_bool duplicate_pou data_block_member : Error
  -- st/lexer.cpp and std::invalid_argument of std::stoll
  unterminated_comment unterminated_string unexpected_character invalid_time_unit : Error
  invalid_time_literal invalid_area missing_byte_offset missing_bit_offset not_a_number : Error
  -- st/parser.cpp
  cannot_negate expected_token expected_pou second_program no_program expected_library_pou : Error
  expected_var_block persistent_var instance_not_allowed expected_type literal_type : Error
  expected_literal expected_statement expected_binding expected_expression : Error
  -- io/modbus_mapping.cpp and the drivers
  bit_table_type register_table_type read_only_output address_overflow overlap : Error
  empty_device_path shared_unit_id invalid_index : Error
  -- std::bad_variant_access of std::get, std::out_of_range of vector::at
  bad_variant_access out_of_range : Error
  -- the bound on nested calls in the model ran out
  out_of_fuel : Error

pub data Result {ℓ} (A : Type ℓ) : Type ℓ where
  err : Error → Result A
  ok : A → Result A

infixl 5 ◌>>=◌ ◌>>◌
abbrev pub ◌>>=◌ {ℓ κ} : {A : Type ℓ} {B : Type κ} → Result A → (A → Result B) → Result B
err code >>= next = err code
ok x >>= next = next x

abbrev pub ◌>>◌ {ℓ} : {B : Type ℓ} → Result (Unit {0}) → Result B → Result B
first >> second = first >>= λ _. second

-- A test that throws when it holds.
abbrev pub throw_if : Bool → Error → Result (Unit {0})
throw_if true e = err e
throw_if false e = ok tt

pub Result-cases {ℓ} :
    {A : Type ℓ} (r : Result A) → ((a : A) × (r ≡ ok a)) ⊎ ((e : Error) × (r ≡ err e))
Result-cases (ok a) = inl (a, refl)
Result-cases (err e) = inr (e, refl)

pub ok_inj {ℓ} : {A : Type ℓ} {a b : A} → Result.ok a ≡ ok b → a ≡ b
ok_inj e = cc
