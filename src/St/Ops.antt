-- ===== src/St/Ops.antt =====
-- The operators on values (st/value_ops.hpp). `BinaryOp` and `UnaryOp` are those of st/ast.hpp.
pub mod Integers
pub mod Time
pub mod Types
use soft_plc.Base.{
  ℕ, zero, suc, ◌≡◌, Bool, true, false, not, ◌&&◌, ◌||◌, List, [], ◌∷◌, Option, none, some, Str,
  str_eq, ltb, ◌==◌, if◌then◌else◌, Result, ok, err, Error, throw_if, ◌>>=◌, ◌>>◌, get_elem?,
  not_numeric, non_finite, overflow, not_numeric_result, type_mismatch, time_overflow,
  time_operator, not_arithmetic, arithmetic_operands, division_by_zero, bool_operator,
  not_comparison, comparison_mismatch, logical_operands, not_logical, not_operand, minus_operand,
  out_of_range, ◌^◌, ◌-◌,
}
use soft_plc.Base.Int.{max_ℤ, ℤ, pos, negsuc, ◌+ℤ◌, ◌-ℤ◌, neg_ℤ, ltb_ℤ, leb_ℤ, beq_ℤ, pos_part}
use soft_plc.Tags.Value.{TypeId, Value, type_of, type_eq}
use soft_plc.St.Fpu.{Fpu}

pub data UnaryOp : Type 0 where
  neg logical_not : UnaryOp

pub data BinaryOp : Type 0 where
  add sub mul div eq ne lt gt le ge and or xor : BinaryOp

unfoldable pub numeric_rank : TypeId → ℤ
numeric_rank TypeId.byte = pos 0
numeric_rank TypeId.int = pos 1
numeric_rank TypeId.dint = pos 2
numeric_rank TypeId.real = pos 3
numeric_rank TypeId.lreal = pos 4
numeric_rank _ = negsuc 0

unfoldable pub is_numeric : TypeId → Bool
unfolding numeric_rank
is_numeric t = leb_ℤ (pos 0) (numeric_rank t)

-- kOrder
abbrev numeric_order : List TypeId
numeric_order = TypeId.byte ∷ TypeId.int ∷ TypeId.dint ∷ TypeId.real ∷ TypeId.lreal ∷ []

-- kOrder[static_cast<std::size_t>(rank)]: the index -1 is out of range.
abbrev order_at : ℤ → Result TypeId
order_at (negsuc n) = err out_of_range
order_at (pos n) = elim (get_elem? numeric_order n) [ none ↦ err out_of_range | some t ↦ ok t ]

unfoldable pub numeric_result_type : TypeId → TypeId → Result TypeId
unfolding numeric_rank
numeric_result_type a b = order_at (max_ℤ (numeric_rank a) (numeric_rank b))

-- operator< of std::string: the first byte that differs decides.
unfoldable pub str_lt : Str → Str → Bool
str_lt s [] = false
str_lt [] (b ∷ t) = true
str_lt (a ∷ s) (b ∷ t) = ltb a b || ((a == b) && str_lt s t)

-- The least and the greatest int64_t.
abbrev pub time_min : ℤ
time_min = negsuc (2 ^ 63 - 1)

abbrev pub time_max : ℤ
time_max = pos (2 ^ 63 - 1)

-- The TIME case of evalArithmetic, with its tests for overflow.
unfoldable pub time_arithmetic : BinaryOp → ℤ → ℤ → Result Value
time_arithmetic BinaryOp.add a b =
    if (ltb_ℤ (pos 0) b && ltb_ℤ (time_max -ℤ b) a) || (ltb_ℤ b (pos 0) && ltb_ℤ a (time_min -ℤ b))
    then err time_overflow
    else ok (Value.time (a +ℤ b))
time_arithmetic BinaryOp.sub a b =
    if (ltb_ℤ (pos 0) b && ltb_ℤ a (time_min +ℤ b)) || (ltb_ℤ b (pos 0) && ltb_ℤ (time_max +ℤ b) a)
    then err time_overflow
    else ok (Value.time (a -ℤ b))
time_arithmetic _ a b = err time_operator

-- The switch over the six comparison operators, for a type with these tests.
unfoldable pub compare_with :
    {A : Type 0}
    → (A → A → Bool)
    → (A → A → Bool)
    → (A → A → Bool)
    → BinaryOp
    → A
    → A
    → Result Value
compare_with same less at_most BinaryOp.eq a b = ok (Value.bool (same a b))
compare_with same less at_most BinaryOp.ne a b = ok (Value.bool (not (same a b)))
compare_with same less at_most BinaryOp.lt a b = ok (Value.bool (less a b))
compare_with same less at_most BinaryOp.gt a b = ok (Value.bool (less b a))
compare_with same less at_most BinaryOp.le a b = ok (Value.bool (at_most a b))
compare_with same less at_most BinaryOp.ge a b = ok (Value.bool (at_most b a))
compare_with same less at_most _ a b = err not_comparison

abbrev pub bool_eq : Bool → Bool → Bool
bool_eq true b = b
bool_eq false b = not b

unfoldable pub bool_comparison : BinaryOp → Bool → Bool → Result Value
bool_comparison BinaryOp.eq a b = ok (Value.bool (bool_eq a b))
bool_comparison BinaryOp.ne a b = ok (Value.bool (not (bool_eq a b)))
bool_comparison _ a b = err bool_operator

unfoldable pub bool_logical : BinaryOp → Bool → Bool → Result Value
bool_logical BinaryOp.and a b = ok (Value.bool (a && b))
bool_logical BinaryOp.or a b = ok (Value.bool (a || b))
bool_logical BinaryOp.xor a b = ok (Value.bool (not (bool_eq a b)))
bool_logical _ a b = err not_logical

unfoldable pub eval_logical : BinaryOp → Value → Value → Result Value
unfolding bool_logical
eval_logical op (Value.bool a) (Value.bool b) = bool_logical op a b
eval_logical op _ _ = err logical_operands

module _ (fpu : Fpu) where
  unfoldable pub as_double : Value → Result ℕ
  as_double (Value.byte n) = ok (fpu.of_int (pos n))
  as_double (Value.int z) = ok (fpu.of_int z)
  as_double (Value.dint z) = ok (fpu.of_int z)
  as_double (Value.real w) = ok (fpu.widen w)
  as_double (Value.lreal w) = ok w
  as_double _ = err not_numeric

  -- The lambda `fits` of fromDouble.
  abbrev fits : ℕ → ℕ → ℕ → Result (Unit {0})
  fits d lo hi = throw_if (fpu.lt d lo || fpu.lt hi d) overflow

  -- The range test of fromDouble for a type.
  abbrev check_range : ℕ → TypeId → Result (Unit {0})
  check_range d TypeId.byte = fits d (fpu.of_int (pos 0)) (fpu.of_int (pos 255))
  check_range d TypeId.int = fits d (fpu.of_int (negsuc 32767)) (fpu.of_int (pos 32767))
  check_range d TypeId.dint = fits d (fpu.of_int (negsuc 2147483647)) (fpu.of_int (pos 2147483647))
  check_range d TypeId.real = fits d (fpu.neg fpu.float_max) fpu.float_max
  check_range d _ = ok tt

  -- The cast at the end of fromDouble.
  abbrev cast_double : ℕ → TypeId → Result Value
  cast_double d TypeId.byte = ok (Value.byte (pos_part (fpu.truncate d)))
  cast_double d TypeId.int = ok (Value.int (fpu.truncate d))
  cast_double d TypeId.dint = ok (Value.dint (fpu.truncate d))
  cast_double d TypeId.real = ok (Value.real (fpu.narrow d))
  cast_double d TypeId.lreal = ok (Value.lreal d)
  cast_double d _ = err not_numeric_result

  unfoldable pub from_double : ℕ → TypeId → Result Value
  from_double d type = do
    throw_if (not (fpu.is_finite d)) non_finite
    check_range d type
    cast_double d type

  unfoldable pub coerce_to_type : Value → TypeId → Result Value
  coerce_to_type v target =
      if type_eq (type_of v) target
      then ok v
      else if is_numeric (type_of v) && is_numeric target
      then (as_double v >>= λ d. from_double d target)
      else err type_mismatch

  -- The switch over the operators in evalArithmetic.
  unfoldable pub double_arithmetic : BinaryOp → ℕ → ℕ → Result ℕ
  double_arithmetic BinaryOp.add a b = ok (fpu.add a b)
  double_arithmetic BinaryOp.sub a b = ok (fpu.sub a b)
  double_arithmetic BinaryOp.mul a b = ok (fpu.mul a b)
  double_arithmetic BinaryOp.div a b =
      if fpu.eq b (fpu.of_int (pos 0)) then err division_by_zero else ok (fpu.div a b)
  double_arithmetic _ a b = err not_arithmetic

  -- evalArithmetic after its TIME case.
  unfoldable pub numeric_arithmetic : BinaryOp → Value → Value → Result Value
  numeric_arithmetic op l r =
      if not (is_numeric (type_of l)) || not (is_numeric (type_of r))
      then err arithmetic_operands
      else do
        a ← as_double l
        b ← as_double r
        d ← double_arithmetic op a b
        t ← numeric_result_type (type_of l) (type_of r)
        from_double d t

  unfoldable pub eval_arithmetic : BinaryOp → Value → Value → Result Value
  eval_arithmetic op (Value.time a) (Value.time b) = time_arithmetic op a b
  eval_arithmetic op l r = numeric_arithmetic op l r

  -- The last case of evalComparison.
  unfoldable pub numeric_comparison : BinaryOp → Value → Value → Result Value
  numeric_comparison op l r =
      if is_numeric (type_of l) && is_numeric (type_of r)
      then (as_double l >>= λ a. as_double r >>= λ b. compare_with fpu.eq fpu.lt fpu.le op a b)
      else err comparison_mismatch

  unfoldable pub eval_comparison : BinaryOp → Value → Value → Result Value
  eval_comparison op (Value.bool a) (Value.bool b) = bool_comparison op a b
  eval_comparison op (Value.string a) (Value.string b) =
      compare_with str_eq str_lt (λ s t. not (str_lt t s)) op a b
  eval_comparison op (Value.time a) (Value.time b) = compare_with beq_ℤ ltb_ℤ leb_ℤ op a b
  eval_comparison op l r = numeric_comparison op l r

  unfoldable pub eval_unary : UnaryOp → Value → Result Value
  eval_unary UnaryOp.logical_not (Value.bool b) = ok (Value.bool (not b))
  eval_unary UnaryOp.logical_not _ = err not_operand
  eval_unary UnaryOp.neg (Value.time t) =
      if beq_ℤ t time_min then err time_overflow else ok (Value.time (neg_ℤ t))
  eval_unary UnaryOp.neg v =
      if is_numeric (type_of v)
      then (as_double v >>= λ d. from_double (fpu.neg d) (type_of v))
      else err minus_operand
