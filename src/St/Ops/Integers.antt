-- ===== src/St/Ops/Integers.antt =====
-- BYTE, INT and DINT, computed in doubles, against integer arithmetic (st/value_ops.hpp).
use soft_plc.Base.{
  ℕ, ◌-◌, ◌^◌, ◌≡◌, ◌⊎◌, inl, inr, refl, ◌∙◌, true, ◌||◌, Option, none, some, arith, Result, ok,
  err, ◌>>=◌, overflow, if◌then◌else◌, Bool-cases, some_inj,
}
use soft_plc.Base.Int.{ℤ, pos, negsuc, ◌+ℤ◌, ◌-ℤ◌, ◌*ℤ◌, ◌≤ℤ◌, ltb_ℤ, pos_part, int_laws}
use soft_plc.Tags.Value.{TypeId, Value, type_of, type_eq, type_eq_iff, InRange}
use soft_plc.St.Fpu.{Fpu, FpuLaws, Exact, Represents, IsHuge, IsHugeNegative}
use soft_plc.St.Ops.{
  BinaryOp, is_numeric, as_double, from_double, coerce_to_type, numeric_result_type,
  eval_arithmetic, double_arithmetic, numeric_arithmetic,
}

-- The integer that a BYTE, INT or DINT value is.
abbrev pub integer_of : Value → Option ℤ
integer_of (Value.byte n) = some (pos n)
integer_of (Value.int z) = some z
integer_of (Value.dint z) = some z
integer_of _ = none

-- The least and greatest values of an integer type.
abbrev pub lowest : TypeId → ℤ
lowest TypeId.byte = pos 0
lowest TypeId.int = negsuc 32767
lowest _ = negsuc 2147483647

abbrev pub greatest : TypeId → ℤ
greatest TypeId.byte = pos 255
greatest TypeId.int = pos 32767
greatest _ = pos 2147483647

abbrev make : TypeId → ℤ → Value
make TypeId.byte z = Value.byte (pos_part z)
make TypeId.int z = Value.int z
make _ z = Value.dint z

-- The value of an integer type that is the integer `z`, or the exception if there is none.
abbrev pub checked_integer : TypeId → ℤ → Result Value
checked_integer t z =
    if ltb_ℤ z (lowest t) || ltb_ℤ (greatest t) z then err overflow else ok (make t z)

abbrev pub IsInteger : TypeId → Type 0
IsInteger TypeId.byte = Unit
IsInteger TypeId.int = Unit
IsInteger TypeId.dint = Unit
IsInteger _ = ⊥

-- The wider of two integer types.
abbrev pub wider : TypeId → TypeId → TypeId
wider TypeId.byte t = t
wider TypeId.int TypeId.dint = TypeId.dint
wider TypeId.int t = TypeId.int
wider t _ = t

ℤ-cases : (z : ℤ) → (pos (2 ^ 53) ≤ℤ z) ⊎ (z ≤ℤ negsuc (2 ^ 53 - 1)) ⊎ Exact z
ℤ-cases z = omega arith

-- The operator on integers that an arithmetic operator stands for.
abbrev pub meaning : BinaryOp → ℤ → ℤ → Option ℤ
meaning BinaryOp.add a b = some (a +ℤ b)
meaning BinaryOp.sub a b = some (a -ℤ b)
meaning BinaryOp.mul a b = some (a *ℤ b)
meaning _ a b = none

module _ (fpu : Fpu) (laws : FpuLaws fpu) where
  from_double_integer :
      (d : ℕ) (z : ℤ) (t : TypeId)
      → IsInteger t
      → Represents fpu d z
      → from_double fpu d t ≡ checked_integer t z
  unfolding from_double
  from_double_integer d z TypeId.byte i r =
      rw (r.finite, r.below (pos 0) (omega arith), r.above (pos 255) (omega arith), r.truncates)
        (ground arith)
  from_double_integer d z TypeId.int i r =
      rw
        (
          r.finite,
          r.below (negsuc 32767) (omega arith),
          r.above (pos 32767) (omega arith),
          r.truncates,
        )
        (ground arith)
  from_double_integer d z TypeId.dint i r =
      rw
        (
          r.finite,
          r.below (negsuc 2147483647) (omega arith),
          r.above (pos 2147483647) (omega arith),
          r.truncates,
        )
        (ground arith)
  from_double_integer d z TypeId.real i r = elim i [ ]
  from_double_integer d z TypeId.lreal i r = elim i [ ]
  from_double_integer d z TypeId.bool i r = elim i [ ]
  from_double_integer d z TypeId.time i r = elim i [ ]
  from_double_integer d z TypeId.string i r = elim i [ ]

  abbrev IsDint : ℤ → Type 0
  IsDint z = (negsuc 2147483647 ≤ℤ z) × (z ≤ℤ pos 2147483647)

  -- What the arithmetic needs of an integer operand.
  record Operand (v : Value) (z : ℤ) : Type 0 where
    double : ℕ
    converts : as_double fpu v ≡ ok double
    represents : Represents fpu double z
    bounds : IsDint z
    integer_type : IsInteger (type_of v)

  operand : (v : Value) (z : ℤ) → InRange v → integer_of v ≡ some z → Operand v z
  unfolding as_double
  operand (Value.byte n) z r e = record {
    double = fpu.of_int (pos n);
    converts = refl;
    represents = rw (← some_inj e) (laws.of_int-Represents (pos n) (omega arith));
    bounds = rw (← some_inj e) (omega arith);
    integer_type = tt;
  }
  operand (Value.int n) z r e = record {
    double = fpu.of_int n;
    converts = refl;
    represents = rw (← some_inj e) (laws.of_int-Represents n (omega arith));
    bounds = rw (← some_inj e) (omega arith);
    integer_type = tt;
  }
  operand (Value.dint n) z r e = record {
    double = fpu.of_int n;
    converts = refl;
    represents = rw (← some_inj e) (laws.of_int-Represents n (omega arith));
    bounds = rw (← some_inj e) (omega arith);
    integer_type = tt;
  }
  operand (Value.bool b) z r e = cc
  operand (Value.real w) z r e = cc
  operand (Value.lreal w) z r e = cc
  operand (Value.time t) z r e = cc
  operand (Value.string s) z r e = cc

  numeric : (t : TypeId) → IsInteger t → is_numeric t ≡ true
  unfolding is_numeric
  numeric t i = ground arith

  -- A value in range needs no conversion to its own type.
  same_type :
      (v : Value) (z : ℤ) (t : TypeId)
      → InRange v
      → integer_of v ≡ some z
      → type_of v ≡ t
      → ok v ≡ checked_integer t z
  same_type (Value.byte n) z t r e p = rw (← p, ← some_inj e) (ground arith)
  same_type (Value.int n) z t r e p = rw (← p, ← some_inj e) (ground arith)
  same_type (Value.dint n) z t r e p = rw (← p, ← some_inj e) (ground arith)
  same_type (Value.bool b) z t r e p = cc
  same_type (Value.real w) z t r e p = cc
  same_type (Value.lreal w) z t r e p = cc
  same_type (Value.time u) z t r e p = cc
  same_type (Value.string s) z t r e p = cc

  -- An assignment between integer types keeps the number, or throws where it does not fit.
  pub coerce_to_type_integer :
      (v : Value) (z : ℤ) (t : TypeId)
      → InRange v
      → integer_of v ≡ some z
      → IsInteger t
      → coerce_to_type fpu v t ≡ checked_integer t z
  unfolding coerce_to_type
  coerce_to_type_integer v z t r e i = elim (Bool-cases (type_eq (type_of v) t)) [
    | inl p ↦ rw p (same_type v z t r e ((type_eq_iff (type_of v) t).0 p))
    | inr p ↦
        let o = operand v z r e in
        rw (p, numeric (type_of v) o.integer_type, numeric t i, o.converts)
          (from_double_integer o.double z t i o.represents)
  ]

  result_type :
      (s t : TypeId) → IsInteger s → IsInteger t → numeric_result_type s t ≡ ok (wider s t)
  unfolding numeric_result_type
  result_type s t i j = ground arith

  IsInteger-wider : (s t : TypeId) → IsInteger s → IsInteger t → IsInteger (wider s t)
  IsInteger-wider TypeId.byte t i j = j
  IsInteger-wider TypeId.int TypeId.dint i j = tt
  IsInteger-wider TypeId.int _ i j = tt
  IsInteger-wider TypeId.dint t i j = tt
  IsInteger-wider TypeId.bool t i j = elim i [ ]
  IsInteger-wider TypeId.real t i j = elim i [ ]
  IsInteger-wider TypeId.lreal t i j = elim i [ ]
  IsInteger-wider TypeId.time t i j = elim i [ ]
  IsInteger-wider TypeId.string t i j = elim i [ ]

  from_double_huge :
      (d : ℕ) (z : ℤ) (t : TypeId)
      → IsInteger t
      → IsHuge fpu d
      → pos (2 ^ 53) ≤ℤ z
      → from_double fpu d t ≡ checked_integer t z
  unfolding from_double
  from_double_huge d z TypeId.byte i h p =
      rw (h.finite, h.beyond (pos 255) (omega arith) (omega arith)) (ground arith)
  from_double_huge d z TypeId.int i h p =
      rw (h.finite, h.beyond (pos 32767) (omega arith) (omega arith)) (ground arith)
  from_double_huge d z TypeId.dint i h p =
      rw (h.finite, h.beyond (pos 2147483647) (omega arith) (omega arith)) (ground arith)
  from_double_huge d z _ i h p = absurd i

  from_double_huge_negative :
      (d : ℕ) (z : ℤ) (t : TypeId)
      → IsInteger t
      → IsHugeNegative fpu d
      → z ≤ℤ negsuc (2 ^ 53 - 1)
      → from_double fpu d t ≡ checked_integer t z
  unfolding from_double
  from_double_huge_negative d z TypeId.byte i h p =
      rw (h.finite, h.beyond (pos 0) (omega arith) (omega arith)) (ground arith)
  from_double_huge_negative d z TypeId.int i h p =
      rw (h.finite, h.beyond (negsuc 32767) (omega arith) (omega arith)) (ground arith)
  from_double_huge_negative d z TypeId.dint i h p =
      rw (h.finite, h.beyond (negsuc 2147483647) (omega arith) (omega arith)) (ground arith)
  from_double_huge_negative d z _ i h p = absurd i

  module _ (a b : ℤ) (d e : ℕ) (t : TypeId) (ba : IsDint a) (bb : IsDint b)
      (ra : Represents fpu d a) (rb : Represents fpu e b) (i : IsInteger t) where
    product : from_double fpu (fpu.mul d e) t ≡ checked_integer t (a *ℤ b)
    product = elim (ℤ-cases (a *ℤ b)) [
      | inl big ↦
          from_double_huge _ _ t i (laws.mul-IsHuge d e a b ra rb (omega arith) (omega arith) big)
            big
      | inr (inl small) ↦
          from_double_huge_negative _ _ t i
            (laws.mul-IsHugeNegative d e a b ra rb (omega arith) (omega arith) small) small
      | inr (inr exact) ↦ from_double_integer _ _ t i (laws.mul-Represents d e a b ra rb exact)
    ]

    -- On integers of at most 32 bits a sum, difference or product in doubles is exact, or it is
    -- beyond every 32-bit integer on the true side.
    operator_integer :
        (op : BinaryOp) (c : ℤ)
        → meaning op a b ≡ some c
        → (double_arithmetic fpu op d e >>= λ x. from_double fpu x t) ≡ checked_integer t c
    unfolding double_arithmetic
    operator_integer BinaryOp.add c m =
        rw (← some_inj m)
          (from_double_integer _ _ t i (laws.add-Represents d e a b ra rb (omega int_laws)))
    operator_integer BinaryOp.sub c m =
        rw (← some_inj m)
          (from_double_integer _ _ t i (laws.sub-Represents d e a b ra rb (omega int_laws)))
    operator_integer BinaryOp.mul c m = rw (← some_inj m) product
    operator_integer _ c m = cc

  not_time :
      (op : BinaryOp) (l r : Value) (a : ℤ)
      → integer_of l ≡ some a
      → eval_arithmetic fpu op l r ≡ numeric_arithmetic fpu op l r
  unfolding eval_arithmetic
  not_time op (Value.time t) r a p = cc
  not_time op _ r a p = refl

  -- Addition, subtraction and multiplication of BYTE, INT and DINT values give the true result in
  -- the wider of the two types, and throw if that type does not hold it.
  pub eval_arithmetic_integers :
      (op : BinaryOp) (l r : Value) (a b c : ℤ)
      → InRange l
      → InRange r
      → integer_of l ≡ some a
      → integer_of r ≡ some b
      → meaning op a b ≡ some c
      → eval_arithmetic fpu op l r ≡ checked_integer (wider (type_of l) (type_of r)) c
  unfolding numeric_arithmetic
  eval_arithmetic_integers op l r a b c hl hr p q m =
      let x = operand l a hl p in
      let y = operand r b hr q in
      not_time op l r a p
      ∙ rw
          (
            numeric (type_of l) x.integer_type,
            numeric (type_of r) y.integer_type,
            x.converts,
            y.converts,
            result_type (type_of l) (type_of r) x.integer_type y.integer_type,
          )
          (operator_integer a b x.double y.double (wider (type_of l) (type_of r)) x.bounds y.bounds
            x.represents y.represents
            (IsInteger-wider (type_of l) (type_of r) x.integer_type y.integer_type) op c m)
