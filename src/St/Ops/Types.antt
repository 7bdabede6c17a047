-- ===== src/St/Ops/Types.antt =====
-- The types and ranges of what the operators return.
use soft_plc.Base.{
  ℕ, ◌<◌, ◌^◌, ◌≡◌, inl, inr, refl, Bool, true, false, not, ◌&&◌, ◌||◌, arith, Result, ok, err,
  Error, Bool-cases, throw_if, if◌then◌else◌, ◌>>=◌,
}
use mathlib.Core.Path.{subst}
use soft_plc.Base.Int.{ℤ, pos, negsuc, ◌≤ℤ◌, InSigned, pos_part, ◌+ℤ◌, ◌-ℤ◌, leb_ℤ}
use soft_plc.Tags.Value.{TypeId, Value, type_of, type_eq, type_eq_iff, InRange}
use soft_plc.St.Fpu.{Fpu, FpuLaws, Exact}
use soft_plc.St.Ops.{
  BinaryOp, is_numeric, numeric_result_type, as_double, from_double, coerce_to_type, time_min,
  time_max, time_arithmetic, double_arithmetic, numeric_arithmetic, eval_arithmetic, check_range,
  cast_double,
}
use soft_plc.St.Ops.Time.{checked_time, time_add_exact, time_sub_exact}

-- What an operator returns, if it returns: a value with this property.
abbrev pub Returns {ℓ} : {A : Type 0} → (A → Type ℓ) → Result A → Type ℓ
Returns P (ok a) = P a
Returns P (err e) = Unit

pub Returns-bind {ℓ κ} :
    {A B : Type 0} (Q : A → Type ℓ) (P : B → Type κ) (m : Result A) (f : A → Result B)
    → Returns Q m
    → ((a : A) → Q a → Returns P (f a))
    → Returns P (m >>= f)
Returns-bind Q P (ok a) f q k = k a q
Returns-bind Q P (err e) f q k = tt

pub Returns-ok {ℓ} :
    {A : Type 0} (P : A → Type ℓ) (m : Result A) {a : A} → Returns P m → m ≡ ok a → P a
Returns-ok P m h e = subst (Returns P) e h

pub Returns-check {ℓ} :
    {A : Type 0} (P : A → Type ℓ) (b : Bool) (e : Error) (m : Result A)
    → (b ≡ false → Returns P m)
    → Returns P (throw_if b e >>= λ _. m)
Returns-check P true e m k = tt
Returns-check P false e m k = k refl

-- The value has the type, and lies in the type's range.
abbrev pub HasType : TypeId → Value → Type 0
HasType t v = (type_of v ≡ t) × InRange v

pub Returns-if {ℓ} :
    {A : Type 0} (P : A → Type ℓ) (b : Bool) (x y : Result A)
    → (b ≡ true → Returns P x)
    → (b ≡ false → Returns P y)
    → Returns P (if b then x else y)
Returns-if P true x y h k = h refl
Returns-if P false x y h k = k refl

byte_range : (z : ℤ) → (pos 0 ≤ℤ z) × (z ≤ℤ pos 255) → pos_part z < 256
byte_range (pos n) h = omega arith
byte_range (negsuc n) h = omega arith

checked_time-InRange : (z : ℤ) → Returns InRange (checked_time z)
checked_time-InRange z = elim (Bool-cases (leb_ℤ time_min z && leb_ℤ z time_max)) [
  | inl p ↦ rw p (omega_range z p)
  | inr p ↦ rw p tt
]
  where
    omega_range : (z : ℤ) → (leb_ℤ time_min z && leb_ℤ z time_max) ≡ true → InSigned (2 ^ 63) z
    omega_range z p = ground arith

module _ (fpu : Fpu) (laws : FpuLaws fpu) where
  truncated :
      (d : ℕ) (lo hi : ℤ)
      → Exact lo
      → Exact hi
      → fpu.is_finite d ≡ true
      → (fpu.lt d (fpu.of_int lo) || fpu.lt (fpu.of_int hi) d) ≡ false
      → (lo ≤ℤ fpu.truncate d) × (fpu.truncate d ≤ℤ hi)
  truncated d lo hi l h f p = laws.truncate_bounds d lo hi l h f (ground arith) (ground arith)

  -- fromDouble throws, or gives a value of the type asked for that lies in its range.
  pub from_double-HasType :
      (d : ℕ) (t : TypeId) → d < 2 ^ 64 → Returns (HasType t) (from_double fpu d t)
  unfolding from_double
  from_double-HasType d t lt =
      Returns-check (HasType t) (not (fpu.is_finite d)) _ _ λ fin. checked t (ground arith)
    where
      checked :
          (t : TypeId)
          → fpu.is_finite d ≡ true
          → Returns (HasType t) (check_range fpu d t >>= λ _. cast_double fpu d t)
      checked TypeId.byte fin =
          Returns-check (HasType TypeId.byte) _ _ (cast_double fpu d TypeId.byte) λ p. (
            refl,
            byte_range (fpu.truncate d)
                (truncated d (pos 0) (pos 255) (omega arith) (omega arith) fin p),
          )
      checked TypeId.int fin =
          Returns-check (HasType TypeId.int) _ _ (cast_double fpu d TypeId.int)
            λ p. (refl, truncated d (negsuc 32767) (pos 32767) (omega arith) (omega arith) fin p)
      checked TypeId.dint fin =
          Returns-check (HasType TypeId.dint) _ _ (cast_double fpu d TypeId.dint) λ p. (
            refl,
            truncated d (negsuc 2147483647) (pos 2147483647) (omega arith) (omega arith) fin p,
          )
      checked TypeId.real fin =
          Returns-check (HasType TypeId.real) _ _ (cast_double fpu d TypeId.real)
            λ p. (refl, laws.narrow-lt d)
      checked TypeId.lreal fin = (refl, lt)
      checked TypeId.bool fin = tt
      checked TypeId.time fin = tt
      checked TypeId.string fin = tt

  pub as_double-lt : (v : Value) → InRange v → Returns (λ d. d < 2 ^ 64) (as_double fpu v)
  unfolding as_double
  as_double-lt (Value.bool b) r = tt
  as_double-lt (Value.byte n) r = laws.of_int-lt (pos n)
  as_double-lt (Value.int z) r = laws.of_int-lt z
  as_double-lt (Value.dint z) r = laws.of_int-lt z
  as_double-lt (Value.real w) r = laws.widen-lt w
  as_double-lt (Value.lreal w) r = r
  as_double-lt (Value.time t) r = tt
  as_double-lt (Value.string s) r = tt

  -- coerceToType throws, or gives a value of the target's type that lies in its range.
  pub coerce_to_type-HasType :
      (v : Value) (t : TypeId) → InRange v → Returns (HasType t) (coerce_to_type fpu v t)
  unfolding coerce_to_type
  coerce_to_type-HasType v t r =
      Returns-if (HasType t) (type_eq (type_of v) t) _ _
        (λ same. ((type_eq_iff (type_of v) t).0 same, r))
        (λ _.
          Returns-if (HasType t) (is_numeric (type_of v) && is_numeric t) _ _
            (λ _.
              Returns-bind _ (HasType t) (as_double fpu v) _ (as_double-lt v r)
                (λ d lt. from_double-HasType d t lt))
            (λ _. tt))

  double_arithmetic-lt :
      (op : BinaryOp) (a b : ℕ) → Returns (λ d. d < 2 ^ 64) (double_arithmetic fpu op a b)
  unfolding double_arithmetic
  double_arithmetic-lt BinaryOp.add a b = laws.add-lt a b
  double_arithmetic-lt BinaryOp.sub a b = laws.sub-lt a b
  double_arithmetic-lt BinaryOp.mul a b = laws.mul-lt a b
  double_arithmetic-lt BinaryOp.div a b =
      Returns-if (λ d. d < 2 ^ 64) (fpu.eq b (fpu.of_int (pos 0))) _ _ (λ _. tt)
        (λ _. laws.div-lt a b)
  double_arithmetic-lt BinaryOp.eq a b = tt
  double_arithmetic-lt BinaryOp.ne a b = tt
  double_arithmetic-lt BinaryOp.lt a b = tt
  double_arithmetic-lt BinaryOp.gt a b = tt
  double_arithmetic-lt BinaryOp.le a b = tt
  double_arithmetic-lt BinaryOp.ge a b = tt
  double_arithmetic-lt BinaryOp.and a b = tt
  double_arithmetic-lt BinaryOp.or a b = tt
  double_arithmetic-lt BinaryOp.xor a b = tt

  HasType-InRange : (t : TypeId) (r : Result Value) → Returns (HasType t) r → Returns InRange r
  HasType-InRange t (ok v) h = h.1
  HasType-InRange t (err e) h = tt

  numeric_arithmetic-InRange :
      (op : BinaryOp) (l r : Value)
      → InRange l
      → InRange r
      → Returns InRange (numeric_arithmetic fpu op l r)
  unfolding numeric_arithmetic
  numeric_arithmetic-InRange op l r hl hr =
      Returns-if InRange (not (is_numeric (type_of l)) || not (is_numeric (type_of r))) _ _
        (λ _. tt)
        λ _. Returns-bind _ InRange (as_double fpu l) _ (as_double-lt l hl) λ a _.
          Returns-bind _ InRange (as_double fpu r) _ (as_double-lt r hr) λ b _.
            Returns-bind _ InRange (double_arithmetic fpu op a b) _ (double_arithmetic-lt op a b)
              λ d lt. any_type d lt (numeric_result_type (type_of l) (type_of r))
    where
      any_type :
          (d : ℕ)
          → d < 2 ^ 64
          → (t : Result TypeId) → Returns InRange (t >>= λ t. from_double fpu d t)
      any_type d lt (ok t) = HasType-InRange t (from_double fpu d t) (from_double-HasType d t lt)
      any_type d lt (err e) = tt

  time_arithmetic-InRange :
      (op : BinaryOp) (a b : ℤ)
      → InSigned (2 ^ 63) a
      → InSigned (2 ^ 63) b
      → Returns InRange (time_arithmetic op a b)
  unfolding time_arithmetic
  time_arithmetic-InRange BinaryOp.add a b ha hb =
      rw (time_add_exact a b ha hb) (checked_time-InRange (a +ℤ b))
  time_arithmetic-InRange BinaryOp.sub a b ha hb =
      rw (time_sub_exact a b ha hb) (checked_time-InRange (a -ℤ b))
  time_arithmetic-InRange _ a b ha hb = tt

  -- Arithmetic on values in range throws or returns a value in range.
  pub eval_arithmetic-InRange :
      (op : BinaryOp) (l r : Value)
      → InRange l
      → InRange r
      → Returns InRange (eval_arithmetic fpu op l r)
  unfolding eval_arithmetic
  eval_arithmetic-InRange op (Value.time a) (Value.time b) hl hr =
      time_arithmetic-InRange op a b hl hr
  eval_arithmetic-InRange op (Value.time a) r hl hr =
      numeric_arithmetic-InRange op (Value.time a) r hl hr
  eval_arithmetic-InRange op l r hl hr = numeric_arithmetic-InRange op l r hl hr
