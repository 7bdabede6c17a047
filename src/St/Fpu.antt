-- ===== src/St/Fpu.antt =====
-- The floating-point unit, which the program uses and does not implement. A value of type `float` or
-- `double` is its IEEE 754 bit pattern, a number below 2 ^ 32 or 2 ^ 64. The operations are a
-- parameter of the model. `FpuLaws` states what IEEE 754 and C++ document of them on integers of at
-- most 53 bits, which a double holds exactly.
use soft_plc.Base.{ℕ, ◌-◌, ◌<◌, ◌^◌, ◌≡◌, Bool, true, false}
use soft_plc.Base.Int.{ℤ, pos, negsuc, ◌+ℤ◌, ◌-ℤ◌, ◌*ℤ◌, ◌≤ℤ◌, neg_ℤ, ltb_ℤ}

pub record Fpu : Type 0 where
  -- static_cast<double>(integer), static_cast<float>(integer)
  pub of_int : ℤ → ℕ
  pub of_int_float : ℤ → ℕ
  -- static_cast<double>(float), static_cast<float>(double)
  pub widen : ℕ → ℕ
  pub narrow : ℕ → ℕ
  -- static_cast to an integer type, of a double in that type's range
  pub truncate : ℕ → ℤ
  -- std::isfinite
  pub is_finite : ℕ → Bool
  pub add : ℕ → ℕ → ℕ
  pub sub : ℕ → ℕ → ℕ
  pub mul : ℕ → ℕ → ℕ
  pub div : ℕ → ℕ → ℕ
  pub neg : ℕ → ℕ
  pub neg_float : ℕ → ℕ
  pub lt : ℕ → ℕ → Bool
  pub le : ℕ → ℕ → Bool
  pub eq : ℕ → ℕ → Bool
  -- operator== on floats
  pub eq_float : ℕ → ℕ → Bool
  -- std::numeric_limits<float>::max(), as a double
  pub float_max : ℕ

-- The integers that a double holds exactly, with all their neighbours.
abbrev pub Exact : ℤ → Type 0
Exact z = (negsuc (2 ^ 53 - 1) ≤ℤ z) × (z ≤ℤ pos (2 ^ 53))

-- The double `d` is the integer `z`: it is finite, it truncates to `z`, and it compares with the
-- conversion of another integer as `z` does. Both zeros are the integer 0.
pub record Represents (fpu : Fpu) (d : ℕ) (z : ℤ) : Type 0 where
  pub finite : fpu.is_finite d ≡ true
  pub truncates : fpu.truncate d ≡ z
  pub below : (w : ℤ) → Exact w → fpu.lt d (fpu.of_int w) ≡ ltb_ℤ z w
  pub above : (w : ℤ) → Exact w → fpu.lt (fpu.of_int w) d ≡ ltb_ℤ w z

-- The double `d` is finite, and beyond all exact integers on the positive or the negative side.
pub record IsHuge (fpu : Fpu) (d : ℕ) : Type 0 where
  pub finite : fpu.is_finite d ≡ true
  pub beyond :
      (w : ℤ) → negsuc (2 ^ 52 - 1) ≤ℤ w → w ≤ℤ pos (2 ^ 52) → fpu.lt (fpu.of_int w) d ≡ true

pub record IsHugeNegative (fpu : Fpu) (d : ℕ) : Type 0 where
  pub finite : fpu.is_finite d ≡ true
  pub beyond :
      (w : ℤ) → negsuc (2 ^ 52 - 1) ≤ℤ w → w ≤ℤ pos (2 ^ 52) → fpu.lt d (fpu.of_int w) ≡ true

-- Conversion of an exact integer is exact, and so is a sum, difference, product or negation whose
-- true value is an exact integer. The rounding of a larger product stays on its side. Truncation
-- keeps a value within integer bounds that it meets. Each result is a bit pattern of its width.
pub record FpuLaws (fpu : Fpu) : Type 0 where
  pub of_int-Represents : (z : ℤ) → Exact z → Represents fpu (fpu.of_int z) z
  pub add-Represents :
      (d e : ℕ) (a b : ℤ)
      → Represents fpu d a
      → Represents fpu e b
      → Exact (a +ℤ b)
      → Represents fpu (fpu.add d e) (a +ℤ b)
  pub sub-Represents :
      (d e : ℕ) (a b : ℤ)
      → Represents fpu d a
      → Represents fpu e b
      → Exact (a -ℤ b)
      → Represents fpu (fpu.sub d e) (a -ℤ b)
  pub mul-Represents :
      (d e : ℕ) (a b : ℤ)
      → Represents fpu d a
      → Represents fpu e b
      → Exact (a *ℤ b)
      → Represents fpu (fpu.mul d e) (a *ℤ b)
  pub mul-IsHuge :
      (d e : ℕ) (a b : ℤ)
      → Represents fpu d a
      → Represents fpu e b
      → Exact a
      → Exact b
      → pos (2 ^ 53) ≤ℤ a *ℤ b
      → IsHuge fpu (fpu.mul d e)
  pub mul-IsHugeNegative :
      (d e : ℕ) (a b : ℤ)
      → Represents fpu d a
      → Represents fpu e b
      → Exact a
      → Exact b
      → a *ℤ b ≤ℤ negsuc (2 ^ 53 - 1)
      → IsHugeNegative fpu (fpu.mul d e)
  pub neg-Represents : (d : ℕ) (a : ℤ) → Represents fpu d a → Represents fpu (fpu.neg d) (neg_ℤ a)
  pub truncate_bounds :
      (d : ℕ) (lo hi : ℤ)
      → Exact lo
      → Exact hi
      → fpu.is_finite d ≡ true
      → fpu.lt d (fpu.of_int lo) ≡ false
      → fpu.lt (fpu.of_int hi) d ≡ false
      → (lo ≤ℤ fpu.truncate d) × (fpu.truncate d ≤ℤ hi)
  pub narrow-lt : (d : ℕ) → fpu.narrow d < 2 ^ 32
  pub of_int-lt : (z : ℤ) → fpu.of_int z < 2 ^ 64
  pub widen-lt : (w : ℕ) → fpu.widen w < 2 ^ 64
  pub add-lt : (d e : ℕ) → fpu.add d e < 2 ^ 64
  pub sub-lt : (d e : ℕ) → fpu.sub d e < 2 ^ 64
  pub mul-lt : (d e : ℕ) → fpu.mul d e < 2 ^ 64
  pub div-lt : (d e : ℕ) → fpu.div d e < 2 ^ 64
  pub neg-lt : (d : ℕ) → d < 2 ^ 64 → fpu.neg d < 2 ^ 64
