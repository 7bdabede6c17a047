-- ===== src/St/Ops/Time.antt =====
-- TIME arithmetic against the true sum and difference (evalArithmetic of st/value_ops.hpp).
use soft_plc.Base.{◌^◌, ◌≡◌, ◌&&◌, arith, Result, ok, err, time_overflow, if◌then◌else◌}
use soft_plc.Base.Int.{ℤ, ◌+ℤ◌, ◌-ℤ◌, leb_ℤ, InSigned, +ℤ_parts, -ℤ_parts}
use soft_plc.Tags.Value.{Value}
use soft_plc.St.Ops.{BinaryOp, time_arithmetic, time_min, time_max}

-- The true result if it is an int64_t, else the exception.
abbrev pub checked_time : ℤ → Result Value
checked_time z =
    if leb_ℤ time_min z && leb_ℤ z time_max then ok (Value.time z) else err time_overflow

-- The sum of two TIME values is the true sum where that is an int64_t, and throws otherwise.
pub time_add_exact :
    (a b : ℤ)
    → InSigned (2 ^ 63) a
    → InSigned (2 ^ 63) b
    → time_arithmetic BinaryOp.add a b ≡ checked_time (a +ℤ b)
unfolding time_arithmetic
time_add_exact a b ha hb = ground (arith, +ℤ_parts a b, -ℤ_parts time_max b, -ℤ_parts time_min b)

-- The difference of two TIME values is the true difference where that is an int64_t, and throws
-- otherwise.
pub time_sub_exact :
    (a b : ℤ)
    → InSigned (2 ^ 63) a
    → InSigned (2 ^ 63) b
    → time_arithmetic BinaryOp.sub a b ≡ checked_time (a -ℤ b)
unfolding time_arithmetic
time_sub_exact a b ha hb = ground (arith, -ℤ_parts a b, +ℤ_parts time_max b, +ℤ_parts time_min b)
