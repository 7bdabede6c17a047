-- ===== src/Tests/Ops.antt =====
-- The theorems on the operators, at concrete values.
use soft_plc.Base.{◌≡◌, refl, arith}
use soft_plc.Base.Int.{pos, negsuc, ◌+ℤ◌, ◌-ℤ◌, ◌*ℤ◌}
use soft_plc.Tags.Value.{TypeId, Value, InRange}
use soft_plc.St.Ops.{BinaryOp, eval_arithmetic, coerce_to_type, time_arithmetic}
use soft_plc.St.Ops.Types.{Returns, HasType, eval_arithmetic-InRange, coerce_to_type-HasType}
use soft_plc.St.Ops.Time.{checked_time, time_add_exact, time_sub_exact}
use soft_plc.St.Ops.Integers.{
  checked_integer, wider, coerce_to_type_integer, eval_arithmetic_integers,
}
use soft_plc.Tests.SampleFpu.{sample_fpu, sample_fpu_laws}

time_add_exact_example :
    time_arithmetic BinaryOp.add (pos 9223372036854775807) (pos 1)
    ≡ checked_time (pos 9223372036854775807 +ℤ pos 1)
time_add_exact_example =
    time_add_exact (pos 9223372036854775807) (pos 1) (omega arith, omega arith)
      (omega arith, omega arith)

time_sub_exact_example :
    time_arithmetic BinaryOp.sub (pos 10) (pos 250) ≡ checked_time (pos 10 -ℤ pos 250)
time_sub_exact_example =
    time_sub_exact (pos 10) (pos 250) (omega arith, omega arith) (omega arith, omega arith)

coerce_to_type-HasType_example :
    Returns (HasType TypeId.byte) (coerce_to_type sample_fpu (Value.dint (pos 200)) TypeId.byte)
coerce_to_type-HasType_example =
    coerce_to_type-HasType sample_fpu sample_fpu_laws (Value.dint (pos 200)) TypeId.byte
      (omega arith, omega arith)

eval_arithmetic-InRange_example :
    Returns InRange
      (eval_arithmetic sample_fpu BinaryOp.mul (Value.int (pos 300)) (Value.int (pos 300)))
eval_arithmetic-InRange_example =
    eval_arithmetic-InRange sample_fpu sample_fpu_laws BinaryOp.mul (Value.int (pos 300))
      (Value.int (pos 300)) (omega arith, omega arith) (omega arith, omega arith)

coerce_to_type_integer_example :
    coerce_to_type sample_fpu (Value.int (pos 300)) TypeId.byte
    ≡ checked_integer TypeId.byte (pos 300)
coerce_to_type_integer_example =
    coerce_to_type_integer sample_fpu sample_fpu_laws (Value.int (pos 300)) (pos 300) TypeId.byte
      (omega arith, omega arith) refl tt

eval_arithmetic_integers_example :
    eval_arithmetic sample_fpu BinaryOp.mul (Value.int (pos 300)) (Value.dint (negsuc 299))
    ≡ checked_integer (wider TypeId.int TypeId.dint) (pos 300 *ℤ negsuc 299)
eval_arithmetic_integers_example =
    eval_arithmetic_integers sample_fpu sample_fpu_laws BinaryOp.mul (Value.int (pos 300))
      (Value.dint (negsuc 299)) (pos 300) (negsuc 299) (pos 300 *ℤ negsuc 299)
      (omega arith, omega arith) (omega arith, omega arith) refl refl refl
