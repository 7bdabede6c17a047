-- ===== src/Tests/Programs.antt =====
-- A program with a loop and a call, and the theorems on the interpreter at it.
use mathlib.Core.Path.{subst}
use soft_plc.Base.{
  zero, suc, ◌≡◌, ◌≢◌, refl, some, List, [], ◌∷◌, arith, codes, str_eq, err, out_of_fuel, get_elem?,
  some_inj, All, Bool,
}
use soft_plc.Base.Int.{pos}
use soft_plc.Tags.Value.{TypeId, Value, InRange}
use soft_plc.Tags.Store.{declare}
use soft_plc.St.Ops.{BinaryOp}
use soft_plc.St.Ops.Types.{Returns, HasType}
use soft_plc.St.Ast.{
  Expr, literal, identifier, binary, input_arg, output_arg, assign, while_stmt, call, rung,
  RungOutputKind, Block, nil, cons, Frame,
}
use soft_plc.St.Interp.{evaluate, exec_block}
use soft_plc.St.Interp.Eval.{evaluate-InRange}
use soft_plc.St.Interp.Keeps.{IsTyped}
use soft_plc.St.Interp.Typed.{FrameOk, exec_block-IsTyped}
use soft_plc.St.Interp.Depth.{AreOrdered, BlockBelow, exec_block-ne-out_of_fuel}
use soft_plc.Tests.SampleFpu.{sample_fpu, sample_fpu_laws}
use soft_plc.Tests.Tags.{one_tag, two_tags, two_tags-IsValid}

abbrev tag_types : List TypeId
tag_types = TypeId.int ∷ TypeId.bool ∷ []

two_tags-IsTyped : IsTyped tag_types two_tags
unfolding two_tags one_tag declare str_eq
two_tags-IsTyped = record {
  valid = two_tags-IsValid;
  typed = refl;
  values = ((refl, (omega arith, omega arith)), ((refl, tt), tt));
}

abbrev sum : Expr
sum = binary BinaryOp.add (identifier (codes "speed") 0) (literal (Value.int (pos 1)))

-- The frame of a block that counts its tag up.
abbrev count_frame : Frame
count_frame = record {
  scope_name = codes "count";
  body = cons (assign (codes "speed") 0 sum) nil;
  temp_resets = (0, Value.int (pos 1)) ∷ [];
}

abbrev program : Block
program =
    cons
      (call (codes "count")
        (input_arg (codes "in") sum 0 ∷ output_arg (codes "out") (codes "speed") 0 0 ∷ []) 0)
      (cons
        (while_stmt
          (binary BinaryOp.lt (identifier (codes "speed") 0) (literal (Value.int (pos 9))))
          (cons (assign (codes "speed") 0 sum) nil))
        (cons
          (rung (literal (Value.bool Bool.true)) (
            record { kind = RungOutputKind.set; target_name = codes "running"; target_id = 1 }
            ∷ []))
          nil))

frames_ordered : AreOrdered (count_frame ∷ [])
frames_ordered zero f e = subst (λ (g : Frame). BlockBelow 0 g.body) (some_inj e) (tt, tt)
frames_ordered (suc i) f e = cc

one-InRange : InRange (Value.int (pos 1))
one-InRange = (omega arith, omega arith)

nine-InRange : InRange (Value.int (pos 9))
nine-InRange = (omega arith, omega arith)

reset_type : (t : TypeId) → get_elem? tag_types 0 ≡ some t → HasType t (Value.int (pos 1))
reset_type t e = (some_inj e, one-InRange)

coil_type : (t : TypeId) → get_elem? tag_types 1 ≡ some t → t ≡ TypeId.bool
coil_type t e = cc

frames_ok : All (FrameOk tag_types) (count_frame ∷ [])
frames_ok = (record { body_ok = ((tt, one-InRange), tt); resets_ok = (reset_type, tt) }, tt)

evaluate-InRange_example : Returns InRange (evaluate sample_fpu sum two_tags)
evaluate-InRange_example =
    evaluate-InRange sample_fpu sample_fpu_laws sum two_tags (tt, one-InRange)
      two_tags-IsTyped.values

exec_block-IsTyped_example :
    IsTyped tag_types (exec_block sample_fpu (count_frame ∷ []) 2 program two_tags).1
exec_block-IsTyped_example =
    exec_block-IsTyped tag_types sample_fpu sample_fpu_laws (count_frame ∷ []) frames_ok 2 program
      two_tags
      (
        ((tt, one-InRange), (tt, tt)),
        (((tt, nine-InRange), ((tt, one-InRange), tt)), ((tt, (coil_type, tt)), tt)),
      )
      two_tags-IsTyped

exec_block-ne-out_of_fuel_example :
    (exec_block sample_fpu (count_frame ∷ []) 2 program two_tags).0 ≢ err out_of_fuel
exec_block-ne-out_of_fuel_example =
    exec_block-ne-out_of_fuel sample_fpu (count_frame ∷ []) 1 2 program two_tags frames_ordered
      (omega arith, ((tt, tt), (tt, tt))) (omega arith)
