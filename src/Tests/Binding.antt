-- ===== src/Tests/Binding.antt =====
-- A compilation unit with an instance of a block, a call of a function and a data block, and the theorems on
-- the binder at it.
use soft_plc.Base.{
  ℕ, ◌≡◌, ◌≢◌, refl, true, false, none, some, List, [], ◌∷◌, codes, str_eq, decimal, decimal_from,
  ok, err, out_of_fuel, length,
}
use soft_plc.Base.Int.{pos}
use soft_plc.Tags.Value.{TypeId, Value, default_value_for}
use soft_plc.Tags.Store.{empty_store, declare, find, tag_type}
use soft_plc.St.Interp.{exec_block}
use soft_plc.St.Interp.Depth.{AreOrdered, BlockBelow}
use soft_plc.St.Binder.Bound.{
  bind_compilation_unit-ne-out_of_fuel, bind_compilation_unit-AreOrdered,
  exec_block-bind_compilation_unit,
}
use soft_plc.Tests.SampleFpu.{sample_fpu}
use soft_plc.Tests.Tags.{two_tags}
use soft_plc.St.Ops.{BinaryOp}
use soft_plc.St.Ast.{
  literal, identifier, binary, input_arg, output_arg, assign, call, nil, cons, VarKind, VarDecl,
  PouAst, StProgramAst, CompilationUnit, invalid_frame, clone_expr, clone_arg, clone_args,
  clone_stmt, clone_block, clone_branches,
}
use soft_plc.St.Scope.{
  ◌>>=◌, resolve_name, mentions, add_members, bind_expr, find_param, required_inputs, all_bound,
  check_param, bind_args, temp_resets,
}
use soft_plc.St.Binder.{
  expand_type, declare_instance, declare_var, declare_vars, expand_function, resolve_callee,
  bind_call, bind_stmt, bind_block, bind_branches, expand_body, expand_pou, bind_program,
}
use soft_plc.St.Binder.Unit.{register, declare_members, declare_data_blocks, bind_compilation_unit}

abbrev int_var : List ℕ → VarKind → VarDecl
int_var name kind = record {
  name = name;
  kind = kind;
  elementary_type = some TypeId.int;
  instance_of_type = none;
  address = none;
  initial_value = none;
}

abbrev next_pou : PouAst
next_pou = record {
  name = codes "next";
  is_function = true;
  var_decls = int_var (codes "x") VarKind.var_input ∷ int_var (codes "y") VarKind.var_output ∷ [];
  body =
      cons
        (assign (codes "y") 0
          (binary BinaryOp.add (identifier (codes "x") 0) (literal (Value.int (pos 1)))))
        nil;
}

abbrev count_pou : PouAst
count_pou = record {
  name = codes "count";
  is_function = false;
  var_decls = int_var (codes "n") VarKind.var_output ∷ [];
  body =
      cons
        (call (codes "next")
          (input_arg (codes "x") (identifier (codes "n") 0) 0
            ∷ output_arg (codes "y") (codes "n") 0 0
            ∷ [])
          invalid_frame)
        nil;
}

abbrev sample_unit : CompilationUnit
sample_unit = record {
  pous = next_pou ∷ count_pou ∷ [];
  data_blocks =
      record { name = codes "db"; var_decls = int_var (codes "total") VarKind.var ∷ [] } ∷ [];
  program = record {
    name = codes "main";
    var_decls =
        record (int_var (codes "c") VarKind.var) {
          elementary_type = none;
          instance_of_type = some (codes "count");
        }
        ∷ [];
    body =
        cons (call (codes "c") (output_arg (codes "n") (codes "db.total") 0 0 ∷ []) invalid_frame)
          nil;
    frames = [];
  };
}

abbrev bound_program : StProgramAst
bound_program = record sample_unit.program {
  body = cons (call (codes "c") (output_arg (codes "n") (codes "db.total") 2 1 ∷ []) 1) nil;
  frames =
      record {
        scope_name = codes "$fc_next_0";
        body =
            cons
              (assign (codes "y") 4
                (binary BinaryOp.add (identifier (codes "x") 3) (literal (Value.int (pos 1)))))
              nil;
        temp_resets = (4, Value.int (pos 0)) ∷ [];
      }
      ∷ record {
        scope_name = codes "c";
        body =
            cons
              (call (codes "next")
                (input_arg (codes "x") (identifier (codes "n") 2) 3
                  ∷ output_arg (codes "y") (codes "n") 4 2
                  ∷ [])
                0)
              nil;
        temp_resets = [];
      }
      ∷ [];
}

sample_unit-bound : (bind_compilation_unit sample_unit empty_store).0 ≡ ok bound_program
unfolding ◌>>=◌ declare str_eq find tag_type decimal decimal_from clone_expr clone_arg clone_args
    clone_stmt clone_block clone_branches resolve_name mentions add_members bind_expr find_param
    required_inputs all_bound check_param bind_args temp_resets expand_type declare_instance
    declare_var declare_vars expand_function resolve_callee bind_call bind_stmt bind_block
    bind_branches expand_body expand_pou bind_program register declare_members declare_data_blocks
    bind_compilation_unit default_value_for
sample_unit-bound = refl

bind_compilation_unit-ne-out_of_fuel_example :
    (bind_compilation_unit sample_unit empty_store).0 ≢ err out_of_fuel
bind_compilation_unit-ne-out_of_fuel_example =
    bind_compilation_unit-ne-out_of_fuel sample_unit empty_store

bind_compilation_unit-AreOrdered_example :
    AreOrdered bound_program.frames × BlockBelow (length bound_program.frames) bound_program.body
bind_compilation_unit-AreOrdered_example =
    bind_compilation_unit-AreOrdered sample_unit empty_store bound_program sample_unit-bound

exec_block-bind_compilation_unit_example :
    (exec_block sample_fpu bound_program.frames 3 bound_program.body two_tags).0 ≢ err out_of_fuel
exec_block-bind_compilation_unit_example =
    exec_block-bind_compilation_unit sample_fpu sample_unit empty_store two_tags bound_program
      sample_unit-bound
