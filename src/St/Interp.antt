-- ===== src/St/Interp.antt =====
-- The interpreter (st/interpreter.cpp). Calls between frames run on a depth, the number of nested
-- calls allowed: at 0 the model throws `out_of_fuel`, which the source has not.
pub mod Depth
pub mod Eval
pub mod Fuel
pub mod Keeps
pub mod Typed
use soft_plc.Base.{
  ℕ, zero, suc, Bool, true, false, ◌||◌, Option, none, some, List, [], ◌∷◌, Str, leb, ◌==◌,
  if◌then◌else◌, length, get_elem?, Result, ok, err, Error, unresolved_identifier,
  unresolved_target, condition_not_bool, too_many_iterations, unresolved_call, out_of_fuel,
  ◌>>=◌ as bind_result,
}
use soft_plc.Tags.Value.{Value}
use soft_plc.Tags.Store.{TagStore, invalid_id, read, write, tag_type}
use soft_plc.St.Fpu.{Fpu}
use soft_plc.St.Ops.{
  BinaryOp, eval_arithmetic, eval_comparison, eval_logical, eval_unary, coerce_to_type,
}
use soft_plc.St.Ast.{
  Expr, literal, identifier, unary, binary, CallArg, input_arg, output_arg, RungOutputKind,
  RungOutput, Stmt, assign, if_stmt, while_stmt, call, rung, Block, nil, cons, Branches, no_branch,
  branch, Frame, invalid_frame,
}
use soft_plc.St.Exec.{Exec, ◌>>=◌, ◌>>◌, pure, throw, gets, lift}

-- kMaxIterations
abbrev pub max_iterations : ℕ
max_iterations = 1000000

module _ (fpu : Fpu) where
  -- The switch over the binary operators in evaluate.
  unfoldable pub eval_binary : BinaryOp → Value → Value → Result Value
  eval_binary BinaryOp.add l r = eval_arithmetic fpu BinaryOp.add l r
  eval_binary BinaryOp.sub l r = eval_arithmetic fpu BinaryOp.sub l r
  eval_binary BinaryOp.mul l r = eval_arithmetic fpu BinaryOp.mul l r
  eval_binary BinaryOp.div l r = eval_arithmetic fpu BinaryOp.div l r
  eval_binary BinaryOp.and l r = eval_logical BinaryOp.and l r
  eval_binary BinaryOp.or l r = eval_logical BinaryOp.or l r
  eval_binary BinaryOp.xor l r = eval_logical BinaryOp.xor l r
  eval_binary op l r = eval_comparison fpu op l r

  unfoldable pub evaluate : Expr → TagStore → Result Value
  evaluate (literal v) s = ok v
  evaluate (identifier name id) s =
      if id == invalid_id then err unresolved_identifier else read id s
  evaluate (unary op e) s = bind_result (evaluate e s) λ v. eval_unary fpu op v
  evaluate (binary op l r) s =
      bind_result (evaluate l s) λ a. bind_result (evaluate r s) λ b. eval_binary op a b

  -- typeOf(cond) == Bool, and the value of the condition
  abbrev pub as_condition : Value → Result Bool
  as_condition (Value.bool b) = ok b
  as_condition _ = err condition_not_bool

  unfoldable pub condition : Expr → Exec Bool
  condition e = do v ← gets (evaluate e); lift (as_condition v)

  -- tags.write(id, coerceToType(v, tags.typeOf(id)))
  unfoldable pub store_coerced : ℕ → Value → Exec (Unit {0})
  store_coerced id v = do t ← gets (tag_type id); w ← lift (coerce_to_type fpu v t); write id w

  unfoldable pub exec_assign : ℕ → Expr → Exec (Unit {0})
  exec_assign id e =
      if id == invalid_id then throw unresolved_target else (gets (evaluate e) >>= store_coerced id)

  -- The loop of a WHILE, with the number of rounds that are left before the last one.
  unfoldable pub while_loop : ℕ → Exec Bool → Exec (Unit {0}) → Exec (Unit {0})
  while_loop zero test body =
      test >>= elim [ true ↦ body >> throw too_many_iterations | false ↦ pure tt ]
  while_loop (suc left) test body =
      test >>= elim [ true ↦ body >> while_loop left test body | false ↦ pure tt ]

  unfoldable pub exec_rung_output : Bool → RungOutput → Exec (Unit {0})
  exec_rung_output powered out = elim out.kind [
    | RungOutputKind.direct ↦ write out.target_id (Value.bool powered)
    | RungOutputKind.set ↦ if powered then write out.target_id (Value.bool true) else pure tt
    | RungOutputKind.reset ↦ if powered then write out.target_id (Value.bool false) else pure tt
  ]

  unfoldable pub exec_rung_outputs : Bool → List RungOutput → Exec (Unit {0})
  exec_rung_outputs powered [] = pure tt
  exec_rung_outputs powered (out ∷ outs) =
      exec_rung_output powered out >> exec_rung_outputs powered outs

  unfoldable pub exec_rung : Expr → List RungOutput → Exec (Unit {0})
  exec_rung c outs = do powered ← condition c; exec_rung_outputs powered outs

  unfoldable pub reset_temps : List (ℕ × Value) → Exec (Unit {0})
  reset_temps [] = pure tt
  reset_temps ((id, v) ∷ rest) = write id v >> reset_temps rest

  unfoldable pub bind_inputs : List CallArg → Exec (Unit {0})
  bind_inputs [] = pure tt
  bind_inputs (input_arg name e id ∷ args) =
      (gets (evaluate e) >>= store_coerced id) >> bind_inputs args
  bind_inputs (output_arg _ _ _ _ ∷ args) = bind_inputs args

  unfoldable pub copy_outputs : List CallArg → Exec (Unit {0})
  copy_outputs [] = pure tt
  copy_outputs (input_arg _ _ _ ∷ args) = copy_outputs args
  copy_outputs (output_arg name target id target_id ∷ args) =
      (gets (read id) >>= store_coerced target_id) >> copy_outputs args

  module _ (frames : List Frame) where
    -- `run` executes the body of the called frame.
    unfoldable pub exec_call : (Block → Exec (Unit {0})) → List CallArg → ℕ → Exec (Unit {0})
    exec_call run args index =
        if (index == invalid_frame) || leb (length frames) index
        then throw unresolved_call
        else elim (get_elem? frames index) [
          | none ↦ throw unresolved_call
          | some frame ↦ do
            reset_temps frame.temp_resets
            bind_inputs args
            run frame.body
            copy_outputs args
        ]

    module _ (run : Block → Exec (Unit {0})) where
      unfoldable mutual
        pub exec_stmt : Stmt → Exec (Unit {0})
        exec_stmt (assign target id e) = exec_assign id e
        exec_stmt (if_stmt bs els) = exec_branches bs (exec_stmts els)
        exec_stmt (while_stmt c b) = while_loop max_iterations (condition c) (exec_stmts b)
        exec_stmt (call name args index) = exec_call run args index
        exec_stmt (rung c outs) = exec_rung c outs

        pub exec_stmts : Block → Exec (Unit {0})
        exec_stmts nil = pure tt
        exec_stmts (cons s b) = exec_stmt s >> exec_stmts b

        -- The branches of an IF in order, and then the ELSE.
        pub exec_branches : Branches → Exec (Unit {0}) → Exec (Unit {0})
        exec_branches no_branch els = els
        exec_branches (branch c b bs) els =
            condition c >>= elim [ true ↦ exec_stmts b | false ↦ exec_branches bs els ]

    -- execBlock with room for `depth` nested calls.
    unfoldable pub exec_block : ℕ → Block → Exec (Unit {0})
    exec_block zero b = throw out_of_fuel
    exec_block (suc depth) b = exec_stmts (exec_block depth) b
