-- ===== src/St/Interp/Depth.antt =====
-- The depth of calls between frames (execCall of st/interpreter.cpp).
use soft_plc.Base.{
  ℕ, zero, suc, ◌<◌, ◌≡◌, ◌≢◌, refl, Bool, true, false, Option, none, some, List, [], ◌∷◌, Result,
  ok, err, out_of_fuel, get_elem?, length, if◌then◌else◌, ◌==◌, leb, ◌||◌, arith, unresolved_call,
  too_many_iterations,
}
use soft_plc.Tags.Value.{Value}
use soft_plc.Tags.Store.{TagStore, read, write, tag_type, invalid_id}
use soft_plc.St.Fpu.{Fpu}
use soft_plc.St.Ops.{coerce_to_type}
use soft_plc.St.Ast.{
  Expr, CallArg, input_arg, output_arg, RungOutputKind, RungOutput, Stmt, assign, if_stmt,
  while_stmt, call, rung, Block, nil, cons, Branches, no_branch, branch, Frame, invalid_frame,
}
use soft_plc.St.Exec.{Exec, ◌>>=◌, ◌>>◌, pure, throw, gets, lift}
use soft_plc.St.Interp.{
  evaluate, condition, store_coerced, exec_assign, while_loop, exec_rung_output, exec_rung_outputs,
  exec_rung, reset_temps, bind_inputs, copy_outputs, exec_call, exec_stmt, exec_stmts,
  exec_branches, exec_block, max_iterations,
}
use soft_plc.St.Interp.Fuel.{
  HasFuel, evaluate-HasFuel, as_condition-HasFuel, coerce_to_type-HasFuel, read-HasFuel,
  tag_type-HasFuel, write-HasFuel,
}

-- Every call in the code is of a frame with an index below `n`.
abbrev mutual
  pub CallsBelow : ℕ → Stmt → Type 0
  CallsBelow n (assign target id e) = Unit
  CallsBelow n (if_stmt bs els) = BranchesBelow n bs × BlockBelow n els
  CallsBelow n (while_stmt c b) = BlockBelow n b
  CallsBelow n (call name args index) = index < n
  CallsBelow n (rung c outs) = Unit

  pub BlockBelow : ℕ → Block → Type 0
  BlockBelow n nil = Unit
  BlockBelow n (cons s b) = CallsBelow n s × BlockBelow n b

  pub BranchesBelow : ℕ → Branches → Type 0
  BranchesBelow n no_branch = Unit
  BranchesBelow n (branch c b bs) = BlockBelow n b × BranchesBelow n bs

-- Each frame calls only frames before it.
abbrev pub AreOrdered : List Frame → Type 0
AreOrdered frames = (i : ℕ) (f : Frame) → get_elem? frames i ≡ some f → BlockBelow i f.body

abbrev pub Ends : {A : Type 0} → Exec A → Type 0
Ends m = (s : TagStore) → HasFuel (m s).0

pub Ends-bind :
    {A B : Type 0} (m : Exec A) (f : A → Exec B) → Ends m → ((a : A) → Ends (f a)) → Ends (m >>= f)
Ends-bind {A} {B} m f hm hf s = after (m s).0 (m s).1 (hm s)
  where
    after :
        (r : Result A) (s' : TagStore)
        → HasFuel r
        → let x : Result B × TagStore = elim r [ ok a ↦ f a s' | err e ↦ (err e, s') ] in
          HasFuel x.0
    after (ok a) s' h = hf a s'
    after (err e) s' h = λ q. h (cc q)

Ends-pure : Ends (pure tt)
Ends-pure s = λ q. cc

Ends-seq : (m k : Exec (Unit {0})) → Ends m → Ends k → Ends (m >> k)
Ends-seq m k hm hk = Ends-bind m (λ _. k) hm (λ _. hk)

Ends-if : (b : Bool) (m k : Exec (Unit {0})) → Ends m → Ends k → Ends (if b then m else k)
Ends-if true m k hm hk = hm
Ends-if false m k hm hk = hk

Ends-branch :
    (test : Exec Bool) (m k : Exec (Unit {0}))
    → Ends test
    → Ends m
    → Ends k
    → Ends (test >>= elim [ true ↦ m | false ↦ k ])
Ends-branch test m k ht hm hk =
    Ends-bind test (elim [ true ↦ m | false ↦ k ]) ht (elim [ true ↦ hm | false ↦ hk ])

module _ (fpu : Fpu) where
  condition-Ends : (e : Expr) → Ends (condition fpu e)
  unfolding condition
  condition-Ends e =
      Ends-bind (gets (evaluate fpu e)) _ (evaluate-HasFuel fpu e) λ v s. as_condition-HasFuel fpu v

  store_coerced-Ends : (id : ℕ) (v : Value) → Ends (store_coerced fpu id v)
  unfolding store_coerced
  store_coerced-Ends id v = Ends-bind (gets (tag_type id)) _ (tag_type-HasFuel id) λ t.
      Ends-bind (lift (coerce_to_type fpu v t)) _ (λ s. coerce_to_type-HasFuel fpu v t)
        λ w. write-HasFuel id w

  assigned-Ends : (id : ℕ) (e : Expr) → Ends (gets (evaluate fpu e) >>= store_coerced fpu id)
  assigned-Ends id e =
      Ends-bind (gets (evaluate fpu e)) _ (evaluate-HasFuel fpu e) (store_coerced-Ends id)

  exec_assign-Ends : (id : ℕ) (e : Expr) → Ends (exec_assign fpu id e)
  unfolding exec_assign
  exec_assign-Ends id e = Ends-if (id == invalid_id) _ _ (λ s q. cc) (assigned-Ends id e)

  while_loop-Ends :
      (left : ℕ) (test : Exec Bool) (body : Exec (Unit {0}))
      → Ends test
      → Ends body
      → Ends (while_loop fpu left test body)
  unfolding while_loop
  while_loop-Ends zero test body ht hb =
      Ends-branch test _ _ ht (Ends-seq body (throw too_many_iterations) hb (λ s q. cc)) Ends-pure
  while_loop-Ends (suc left) test body ht hb =
      Ends-branch test _ _ ht
        (Ends-seq body (while_loop fpu left test body) hb (while_loop-Ends left test body ht hb))
        Ends-pure

  exec_rung_output-Ends : (powered : Bool) (o : RungOutput) → Ends (exec_rung_output fpu powered o)
  unfolding exec_rung_output
  exec_rung_output-Ends powered o = by_kind o.kind
    where
      coil : (b : Bool) → Ends (write o.target_id (Value.bool b))
      coil b = write-HasFuel o.target_id (Value.bool b)

      by_kind :
          (k : RungOutputKind)
          → Ends {A = Unit {0}} (elim k [
            | RungOutputKind.direct ↦ write o.target_id (Value.bool powered)
            | RungOutputKind.set ↦ if powered then write o.target_id (Value.bool true) else pure tt
            | RungOutputKind.reset ↦
                if powered then write o.target_id (Value.bool false) else pure tt
          ])
      by_kind RungOutputKind.direct = coil powered
      by_kind RungOutputKind.set = Ends-if powered _ _ (coil true) Ends-pure
      by_kind RungOutputKind.reset = Ends-if powered _ _ (coil false) Ends-pure

  exec_rung_outputs-Ends :
      (powered : Bool) (outs : List RungOutput) → Ends (exec_rung_outputs fpu powered outs)
  unfolding exec_rung_outputs
  exec_rung_outputs-Ends powered [] = Ends-pure
  exec_rung_outputs-Ends powered (o ∷ outs) =
      Ends-seq _ (exec_rung_outputs fpu powered outs) (exec_rung_output-Ends powered o)
        (exec_rung_outputs-Ends powered outs)

  reset_temps-Ends : (rs : List (ℕ × Value)) → Ends (reset_temps fpu rs)
  unfolding reset_temps
  reset_temps-Ends [] = Ends-pure
  reset_temps-Ends ((id, v) ∷ rs) =
      Ends-seq (write id v) (reset_temps fpu rs) (write-HasFuel id v) (reset_temps-Ends rs)

  bind_inputs-Ends : (args : List CallArg) → Ends (bind_inputs fpu args)
  unfolding bind_inputs
  bind_inputs-Ends [] = Ends-pure
  bind_inputs-Ends (input_arg name e id ∷ args) =
      Ends-seq _ (bind_inputs fpu args) (assigned-Ends id e) (bind_inputs-Ends args)
  bind_inputs-Ends (output_arg name target id tid ∷ args) = bind_inputs-Ends args

  copy_outputs-Ends : (args : List CallArg) → Ends (copy_outputs fpu args)
  unfolding copy_outputs
  copy_outputs-Ends [] = Ends-pure
  copy_outputs-Ends (input_arg name e id ∷ args) = copy_outputs-Ends args
  copy_outputs-Ends (output_arg name target id tid ∷ args) =
      Ends-seq _ (copy_outputs fpu args)
        (Ends-bind (gets (read id)) _ (read-HasFuel id) (store_coerced-Ends tid))
        (copy_outputs-Ends args)

  module _ (frames : List Frame) (ordered : AreOrdered frames) (n : ℕ)
      (run : Block → Exec (Unit {0}))
      (hr : (i : ℕ) (b : Block) → i < n → BlockBelow i b → Ends (run b)) where
    exec_call-Ends :
        (args : List CallArg) (index : ℕ) → index < n → Ends (exec_call fpu frames run args index)
    unfolding exec_call
    exec_call-Ends args index lt =
        Ends-if ((index == invalid_frame) || leb (length frames) index) _ _ (λ s q. cc)
          (called (get_elem? frames index) refl)
      where
        called :
            (f : Option Frame)
            → get_elem? frames index ≡ f
            → Ends {A = Unit {0}} (elim f [
              | none ↦ throw unresolved_call
              | some frame ↦ do
                reset_temps fpu frame.temp_resets
                bind_inputs fpu args
                run frame.body
                copy_outputs fpu args
            ])
        called none p = λ s q. cc
        called (some frame) p =
            Ends-seq _ (bind_inputs fpu args >> (run frame.body >> copy_outputs fpu args))
              (reset_temps-Ends frame.temp_resets)
              (Ends-seq _ (run frame.body >> copy_outputs fpu args) (bind_inputs-Ends args) (
                Ends-seq _ (copy_outputs fpu args) (hr index frame.body lt (ordered index frame p))
                  (copy_outputs-Ends args)))

    mutual
      unfolding exec_stmt exec_rung

      exec_stmt-Ends : (st : Stmt) → CallsBelow n st → Ends (exec_stmt fpu frames run st)
      exec_stmt-Ends (assign target id e) h = exec_assign-Ends id e
      exec_stmt-Ends (if_stmt bs els) h =
          exec_branches-Ends bs (exec_stmts fpu frames run els) h.0 (exec_stmts-Ends els h.1)
      exec_stmt-Ends (while_stmt c b) h =
          while_loop-Ends max_iterations _ _ (condition-Ends c) (exec_stmts-Ends b h)
      exec_stmt-Ends (call name args index) h = exec_call-Ends args index h
      exec_stmt-Ends (rung c outs) h =
          Ends-bind (condition fpu c) (λ powered. exec_rung_outputs fpu powered outs)
            (condition-Ends c) (λ powered. exec_rung_outputs-Ends powered outs)

      exec_stmts-Ends : (b : Block) → BlockBelow n b → Ends (exec_stmts fpu frames run b)
      exec_stmts-Ends nil h = Ends-pure
      exec_stmts-Ends (cons st b) h =
          Ends-seq _ (exec_stmts fpu frames run b) (exec_stmt-Ends st h.0) (exec_stmts-Ends b h.1)

      exec_branches-Ends :
          (bs : Branches) (els : Exec (Unit {0}))
          → BranchesBelow n bs
          → Ends els
          → Ends (exec_branches fpu frames run bs els)
      exec_branches-Ends no_branch els h he = he
      exec_branches-Ends (branch c b bs) els h he =
          Ends-branch (condition fpu c) _ _ (condition-Ends c) (exec_stmts-Ends b h.0)
            (exec_branches-Ends bs els h.1 he)

  -- The interpreter ends within its bounds on every program whose frames are ordered: with a depth
  -- above the frames that a block calls, running the block never asks for more depth.
  pub exec_block-ne-out_of_fuel :
      (frames : List Frame) (n depth : ℕ) (b : Block) (s : TagStore)
      → AreOrdered frames
      → BlockBelow n b
      → n < depth
      → (exec_block fpu frames depth b s).0 ≢ err out_of_fuel
  unfolding exec_block
  exec_block-ne-out_of_fuel frames n depth b s ordered hb lt = ends n depth b hb lt s
    where
      ends :
          (n depth : ℕ) (b : Block)
          → BlockBelow n b
          → n < depth
          → Ends (exec_block fpu frames depth b)
      ends n zero b hb lt = absurd (omega arith)
      ends n (suc depth) b hb lt =
          exec_stmts-Ends frames ordered n (exec_block fpu frames depth)
            (λ i c i_lt hc. ends i depth c hc (omega arith)) b hb
