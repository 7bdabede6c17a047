-- ===== src/St/Interp/Typed.antt =====
-- The types of the tags while the interpreter runs (st/interpreter.cpp).
use mathlib.Core.Path.{subst}
use soft_plc.Base.{
  ℕ, zero, suc, ◌≡◌, refl, Bool, true, false, Option, none, some, List, [], ◌∷◌, Result, ok, err,
  All, All-get_elem?, get_elem?, length, if◌then◌else◌, Option-cases, inl, inr, some_inj, sym, ◌∙◌,
  too_many_iterations, unresolved_target, unresolved_call, out_of_fuel, ◌==◌, leb, ◌||◌,
}
use soft_plc.Tags.Value.{TypeId, Value, InRange}
use soft_plc.Tags.Store.{TagStore, read, write, tag_type, invalid_id}
use soft_plc.Tags.Store.Valid.{tag_type-some, tag_type-none}
use soft_plc.St.Fpu.{Fpu, FpuLaws}
use soft_plc.St.Ops.{coerce_to_type}
use soft_plc.St.Ops.Types.{Returns, HasType, coerce_to_type-HasType}
use soft_plc.St.Ast.{
  Expr, CallArg, input_arg, output_arg, RungOutputKind, RungOutput, Stmt, assign, if_stmt,
  while_stmt, call, rung, Block, nil, cons, Branches, no_branch, branch, Frame, invalid_frame,
}
use soft_plc.St.Exec.{Exec, ◌>>=◌, ◌>>◌, pure, throw, gets, lift}
use soft_plc.St.Interp.{
  evaluate, as_condition, condition, store_coerced, exec_assign, while_loop, exec_rung_output,
  exec_rung_outputs, exec_rung, reset_temps, bind_inputs, copy_outputs, exec_call, exec_stmt,
  exec_stmts, exec_branches, exec_block, max_iterations,
}
use soft_plc.St.Interp.Eval.{LiteralsOk, evaluate-InRange, read-InRange}
use soft_plc.St.Interp.Keeps.{
  IsTyped, types_of-get_elem?, Keeps, Keeps-bind, Keeps-pure, Keeps-throw, Keeps-seq, Keeps-if,
  write-Keeps, Keeps-branch, Any,
}

module _ (types : List TypeId) where
  -- What the interpreter relies on of a bound program: coils are BOOL tags, the values of literals
  -- and resets have their types.
  abbrev pub OutputOk : RungOutput → Type 0
  OutputOk o = (t : TypeId) → get_elem? types o.target_id ≡ some t → t ≡ TypeId.bool

  abbrev pub ArgOk : CallArg → Type 0
  ArgOk (input_arg name e id) = LiteralsOk e
  ArgOk (output_arg name target id tid) = Unit

  abbrev pub ResetOk : ℕ × Value → Type 0
  ResetOk (id, v) = (t : TypeId) → get_elem? types id ≡ some t → HasType t v

  abbrev mutual
    pub StmtOk : Stmt → Type 0
    StmtOk (assign target id e) = LiteralsOk e
    StmtOk (if_stmt bs els) = BranchesOk bs × BlockOk els
    StmtOk (while_stmt c b) = LiteralsOk c × BlockOk b
    StmtOk (call name args index) = All ArgOk args
    StmtOk (rung c outs) = LiteralsOk c × All OutputOk outs

    pub BlockOk : Block → Type 0
    BlockOk nil = Unit
    BlockOk (cons s b) = StmtOk s × BlockOk b

    pub BranchesOk : Branches → Type 0
    BranchesOk no_branch = Unit
    BranchesOk (branch c b bs) = LiteralsOk c × BlockOk b × BranchesOk bs

  pub record FrameOk (f : Frame) : Type 0 where
    pub body_ok : BlockOk f.body
    pub resets_ok : All ResetOk f.temp_resets

  module _ (fpu : Fpu) (laws : FpuLaws fpu) where
    evaluate-Keeps : (e : Expr) → LiteralsOk e → Keeps types InRange (gets (evaluate fpu e))
    evaluate-Keeps e l s h = (evaluate-InRange fpu laws e s l h.values, h)

    read-Keeps : (id : ℕ) → Keeps types InRange (gets (read id))
    read-Keeps id s h = (read-InRange fpu laws id s h.values, h)

    condition-Keeps : (e : Expr) → LiteralsOk e → Keeps types Any (condition fpu e)
    unfolding condition
    condition-Keeps e l =
        Keeps-bind types InRange Any (gets (evaluate fpu e)) _ (evaluate-Keeps e l)
          λ v _ s h. (any (as_condition fpu v), h)
      where
        any : (r : Result Bool) → Returns Any r
        any (ok b) = tt
        any (err e) = tt

    tag_type-Keeps : (id : ℕ) → Keeps types (λ t. get_elem? types id ≡ some t) (gets (tag_type id))
    tag_type-Keeps id s h = elim (Option-cases (get_elem? s.tags id)) [
      | inl p ↦ rw (tag_type-none id s p) (tt, h)
      | inr (t, p) ↦ rw (tag_type-some id s p) (rw h.typed at (types_of-get_elem? s.tags id p), h)
    ]

    -- A coerced store writes a value of the target's type.
    store_coerced-Keeps :
        (id : ℕ) (v : Value) → InRange v → Keeps types Any (store_coerced fpu id v)
    unfolding store_coerced
    store_coerced-Keeps id v r =
        Keeps-bind types (λ t. get_elem? types id ≡ some t) Any (gets (tag_type id)) _
          (tag_type-Keeps id)
          λ t p.
            Keeps-bind types (HasType t) Any (lift (coerce_to_type fpu v t)) _
              (λ s h. (coerce_to_type-HasType fpu laws v t r, h))
              λ w hw.
                write-Keeps types id w λ u q. subst (λ u. HasType u w) (some_inj (sym p ∙ q)) hw

    assigned-Keeps :
        (id : ℕ) (e : Expr)
        → LiteralsOk e
        → Keeps types Any (gets (evaluate fpu e) >>= store_coerced fpu id)
    assigned-Keeps id e l =
        Keeps-bind types InRange Any (gets (evaluate fpu e)) _ (evaluate-Keeps e l)
          (store_coerced-Keeps id)

    copied-Keeps : (id target : ℕ) → Keeps types Any (gets (read id) >>= store_coerced fpu target)
    copied-Keeps id target =
        Keeps-bind types InRange Any (gets (read id)) _ (read-Keeps id) (store_coerced-Keeps target)

    exec_assign-Keeps : (id : ℕ) (e : Expr) → LiteralsOk e → Keeps types Any (exec_assign fpu id e)
    unfolding exec_assign
    exec_assign-Keeps id e l =
        Keeps-if types (id == invalid_id) _ _ (Keeps-throw types (Unit {0}) unresolved_target)
          (assigned-Keeps id e l)

    while_loop-Keeps :
        (left : ℕ) (test : Exec Bool) (body : Exec (Unit {0}))
        → Keeps types Any test
        → Keeps types Any body
        → Keeps types Any (while_loop fpu left test body)
    unfolding while_loop
    while_loop-Keeps zero test body ht hb =
        Keeps-branch types test _ _ ht
          (Keeps-seq types body (throw too_many_iterations) hb
            (Keeps-throw types (Unit {0}) too_many_iterations))
          (Keeps-pure types tt)
    while_loop-Keeps (suc left) test body ht hb =
        Keeps-branch types test _ _ ht
          (Keeps-seq types body (while_loop fpu left test body) hb
            (while_loop-Keeps left test body ht hb))
          (Keeps-pure types tt)

    coil-Keeps :
        (o : RungOutput) (b : Bool)
        → OutputOk o
        → Keeps types Any (write o.target_id (Value.bool b))
    coil-Keeps o b h = write-Keeps types o.target_id (Value.bool b) λ t p. (sym (h t p), tt)

    exec_rung_output-Keeps :
        (powered : Bool) (o : RungOutput)
        → OutputOk o
        → Keeps types Any (exec_rung_output fpu powered o)
    unfolding exec_rung_output
    exec_rung_output-Keeps powered o h = by_kind o.kind
      where
        by_kind :
            (k : RungOutputKind)
            → Keeps types Any (elim k [
              | RungOutputKind.direct ↦ write o.target_id (Value.bool powered)
              | RungOutputKind.set ↦
                  if powered then write o.target_id (Value.bool true) else pure tt
              | RungOutputKind.reset ↦
                  if powered then write o.target_id (Value.bool false) else pure tt
            ])
        by_kind RungOutputKind.direct = coil-Keeps o powered h
        by_kind RungOutputKind.set =
            Keeps-if types powered _ _ (coil-Keeps o true h) (Keeps-pure types tt)
        by_kind RungOutputKind.reset =
            Keeps-if types powered _ _ (coil-Keeps o false h) (Keeps-pure types tt)

    exec_rung_outputs-Keeps :
        (powered : Bool) (outs : List RungOutput)
        → All OutputOk outs
        → Keeps types Any (exec_rung_outputs fpu powered outs)
    unfolding exec_rung_outputs
    exec_rung_outputs-Keeps powered [] h = Keeps-pure types tt
    exec_rung_outputs-Keeps powered (o ∷ outs) h =
        Keeps-seq types _ _ (exec_rung_output-Keeps powered o h.0)
          (exec_rung_outputs-Keeps powered outs h.1)

    reset_temps-Keeps :
        (rs : List (ℕ × Value)) → All ResetOk rs → Keeps types Any (reset_temps fpu rs)
    unfolding reset_temps
    reset_temps-Keeps [] h = Keeps-pure types tt
    reset_temps-Keeps ((id, v) ∷ rs) h =
        Keeps-seq types _ _ (write-Keeps types id v h.0) (reset_temps-Keeps rs h.1)

    bind_inputs-Keeps :
        (args : List CallArg) → All ArgOk args → Keeps types Any (bind_inputs fpu args)
    unfolding bind_inputs
    bind_inputs-Keeps [] h = Keeps-pure types tt
    bind_inputs-Keeps (input_arg name e id ∷ args) h =
        Keeps-seq types _ _ (assigned-Keeps id e h.0) (bind_inputs-Keeps args h.1)
    bind_inputs-Keeps (output_arg name target id tid ∷ args) h = bind_inputs-Keeps args h.1

    copy_outputs-Keeps : (args : List CallArg) → Keeps types Any (copy_outputs fpu args)
    unfolding copy_outputs
    copy_outputs-Keeps [] = Keeps-pure types tt
    copy_outputs-Keeps (input_arg name e id ∷ args) = copy_outputs-Keeps args
    copy_outputs-Keeps (output_arg name target id tid ∷ args) =
        Keeps-seq types _ _ (copied-Keeps id tid) (copy_outputs-Keeps args)

    module _ (frames : List Frame) (frames_ok : All FrameOk frames) where
      exec_call-Keeps :
          (run : Block → Exec (Unit {0})) (args : List CallArg) (index : ℕ)
          → ((b : Block) → BlockOk b → Keeps types Any (run b))
          → All ArgOk args
          → Keeps types Any (exec_call fpu frames run args index)
      unfolding exec_call
      exec_call-Keeps run args index hr ha =
          Keeps-if types ((index == invalid_frame) || leb (length frames) index) _ _
            (Keeps-throw types (Unit {0}) unresolved_call) (called (get_elem? frames index) refl)
        where
          called :
              (f : Option Frame)
              → get_elem? frames index ≡ f
              → Keeps types {A = Unit {0}} Any (elim f [
                | none ↦ throw unresolved_call
                | some frame ↦ do
                  reset_temps fpu frame.temp_resets
                  bind_inputs fpu args
                  run frame.body
                  copy_outputs fpu args
              ])
          called none p = Keeps-throw types (Unit {0}) unresolved_call
          called (some frame) p =
              let ok_frame = All-get_elem? FrameOk frames index frames_ok p in
              Keeps-seq types _ _ (reset_temps-Keeps frame.temp_resets ok_frame.resets_ok) (
                Keeps-seq types _ _ (bind_inputs-Keeps args ha)
                  (Keeps-seq types _ _ (hr frame.body ok_frame.body_ok) (copy_outputs-Keeps args)))

      module _ (run : Block → Exec (Unit {0}))
          (hr : (b : Block) → BlockOk b → Keeps types Any (run b)) where
        mutual
          unfolding exec_stmt exec_rung

          exec_stmt-Keeps : (st : Stmt) → StmtOk st → Keeps types Any (exec_stmt fpu frames run st)
          exec_stmt-Keeps (assign target id e) h = exec_assign-Keeps id e h
          exec_stmt-Keeps (if_stmt bs els) h =
              exec_branches-Keeps bs (exec_stmts fpu frames run els) h.0 (exec_stmts-Keeps els h.1)
          exec_stmt-Keeps (while_stmt c b) h =
              while_loop-Keeps max_iterations _ _ (condition-Keeps c h.0) (exec_stmts-Keeps b h.1)
          exec_stmt-Keeps (call name args index) h = exec_call-Keeps run args index hr h
          exec_stmt-Keeps (rung c outs) h =
              Keeps-bind types Any Any (condition fpu c) _ (condition-Keeps c h.0)
                λ powered _. exec_rung_outputs-Keeps powered outs h.1

          exec_stmts-Keeps : (b : Block) → BlockOk b → Keeps types Any (exec_stmts fpu frames run b)
          exec_stmts-Keeps nil h = Keeps-pure types tt
          exec_stmts-Keeps (cons st b) h =
              Keeps-seq types _ _ (exec_stmt-Keeps st h.0) (exec_stmts-Keeps b h.1)

          exec_branches-Keeps :
              (bs : Branches) (els : Exec (Unit {0}))
              → BranchesOk bs
              → Keeps types Any els
              → Keeps types Any (exec_branches fpu frames run bs els)
          exec_branches-Keeps no_branch els h he = he
          exec_branches-Keeps (branch c b bs) els h he =
              Keeps-branch types (condition fpu c) _ _ (condition-Keeps c h.0)
                (exec_stmts-Keeps b h.1) (exec_branches-Keeps bs els h.2 he)

      -- In a valid store whose tags hold values of their declared types, running a block keeps this so,
      -- and keeps every tag's type, whether the block ends normally or throws, if the literals and resets
      -- of the block and the frames are in the ranges of their types and the coils are BOOL tags.
      pub exec_block-IsTyped :
          (depth : ℕ) (b : Block) (s : TagStore)
          → BlockOk b
          → IsTyped types s
          → IsTyped types (exec_block fpu frames depth b s).1
      unfolding exec_block
      exec_block-IsTyped depth b s hb h = (run-Keeps depth b hb s h).1
        where
          run-Keeps :
              (depth : ℕ) (b : Block) → BlockOk b → Keeps types Any (exec_block fpu frames depth b)
          run-Keeps zero b hb = Keeps-throw types (Unit {0}) out_of_fuel
          run-Keeps (suc depth) b hb =
              exec_stmts-Keeps (exec_block fpu frames depth) (run-Keeps depth) b hb
