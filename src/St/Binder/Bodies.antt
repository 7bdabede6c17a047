-- ===== src/St/Binder/Bodies.antt =====
-- A body that the binder copies calls earlier frames only, the frame made for it included (st/pou_binder.cpp).
use soft_plc.Base.{
  ℕ, ◌+◌, ◌<◌, ◌≡◌, inl, inr, sym, ◌∙◌, not, List, [], ◌∷◌, ◌++◌, arith, Str, Str-eq, All, length,
  length-append, get_elem?-snoc, Option-cases, circular, undeclared_callee, block_not_instance,
  missing_input,
}
use mathlib.Core.Path.{subst}
use soft_plc.Base.Assoc.{lookup}
use soft_plc.St.Ast.{
  CallArg, Stmt, assign, if_stmt, while_stmt, call, rung, Block, nil, cons, Branches, no_branch,
  branch, Frame, PouAst, clone_block,
}
use soft_plc.St.Interp.Depth.{CallsBelow, BlockBelow, BranchesBelow}
use soft_plc.St.Scope.{Scope, CallableInfo, Callables, Bind, ExpansionResult, no_decls, mentions}
use soft_plc.St.Binder.Below.{
  temp_resets-HasFuel, lookup-IsBelow, All-IsBelow_higher, CallsBelow-higher, BlockBelow-higher,
  BranchesBelow-higher,
}
use soft_plc.St.Binder.{
  expand_function, resolve_callee, bind_call, bind_stmt, bind_block, bind_branches, push_frame,
  expand_body,
}
use soft_plc.St.Binder.Rules.{
  IsBelow, Binds, Binds-bind, Binds-seq, Binds-pure, Binds-throw, Binds-lift, Binds-if,
  resolve_name-Binds,
}
use soft_plc.St.Binder.Frames.{bind_expr-Binds, bind_args-Binds, bind_rung_outputs-Binds}
use soft_plc.St.Binder.Copies.{
  Copied, Copies, Declared, is_expanding-Binds, expand_type-Binds, take_counter-Binds,
  declare_vars-Binds,
}

module _ (registry : List (Str × PouAst)) (expand : PouAst → Str → Bind ExpansionResult)
    (types : List Str) (copies : Copies registry expand types) where
  abbrev Callable : ℕ → CallableInfo → Type 0
  Callable n info = info.frame_index < n

  expand_function-Binds :
      (n : ℕ) (name : Str) → Binds types n Callable (expand_function registry expand name)
  unfolding expand_function
  expand_function-Binds n name = elim (Option-cases (lookup name registry)) [
    | inl e ↦ rw (e, expand_function) (Binds-throw types n Callable undeclared_callee (λ q. cc))
    | inr (pou, e) ↦
        rw (e, expand_function)
          (Binds-if types n Callable (not pou.is_function) _ _
            (λ _. Binds-throw types n Callable block_not_instance (λ q. cc))
            λ _.
              Binds-bind types n (λ k b. b ≡ mentions name types) Callable _ _
                (is_expanding-Binds registry expand types copies n name)
                λ k busy le same.
                  Binds-if types k Callable busy _ _
                    (λ _. Binds-throw types k Callable circular (λ q. cc))
                    λ idle.
                      Binds-seq types k Callable _ _
                        (take_counter-Binds registry expand types copies k)
                        λ k2 c le2.
                          Binds-bind types k2 Copied Callable _ _
                            (expand_type-Binds registry expand types copies k2 name _ pou
                              (sym same ∙ idle) e)
                            λ k3 r le3 lt. Binds-pure types k3 Callable _ λ k4 le4. omega arith)
  ]

  resolve_callee-Binds :
      (n : ℕ) (name : Str) (callables : Callables)
      → All (IsBelow n) callables
      → Binds types n Callable (resolve_callee registry expand name callables)
  unfolding resolve_callee
  resolve_callee-Binds n name callables below = elim (Option-cases (lookup name callables)) [
    | inr (info, e) ↦
        rw (e, resolve_callee)
          (Binds-pure types n Callable info
            λ k le. omega (arith, lookup-IsBelow n name callables e below))
    | inl e ↦
        rw (e, resolve_callee)
          (record {
            run = λ ctx o le q. elim (Option-cases (lookup name ctx.global_callables)) [
              | inr (info, p) ↦ rw p (
                o,
                le,
                q,
                lookup-IsBelow (length ctx.frames) name ctx.global_callables p o.globals,
              )
              | inl p ↦ rw p ((expand_function-Binds n name).run ctx o le q)
            ];
          })
  ]

  bind_call-Binds :
      (n : ℕ) (name : Str) (args : List CallArg) (scope : Scope) (callables : Callables)
      → All (IsBelow n) callables
      → Binds types n CallsBelow (bind_call registry expand name args scope callables)
  unfolding bind_call
  bind_call-Binds n name args scope callables below =
      Binds-bind types n Callable CallsBelow _ _ (resolve_callee-Binds n name callables below)
        λ k info le lt.
          Binds-seq types k CallsBelow _ _ (bind_args-Binds types k scope info args _)
            λ k2 (args', bound) le2.
              Binds-if types k2 CallsBelow _ _ _
                (λ _. Binds-throw types k2 CallsBelow missing_input (λ q. cc))
                λ _.
                  Binds-pure types k2 CallsBelow (call name args' info.frame_index)
                    λ k3 le3. omega arith

  mutual
    unfolding bind_stmt bind_block bind_branches

    bind_stmt-Binds :
        (n : ℕ) (scope : Scope) (callables : Callables) (s : Stmt)
        → All (IsBelow n) callables
        → Binds types n CallsBelow (bind_stmt registry expand scope callables s)
    bind_stmt-Binds n scope callables (assign target id e) below =
        Binds-seq types n CallsBelow _ _ (resolve_name-Binds types n target scope) λ k _ _.
          Binds-seq types k CallsBelow _ _ (bind_expr-Binds types k scope e)
            λ k2 _ _. Binds-pure types k2 CallsBelow _ λ k3 le3. tt
    bind_stmt-Binds n scope callables (if_stmt bs els) below =
        Binds-bind types n BranchesBelow CallsBelow _ _
          (bind_branches-Binds n scope callables bs below)
          λ k bs' le hb.
            Binds-bind types k BlockBelow CallsBelow _ _
              (bind_block-Binds k scope callables els (All-IsBelow_higher n k callables le below))
              λ k2 els' le2 he. Binds-pure types k2 CallsBelow _ λ k3 le3. (
                BranchesBelow-higher k k3 bs' (omega arith) hb,
                BlockBelow-higher k2 k3 els' le3 he,
              )
    bind_stmt-Binds n scope callables (while_stmt c b) below =
        Binds-seq types n CallsBelow _ _ (bind_expr-Binds types n scope c) λ k _ le.
          Binds-bind types k BlockBelow CallsBelow _ _
            (bind_block-Binds k scope callables b (All-IsBelow_higher n k callables le below))
            λ k2 b' le2 hb.
              Binds-pure types k2 CallsBelow _ λ k3 le3. BlockBelow-higher k2 k3 b' le3 hb
    bind_stmt-Binds n scope callables (call name args index) below =
        bind_call-Binds n name args scope callables below
    bind_stmt-Binds n scope callables (rung c outs) below =
        Binds-seq types n CallsBelow _ _ (bind_expr-Binds types n scope c) λ k _ _.
          Binds-seq types k CallsBelow _ _ (bind_rung_outputs-Binds types k scope outs)
            λ k2 _ _. Binds-pure types k2 CallsBelow _ λ k3 le3. tt

    pub bind_block-Binds :
        (n : ℕ) (scope : Scope) (callables : Callables) (b : Block)
        → All (IsBelow n) callables
        → Binds types n BlockBelow (bind_block registry expand scope callables b)
    bind_block-Binds n scope callables nil below = Binds-pure types n BlockBelow _ λ k le. tt
    bind_block-Binds n scope callables (cons s b) below =
        Binds-bind types n CallsBelow BlockBelow _ _ (bind_stmt-Binds n scope callables s below)
          λ k s' le hs.
            Binds-bind types k BlockBelow BlockBelow _ _
              (bind_block-Binds k scope callables b (All-IsBelow_higher n k callables le below))
              λ k2 b' le2 hb. Binds-pure types k2 BlockBelow _ λ k3 le3.
                (CallsBelow-higher k k3 s' (omega arith) hs, BlockBelow-higher k2 k3 b' le3 hb)

    bind_branches-Binds :
        (n : ℕ) (scope : Scope) (callables : Callables) (bs : Branches)
        → All (IsBelow n) callables
        → Binds types n BranchesBelow (bind_branches registry expand scope callables bs)
    bind_branches-Binds n scope callables no_branch below =
        Binds-pure types n BranchesBelow _ λ k le. tt
    bind_branches-Binds n scope callables (branch c b bs) below =
        Binds-seq types n BranchesBelow _ _ (bind_expr-Binds types n scope c) λ k _ le.
          Binds-bind types k BlockBelow BranchesBelow _ _
            (bind_block-Binds k scope callables b (All-IsBelow_higher n k callables le below))
            λ k2 b' le2 hb.
              Binds-bind types k2 BranchesBelow BranchesBelow _ _
                (bind_branches-Binds k2 scope callables bs
                  (All-IsBelow_higher n k2 callables (omega arith) below))
                λ k3 bs' le3 hbs. Binds-pure types k3 BranchesBelow _ λ k4 le4. (
                  BlockBelow-higher k2 k4 b' (omega arith) hb,
                  BranchesBelow-higher k3 k4 bs' le4 hbs,
                )

  push_frame-Binds :
      (n : ℕ) (f : Frame)
      → BlockBelow n f.body
      → Binds types n (λ k i. i < k) (push_frame registry expand f)
  push_frame-Binds n f below = record {
    run = λ ctx o le e.
        let one : length (ctx.frames ++ f ∷ []) ≡ length ctx.frames + 1 =
          length-append ctx.frames (f ∷ []) in
        (
          record {
            ordered = λ i g p. elim (get_elem?-snoc ctx.frames f g i p) [
              | inl old ↦ o.ordered i g old
              | inr (at, same) ↦
                  subst (λ (x : Frame). BlockBelow i x.body) same
                    (BlockBelow-higher n i f.body (omega arith) below)
            ];
            globals =
                All-IsBelow_higher (length ctx.frames) (length (ctx.frames ++ f ∷ []))
                  ctx.global_callables (omega arith) o.globals;
          },
          omega arith,
          e,
          omega arith,
        );
  }

  pub expand_body-Binds :
      (n : ℕ) (pou : PouAst) (prefix : Str)
      → Binds types n Copied (expand_body registry expand pou prefix)
  unfolding expand_body
  expand_body-Binds n pou prefix =
      Binds-bind types n Declared Copied _ _
        (declare_vars-Binds registry expand types copies n pou.var_decls prefix no_decls tt)
        λ k decls le below.
          Binds-bind types k BlockBelow Copied _ _
            (bind_block-Binds k decls.local_scope decls.instance_callables (clone_block pou.body)
              below)
            λ k2 body le2 hb.
              Binds-seq types k2 Copied _ _
                (Binds-lift types k2 _ (temp_resets-HasFuel pou decls.local_scope pou.var_decls))
                λ k3 resets le3.
                  Binds-bind types k3 (λ k i. i < k) Copied _ _
                    (push_frame-Binds k3 _ (BlockBelow-higher k2 k3 body le3 hb))
                    λ k4 index le4 lt. Binds-pure types k4 Copied _ λ k5 le5. omega arith
