-- ===== src/St/Binder/Copies.antt =====
-- The binder with any way to copy a block that keeps the frames in order (st/pou_binder.cpp).
use soft_plc.Base.{
  ℕ, ◌<◌, ◌≡◌, inl, inr, sym, ◌∙◌, ap, Bool, true, false, some, List, [], ◌∷◌, arith, Str, Str-eq,
  Result, ok, err, All, length, if◌then◌else◌, Option-cases, undeclared_type, circular,
  untyped_declaration,
}
use soft_plc.Base.Assoc.{lookup, insert}
use soft_plc.St.Ast.{VarDecl, PouAst}
use soft_plc.St.Exec.{gets}
use soft_plc.St.Scope.{
  CallableInfo, BinderContext, Bind, ◌>>=◌, ExpansionResult, DeclResult, modify, mentions, is_empty,
  tag_name, initial, pop,
}
use soft_plc.St.Binder.Below.{declare-HasFuel, All-IsBelow-insert, All-IsBelow_higher}
use soft_plc.St.Binder.{
  expand_type, is_expanding, declare_instance, declare_var, declare_vars, take_counter,
}
use soft_plc.St.Binder.Rules.{
  IsBelow, Outcome, Binds, Always, Binds-bind, Binds-seq, Binds-pure, Binds-throw, Binds-if,
  on_tags-Binds,
}

abbrev pub Copied : ℕ → ExpansionResult → Type 0
Copied n r = r.frame_index_of_self < n

-- A way to copy a block keeps the frames in order, while these types expand.
abbrev pub Copies : List (Str × PouAst) → (PouAst → Str → Bind ExpansionResult) → List Str → Type 0
Copies registry expand types =
    (type prefix : Str) (pou : PouAst) (n : ℕ)
    → mentions type types ≡ false
    → lookup type registry ≡ some pou
    → Binds (type ∷ types) n Copied (expand pou prefix)

abbrev pub Declared : ℕ → DeclResult → Type 0
Declared n d = All (IsBelow n) d.instance_callables

module _ (registry : List (Str × PouAst)) (expand : PouAst → Str → Bind ExpansionResult)
    (types : List Str) (copies : Copies registry expand types) where
  pub is_expanding-Binds :
      (n : ℕ) (type : Str)
      → Binds types n (λ k b. b ≡ mentions type types) (gets (is_expanding registry expand type))
  is_expanding-Binds n type = record { run = λ ctx o le e. (o, le, e, ap (mentions type) e) }

  pub expand_type-Binds :
      (n : ℕ) (type prefix : Str) (pou : PouAst)
      → mentions type types ≡ false
      → lookup type registry ≡ some pou
      → Binds types n Copied (expand_type registry expand type pou prefix)
  unfolding expand_type ◌>>=◌
  expand_type-Binds n type prefix pou fresh e = record {
    run = λ ctx o le q.
        let pushed : BinderContext = record ctx { expanding_types = type ∷ ctx.expanding_types } in
        let x : Result ExpansionResult × BinderContext = expand pou prefix pushed in
        popped x.0 x.1 (
          (copies type prefix pou n fresh e).run pushed
            (record { ordered = o.ordered; globals = o.globals }) le (ap (◌∷◌ type) q));
  }
    where
      popped :
          (r : Result ExpansionResult) (c : BinderContext)
          → Outcome (type ∷ types) n Copied (r, c)
          → let x : Result ExpansionResult × BinderContext = elim r [
            | ok a ↦ (ok a, record c { expanding_types = pop c.expanding_types })
            | err z ↦ (err z, c)
          ] in
            Outcome types n Copied x
      popped (ok a) c (o, le, q, p) =
          (record { ordered = o.ordered; globals = o.globals }, le, ap pop q, p)
      popped (err z) c h = h

  pub take_counter-Binds : (n : ℕ) → Binds types n Always (take_counter registry expand)
  take_counter-Binds n = record {
    run = λ ctx o le e. (record { ordered = o.ordered; globals = o.globals }, le, e, tt);
  }

  enter_global-Binds :
      (n : ℕ) (here : Bool) (name : Str) (info : CallableInfo)
      → info.frame_index < n
      → Binds types n Always (
          modify (λ ctx.
            if here
            then record ctx { global_callables = insert name info ctx.global_callables }
            else ctx))
  enter_global-Binds n true name info lt = record {
    run = λ ctx o le e. (
      record {
        ordered = o.ordered;
        globals =
            All-IsBelow-insert (length ctx.frames) name info ctx.global_callables (omega arith)
              o.globals;
      },
      le,
      e,
      tt,
    );
  }
  enter_global-Binds n false name info lt = record { run = λ ctx o le e. (o, le, e, tt) }

  declare_instance-Binds :
      (n : ℕ) (decl : VarDecl) (type prefix : Str) (acc : DeclResult)
      → Declared n acc
      → Binds types n Declared (declare_instance registry expand decl type prefix acc)
  unfolding declare_instance
  declare_instance-Binds n decl type prefix acc below = elim (Option-cases (lookup type registry)) [
    | inl e ↦ rw (e, declare_instance) (Binds-throw types n Declared undeclared_type (λ q. cc))
    | inr (pou, e) ↦
        rw (e, declare_instance)
          (Binds-bind types n (λ k b. b ≡ mentions type types) Declared _ _
            (is_expanding-Binds n type)
            λ k busy le same.
              Binds-if types k Declared busy _ _
                (λ _. Binds-throw types k Declared circular (λ q. cc))
                λ idle.
                  Binds-bind types k Copied Declared _ _
                    (expand_type-Binds k type (tag_name prefix decl.name) pou (sym same ∙ idle) e)
                    λ k2 nested le2 lt.
                      Binds-seq types k2 Declared _ _
                        (enter_global-Binds k2 (is_empty prefix) decl.name _ lt)
                        λ k3 _ le3. Binds-pure types k3 Declared _ λ k4 le4.
                          All-IsBelow-insert k4 decl.name _ acc.instance_callables (omega arith)
                            (All-IsBelow_higher n k4 acc.instance_callables (omega arith) below))
  ]

  declare_var-Binds :
      (n : ℕ) (decl : VarDecl) (prefix : Str) (acc : DeclResult)
      → Declared n acc
      → Binds types n Declared (declare_var registry expand decl prefix acc)
  unfolding declare_var declare_instance
  declare_var-Binds n decl prefix acc below = elim (Option-cases decl.elementary_type) [
    | inr (t, e) ↦ rw e (
        Binds-seq types n Declared _ _
          (on_tags-Binds types n _
            (declare-HasFuel (tag_name prefix decl.name) t (initial decl t) decl.address))
          λ k id le.
            Binds-pure types k Declared _
              λ k2 le2. All-IsBelow_higher n k2 acc.instance_callables (omega arith) below)
    | inl e ↦ rw e (elim (Option-cases decl.instance_of_type) [
      | inr (type, q) ↦ rw q (declare_instance-Binds n decl type prefix acc below)
      | inl q ↦ rw q (Binds-throw types n Declared untyped_declaration (λ z. cc))
    ])
  ]

  pub declare_vars-Binds :
      (n : ℕ) (ds : List VarDecl) (prefix : Str) (acc : DeclResult)
      → Declared n acc
      → Binds types n Declared (declare_vars registry expand ds prefix acc)
  unfolding declare_vars
  declare_vars-Binds n [] prefix acc below =
      Binds-pure types n Declared acc
        (λ k le. All-IsBelow_higher n k acc.instance_callables le below)
  declare_vars-Binds n (d ∷ ds) prefix acc below =
      Binds-bind types n Declared Declared _ _ (declare_var-Binds n d prefix acc below)
        λ k acc' le below'. declare_vars-Binds k ds prefix acc' below'
