-- ===== src/St/Binder/Below.antt =====
-- Frames that only call frames below a bound, and the steps of the binder that do not run out of fuel
-- (st/pou_binder.cpp).
use soft_plc.Base.{
  ℕ, ◌<◌, ◌≤◌, ◌≡◌, inl, inr, Bool, Option, some, List, [], ◌∷◌, arith, Str, Str-eq, str_eq, All,
  some_inj, Bool-cases,
}
use mathlib.Core.Path.{subst}
use soft_plc.Base.Assoc.{lookup, insert}
use soft_plc.Tags.Value.{TypeId, Value, Address}
use soft_plc.Tags.Store.{TagStore, declare}
use soft_plc.St.Ast.{
  Stmt, assign, if_stmt, while_stmt, call, rung, Block, nil, cons, Branches, no_branch, branch,
  VarDecl, PouAst,
}
use soft_plc.St.Interp.Fuel.{HasFuel}
use soft_plc.St.Interp.Depth.{CallsBelow, BlockBelow, BranchesBelow}
use soft_plc.St.Scope.{Scope, CallableInfo, Callables, check_param, param_tag, temp_resets}
use soft_plc.St.Binder.Rules.{IsBelow}

abbrev mutual
  pub CallsBelow-higher : (n k : ℕ) (s : Stmt) → n ≤ k → CallsBelow n s → CallsBelow k s
  CallsBelow-higher n k (assign target id e) h c = tt
  CallsBelow-higher n k (if_stmt bs els) h c =
      (BranchesBelow-higher n k bs h c.0, BlockBelow-higher n k els h c.1)
  CallsBelow-higher n k (while_stmt e b) h c = BlockBelow-higher n k b h c
  CallsBelow-higher n k (call name args index) h c = omega arith
  CallsBelow-higher n k (rung e outs) h c = tt

  pub BlockBelow-higher : (n k : ℕ) (b : Block) → n ≤ k → BlockBelow n b → BlockBelow k b
  BlockBelow-higher n k nil h c = tt
  BlockBelow-higher n k (cons s b) h c =
      (CallsBelow-higher n k s h c.0, BlockBelow-higher n k b h c.1)

  pub BranchesBelow-higher :
      (n k : ℕ) (bs : Branches) → n ≤ k → BranchesBelow n bs → BranchesBelow k bs
  BranchesBelow-higher n k no_branch h c = tt
  BranchesBelow-higher n k (branch e b bs) h c =
      (BlockBelow-higher n k b h c.0, BranchesBelow-higher n k bs h c.1)

pub All-IsBelow_higher : (n k : ℕ) (m : Callables) → n ≤ k → All (IsBelow n) m → All (IsBelow k) m
All-IsBelow_higher n k [] h c = tt
All-IsBelow_higher n k ((name, info) ∷ m) h c = (omega arith, All-IsBelow_higher n k m h c.1)

pub All-IsBelow-insert :
    (n : ℕ) (name : Str) (info : CallableInfo) (m : Callables)
    → info.frame_index < n
    → All (IsBelow n) m
    → All (IsBelow n) (insert name info m)
All-IsBelow-insert n name info [] h c = (h, tt)
All-IsBelow-insert n name info ((other, i) ∷ m) h c = elim (Bool-cases (str_eq other name)) [
  | inl e ↦ rw e (h, c.1)
  | inr e ↦ rw e (c.0, All-IsBelow-insert n name info m h c.1)
]

pub lookup-IsBelow :
    (n : ℕ) (name : Str) (m : Callables) {info : CallableInfo}
    → lookup name m ≡ some info
    → All (IsBelow n) m
    → info.frame_index < n
lookup-IsBelow n name [] e c = cc
lookup-IsBelow n name ((other, i) ∷ m) e c = elim (Bool-cases (str_eq other name)) [
  | inl p ↦ subst (λ (x : CallableInfo). x.frame_index < n) (some_inj (rw p at e)) c.0
  | inr p ↦ lookup-IsBelow n name m (rw p at e) c.1
]

pub declare-HasFuel :
    (name : Str) (t : TypeId) (v : Value) (a : Option Address) (s : TagStore)
    → HasFuel (declare name t v a s).0
unfolding declare
declare-HasFuel name t v a s q = ground arith

pub check_param-HasFuel :
    (pou : PouAst) (name : Str) (output : Bool) → HasFuel (check_param pou name output)
unfolding check_param
check_param-HasFuel pou name output q = ground arith

pub param_tag-HasFuel : (info : CallableInfo) (name : Str) → HasFuel (param_tag info name)
param_tag-HasFuel info name q = ground arith

pub temp_resets-HasFuel :
    (pou : PouAst) (scope : Scope) (ds : List VarDecl) → HasFuel (temp_resets pou scope ds)
unfolding temp_resets
temp_resets-HasFuel pou scope [] q = cc
temp_resets-HasFuel pou scope (d ∷ ds) q = ground (arith, temp_resets-HasFuel pou scope ds)
