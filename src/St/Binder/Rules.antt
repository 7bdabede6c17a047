-- ===== src/St/Binder/Rules.antt =====
-- Steps of the binder that keep its frames in order, and the rules to compose them (st/pou_binder.cpp).
use soft_plc.Base.{
  ℕ, ◌<◌, ◌≤◌, ◌≡◌, ◌≢◌, refl, ap, Bool, true, false, Option, none, some, List, arith, Str, Result,
  ok, err, Error, Str-eq, out_of_fuel, undeclared_identifier, All, length, if◌then◌else◌,
}
use soft_plc.Base.Assoc.{lookup}
use soft_plc.Tags.Store.{TagStore, find}
use soft_plc.St.Exec.{Exec, pure, throw, gets, lift}
use soft_plc.St.Interp.Depth.{AreOrdered}
use soft_plc.St.Scope.{Scope, CallableInfo, BinderContext, Bind, ◌>>=◌, on_tags, resolve_name}

abbrev pub IsBelow : ℕ → Str × CallableInfo → Type 0
IsBelow n (name, info) = info.frame_index < n

-- Each frame calls earlier frames only, and each global callable has a frame.
pub record InOrder (ctx : BinderContext) : Type 0 where
  pub ordered : AreOrdered ctx.frames
  pub globals : All (IsBelow (length ctx.frames)) ctx.global_callables

-- After a step that returns, the context is in order with at least `n` frames, the types that expand
-- are `types`, and the result has the property `P` at the number of frames. A step that throws has
-- not run out of fuel.
abbrev pub Outcome :
    {A : Type 0} → List Str → ℕ → (ℕ → A → Type 0) → Result A × BinderContext → Type 0
Outcome types n P (ok a, ctx) =
    InOrder ctx × (n ≤ length ctx.frames) × (ctx.expanding_types ≡ types) × P (length ctx.frames) a
Outcome types n P (err e, ctx) = e ≢ out_of_fuel

-- The step has that outcome on each context in order with these expanding types and `n` frames.
pub record Binds {A : Type 0} (types : List Str) (n : ℕ) (P : ℕ → A → Type 0) (m : Bind A)
    : Type 0 where
  pub run :
      (ctx : BinderContext)
      → InOrder ctx
      → n ≤ length ctx.frames
      → ctx.expanding_types ≡ types
      → Outcome types n P (m ctx)

abbrev pub Always : {A : Type 0} → ℕ → A → Type 0
Always n a = Unit

Outcome-lower :
    {A : Type 0} (types : List Str) (n k : ℕ) (P : ℕ → A → Type 0) (x : Result A × BinderContext)
    → n ≤ k
    → Outcome types k P x
    → Outcome types n P x
Outcome-lower types n k P (ok a, ctx) h (o, le, e, p) = (o, omega arith, e, p)
Outcome-lower types n k P (err x, ctx) h q = q

module _ (types : List Str) (n : ℕ) where
  pub Binds-bind :
      {A B : Type 0} (P : ℕ → A → Type 0) (Q : ℕ → B → Type 0) (m : Bind A) (f : A → Bind B)
      → Binds types n P m
      → ((k : ℕ) (a : A) → n ≤ k → P k a → Binds types k Q (f a))
      → Binds types n Q (m >>= f)
  unfolding ◌>>=◌
  Binds-bind {A} {B} P Q m f hm hf = record {
    run = λ ctx o le e. after (m ctx).0 (m ctx).1 (hm.run ctx o le e);
  }
    where
      after :
          (r : Result A) (c : BinderContext)
          → Outcome types n P (r, c)
          → let x : Result B × BinderContext = elim r [ ok a ↦ f a c | err z ↦ (err z, c) ] in
            Outcome types n Q x
      after (ok a) c (o', le', e', p) =
          Outcome-lower types n (length c.frames) Q (f a c) le'
            ((hf (length c.frames) a le' p).run c o' (omega arith) e')
      after (err z) c h = h

  -- The step before matters only for what it keeps.
  pub Binds-seq :
      {A B : Type 0} (Q : ℕ → B → Type 0) (m : Bind A) (f : A → Bind B)
      → Binds types n Always m
      → ((k : ℕ) (a : A) → n ≤ k → Binds types k Q (f a))
      → Binds types n Q (m >>= f)
  Binds-seq Q m f hm hf = Binds-bind Always Q m f hm (λ k a le _. hf k a le)

  pub Binds-pure :
      {A : Type 0} (P : ℕ → A → Type 0) (a : A)
      → ((k : ℕ) → n ≤ k → P k a)
      → Binds types n P (pure a)
  Binds-pure P a h = record { run = λ ctx o le e. (o, le, e, h (length ctx.frames) le) }

  pub Binds-done : {A : Type 0} (a : A) → Binds types n Always (pure a)
  Binds-done a = Binds-pure Always a (λ k h. tt)

  pub Binds-throw :
      {A : Type 0} (P : ℕ → A → Type 0) (e : Error) → e ≢ out_of_fuel → Binds types n P (throw e)
  Binds-throw P z h = record { run = λ ctx o le e. h }

  pub Binds-gets :
      {A : Type 0} (f : BinderContext → Result A)
      → ((ctx : BinderContext) → f ctx ≢ err out_of_fuel)
      → Binds types n Always (gets f)
  Binds-gets {A} f h = record { run = λ ctx o le e. after ctx (f ctx) (h ctx) o le e }
    where
      after :
          (ctx : BinderContext) (r : Result A)
          → r ≢ err out_of_fuel
          → InOrder ctx
          → n ≤ length ctx.frames
          → ctx.expanding_types ≡ types
          → Outcome types n Always (r, ctx)
      after ctx (ok a) h o le e = (o, le, e, tt)
      after ctx (err z) h o le e = λ q. h (ap err q)

  pub Binds-lift : {A : Type 0} (r : Result A) → r ≢ err out_of_fuel → Binds types n Always (lift r)
  Binds-lift r h = Binds-gets (λ _. r) (λ _. h)

  pub Binds-if :
      {A : Type 0} (P : ℕ → A → Type 0) (b : Bool) (x y : Bind A)
      → (b ≡ true → Binds types n P x)
      → (b ≡ false → Binds types n P y)
      → Binds types n P (if b then x else y)
  Binds-if P true x y hx hy = hx refl
  Binds-if P false x y hx hy = hy refl

  pub on_tags-Binds :
      {A : Type 0} (m : Exec A)
      → ((s : TagStore) → (m s).0 ≢ err out_of_fuel)
      → Binds types n Always (on_tags m)
  on_tags-Binds {A} m h = record {
    run = λ ctx o le e. after ctx (m ctx.tags).0 (m ctx.tags).1 (h ctx.tags) o le e;
  }
    where
      after :
          (ctx : BinderContext) (r : Result A) (s : TagStore)
          → r ≢ err out_of_fuel
          → InOrder ctx
          → n ≤ length ctx.frames
          → ctx.expanding_types ≡ types
          → Outcome types n Always (r, record ctx { tags = s })
      after ctx (ok a) s q o le e = (record { ordered = o.ordered; globals = o.globals }, le, e, tt)
      after ctx (err z) s q o le e = λ p. q (ap err p)

  pub resolve_name-Binds :
      (name : Str) (scope : Scope) → Binds types n Always (resolve_name name scope)
  unfolding resolve_name
  resolve_name-Binds name scope = record {
    run = λ ctx o le e. by_scope ctx (lookup name scope) (find name ctx.tags) o le e;
  }
    where
      by_scope :
          (ctx : BinderContext) (x y : Option ℕ)
          → InOrder ctx
          → n ≤ length ctx.frames
          → ctx.expanding_types ≡ types
          → let r : Result ℕ × BinderContext = elim x [
            | some id ↦ (ok id, ctx)
            | none ↦ elim y [ none ↦ (err undeclared_identifier, ctx) | some id ↦ (ok id, ctx) ]
          ] in
            Outcome types n Always r
      by_scope ctx (some id) y o le e = (o, le, e, tt)
      by_scope ctx none (some id) o le e = (o, le, e, tt)
      by_scope ctx none none o le e = λ q. cc
