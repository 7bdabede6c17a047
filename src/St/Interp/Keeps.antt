-- ===== src/St/Interp/Keeps.antt =====
-- Computations on the tag store that keep it well typed, and the rules to compose them.
use soft_plc.Base.{
  ℕ, zero, suc, ◌≡◌, inl, inr, refl, ◌∙◌, ap, Bool, true, false, some, List, [], ◌∷◌, Result, ok,
  err, Error, All, All-set, get_elem?, set, if◌then◌else◌, Option-cases,
}
use soft_plc.Tags.Value.{TypeId, Value, Tag}
use soft_plc.Tags.Store.{TagStore, write}
use soft_plc.Tags.Store.Valid.{IsValid, write-IsValid, write-some, write-none}
use soft_plc.St.Ops.Types.{Returns, HasType}
use soft_plc.St.Exec.{Exec, ◌>>=◌, ◌>>◌, pure, throw}
use soft_plc.St.Interp.Eval.{TagOk}

abbrev pub types_of : List Tag → List TypeId
types_of [] = []
types_of (t ∷ ts) = t.type ∷ types_of ts

-- The store is valid, its tags have the types `types`, and each holds a value of its type that lies
-- in the type's range.
pub record IsTyped (types : List TypeId) (s : TagStore) : Type 0 where
  pub valid : IsValid s
  pub typed : types_of s.tags ≡ types
  pub values : All TagOk s.tags

pub types_of-get_elem? :
    (ts : List Tag) (i : ℕ) {t : Tag}
    → get_elem? ts i ≡ some t
    → get_elem? (types_of ts) i ≡ some t.type
types_of-get_elem? [] i e = cc
types_of-get_elem? (x ∷ ts) zero e = cc
types_of-get_elem? (x ∷ ts) (suc i) e = types_of-get_elem? ts i e

types_of-set :
    (ts : List Tag) (i : ℕ) {t : Tag} (v : Value)
    → get_elem? ts i ≡ some t
    → types_of (set ts i (record t { value = v })) ≡ types_of ts
types_of-set [] i v e = refl
types_of-set (x ∷ ts) zero v e = cc
types_of-set (x ∷ ts) (suc i) v e = ap (◌∷◌ x.type) (types_of-set ts i v e)

-- Nothing is said of the result.
abbrev pub Any : {A : Type 0} → A → Type 0
Any a = Unit

module _ (types : List TypeId) where
  -- What a computation returns has `P`, and it keeps the store typed.
  abbrev pub Keeps : {A : Type 0} → (A → Type 0) → Exec A → Type 0
  Keeps P m = (s : TagStore) → IsTyped types s → Returns P (m s).0 × IsTyped types (m s).1

  pub Keeps-bind :
      {A B : Type 0} (Q : A → Type 0) (P : B → Type 0) (m : Exec A) (f : A → Exec B)
      → Keeps Q m
      → ((a : A) → Q a → Keeps P (f a))
      → Keeps P (m >>= f)
  Keeps-bind {A} {B} Q P m f hm hf s h = after (m s).0 (m s).1 (hm s h)
    where
      after :
          (r : Result A) (s' : TagStore)
          → Returns Q r × IsTyped types s'
          → let x : Result B × TagStore = elim r [ ok a ↦ f a s' | err e ↦ (err e, s') ] in
            Returns P x.0 × IsTyped types x.1
      after (ok a) s' (q, t) = hf a q s' t
      after (err e) s' (q, t) = (tt, t)

  -- A write of a value of the tag's type.
  pub write-Keeps :
      (id : ℕ) (v : Value)
      → ((t : TypeId) → get_elem? types id ≡ some t → HasType t v)
      → Keeps (λ _. Unit {0}) (write id v)
  write-Keeps id v ok_v s h = elim (Option-cases (get_elem? s.tags id)) [
    | inl p ↦ rw (write-none id v s p) (tt, h)
    | inr (t, p) ↦
        let valid = write-IsValid id v s h.valid in
        rw (write-some id v s p) (
          tt,
          record {
            valid = rw (write-some id v s p) at valid;
            typed = types_of-set s.tags id v p ∙ h.typed;
            values =
                All-set TagOk s.tags id (record t { value = v }) h.values
                  (ok_v t.type (rw h.typed at (types_of-get_elem? s.tags id p)));
          },
        )
  ]

  pub Keeps-pure : {A : Type 0} (a : A) → Keeps Any (pure a)
  Keeps-pure a s h = (tt, h)

  pub Keeps-throw : (A : Type 0) (e : Error) → Keeps {A = A} Any (throw e)
  Keeps-throw A e s h = (tt, h)

  pub Keeps-seq :
      {B : Type 0} (m : Exec (Unit {0})) (k : Exec B)
      → Keeps Any m
      → Keeps Any k
      → Keeps Any (m >> k)
  Keeps-seq m k hm hk = Keeps-bind Any Any m (λ _. k) hm (λ _ _. hk)

  pub Keeps-if :
      {A : Type 0} (b : Bool) (m k : Exec A)
      → Keeps Any m
      → Keeps Any k
      → Keeps Any (if b then m else k)
  Keeps-if true m k hm hk = hm
  Keeps-if false m k hm hk = hk

  -- A test, and one of two computations by its result.
  pub Keeps-branch :
      (test : Exec Bool) (m k : Exec (Unit {0}))
      → Keeps Any test
      → Keeps Any m
      → Keeps Any k
      → Keeps Any (test >>= elim [ true ↦ m | false ↦ k ])
  Keeps-branch test m k ht hm hk =
      Keeps-bind Any Any test (elim [ true ↦ m | false ↦ k ]) ht
        (elim [ true ↦ λ _. hm | false ↦ λ _. hk ])
