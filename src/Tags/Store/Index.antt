-- ===== src/Tags/Store/Index.antt =====
-- An index of the tags by a key that some tags have: byName_ and byAddress_ of tags/tag_store.hpp.
use soft_plc.Base.{
  ℕ, ◌≡◌, inl, inr, sym, ◌∙◌, Option, none, some, List, [], ◌∷◌, ◌++◌, arith, if◌then◌else◌, Eq,
  length, get_elem?, set, Bool-cases, get_elem?-append_lt, get_elem?-append_length, lt_of_get_elem?,
  get_elem?-set_self, get_elem?-set_ne, some_inj, get_elem?-snoc,
}
use soft_plc.Base.Assoc.{lookup, emplace}
use native.Mathlib.Decide.{ℕ_discrete}
use soft_plc.Tags.Value.{Tag}

module _ {K : Type 0} ⦃e : Eq K⦄ where
  -- Every entry points to a tag with that key, and every tag with a key has its entry.
  pub record IsIndex (key : Tag → Option K) (m : List (K × ℕ)) (ts : List Tag) : Type 0 where
    pub found :
        (k : K) (i : ℕ)
        → lookup k m ≡ some i
        → (t : Tag) × (get_elem? ts i ≡ some t) × (key t ≡ some k)
    pub listed :
        (k : K) (i : ℕ) (t : Tag) → get_elem? ts i ≡ some t → key t ≡ some k → lookup k m ≡ some i

  pub lookup-emplace_new :
      (k j : K) (i : ℕ) (m : List (K × ℕ))
      → lookup k m ≡ none
      → lookup j (emplace k i m) ≡ (if e.beq k j then some i else lookup j m)
  lookup-emplace_new k j i m h = ground arith

module _ {K : Type 0} ⦃e : Eq K⦄ (key : Tag → Option K) {m : List (K × ℕ)} {ts : List Tag}
    (h : IsIndex key m ts) where
  keep_found :
      (u : Tag) (k : K) (i : ℕ)
      → lookup k m ≡ some i
      → (t : Tag) × (get_elem? (ts ++ u ∷ []) i ≡ some t) × (key t ≡ some k)
  keep_found u k i p =
      let (t, q, r) = h.found k i p in
      (t, get_elem?-append_lt ts (u ∷ []) i (lt_of_get_elem? ts i q) ∙ q, r)

  -- A tag without a key may be added at the end.
  pub IsIndex-append_none : (u : Tag) → key u ≡ none → IsIndex key m (ts ++ u ∷ [])
  IsIndex-append_none u p = record {
    found = keep_found u;
    listed = λ k i t q r. elim (get_elem?-snoc ts u t i q) [
      | inl old ↦ h.listed k i t old r
      | inr (_, new) ↦ absurd (cc (new, p, r))
    ];
  }

  -- A tag with a key that is not in use may be added with its entry.
  pub IsIndex-append :
      (u : Tag) (k : K)
      → key u ≡ some k
      → lookup k m ≡ none
      → IsIndex key (emplace k (length ts) m) (ts ++ u ∷ [])
  IsIndex-append u k p free = record {
    found = λ j i q. found_new j i (sym (lookup-emplace_new k j (length ts) m free) ∙ q);
    listed = λ j i t q r.
        lookup-emplace_new k j (length ts) m free ∙ elim (get_elem?-snoc ts u t i q) [
          | inl old ↦ elim (Bool-cases (e.beq k j)) [
            | inl same ↦ absurd (cc ((e.beq_iff k j).0 same, free, h.listed j i t old r))
            | inr other ↦ rw other (h.listed j i t old r)
          ]
          | inr (at_end, new) ↦ rw ((e.beq_iff k j).1 (cc (new, p, r))) (cc)
        ];
  }
    where
      found_new :
          (j : K) (i : ℕ)
          → (if e.beq k j then some (length ts) else lookup j m) ≡ some i
          → (t : Tag) × (get_elem? (ts ++ u ∷ []) i ≡ some t) × (key t ≡ some j)
      found_new j i q = elim (Bool-cases (e.beq k j)) [
        | inl same ↦ (
          u,
          rw (← some_inj (rw same at q)) (get_elem?-append_length ts [] u),
          rw (← (e.beq_iff k j).0 same) p,
        )
        | inr other ↦ keep_found u j i (rw other at q)
      ]

  -- A tag may be replaced by one with the same key.
  pub IsIndex-set :
      (i : ℕ) (t u : Tag) → get_elem? ts i ≡ some t → key u ≡ key t → IsIndex key m (set ts i u)
  IsIndex-set i t u p same = record {
    found = λ k j q. found_set k j (h.found k j q);
    listed = λ k j v q r. elim (ℕ_discrete i j) [
      | yes e' ↦
          h.listed k j t (rw (← e') p)
            (cc (e', q, get_elem?-set_self ts i u (lt_of_get_elem? ts i p)))
      | no ne ↦ h.listed k j v (sym (get_elem?-set_ne ts i j u ne) ∙ q) r
    ];
  }
    where
      found_set :
          (k : K) (j : ℕ)
          → ((v : Tag) × (get_elem? ts j ≡ some v) × (key v ≡ some k))
          → (v : Tag) × (get_elem? (set ts i u) j ≡ some v) × (key v ≡ some k)
      found_set k j (v, q, r) = elim (ℕ_discrete i j) [
        | yes e' ↦ (
          u,
          rw (← e') (get_elem?-set_self ts i u (lt_of_get_elem? ts i p)),
          cc (same, e', p, q, r),
        )
        | no ne ↦ (v, get_elem?-set_ne ts i j u ne ∙ q, r)
      ]
