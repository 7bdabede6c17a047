-- ===== src/Base/Assoc.antt =====
-- std::map and std::unordered_map as association lists, in which the first entry of a key counts.
use mathlib.Core.Path.{◌≡◌, refl}
use mathlib.Core.Logic.{◌≢◌}
use mathlib.Core.Bool.{Bool, true, false}
use mathlib.Core.Option.{Option, none, some}
use mathlib.Core.List.{List, [], ◌∷◌}
use native.Mathlib.Omega.{arith}
use soft_plc.Base.Tests.{Eq, if◌then◌else◌}

module _ {ℓ κ} {K : Type ℓ} {V : Type κ} ⦃e : Eq K⦄ where
  abbrev pub lookup : K → List (K × V) → Option V
  lookup k [] = none
  lookup k ((j, v) ∷ m) = if e.beq j k then some v else lookup k m

  -- contains
  abbrev pub contains : K → List (K × V) → Bool
  contains k m = elim (lookup k m) [ none ↦ false | some _ ↦ true ]

  -- m[k] = v
  abbrev pub insert : K → V → List (K × V) → List (K × V)
  insert k v [] = (k, v) ∷ []
  insert k v ((j, w) ∷ m) = if e.beq j k then (j, v) ∷ m else (j, w) ∷ insert k v m

  -- m.emplace(k, v): an existing entry is kept.
  abbrev pub emplace : K → V → List (K × V) → List (K × V)
  emplace k v m = if contains k m then m else (k, v) ∷ m

  pub lookup-insert :
      (k j : K) (v : V) (m : List (K × V))
      → lookup j (insert k v m) ≡ (if e.beq k j then some v else lookup j m)
  lookup-insert k j v [] = refl
  lookup-insert k j v ((i, w) ∷ m) =
      ground (arith, e.beq_iff k j, e.beq_iff i k, e.beq_iff i j, lookup-insert k j v m)

  pub contains→none : (k : K) (m : List (K × V)) → contains k m ≡ false → lookup k m ≡ none
  contains→none k m h = ground arith

  pub contains→ne : (k : K) (m : List (K × V)) → contains k m ≡ true → lookup k m ≢ none
  contains→ne k m h = ground arith
