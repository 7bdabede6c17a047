-- ===== src/St/Binder/Termination.antt =====
-- No more copies nest than there are types, so the binder never runs out of depth (st/pou_binder.cpp).
use soft_plc.Base.{
  ℕ, zero, suc, ◌+◌, ◌<◌, ◌≤◌, ◌≡◌, refl, ◌∙◌, true, false, List, [], ◌∷◌, arith, Str, Str-eq,
  str_eq, str_eq_iff, length, if◌then◌else◌,
}
use soft_plc.Base.Assoc.{contains}
use soft_plc.St.Ast.{PouAst}
use soft_plc.St.Scope.{mentions}
use soft_plc.St.Binder.{expand_pou}
use soft_plc.St.Binder.Copies.{Copies}
use soft_plc.St.Binder.Bodies.{expand_body-Binds}

-- The map without any entry of this name.
unfoldable pub without : Str → List (Str × PouAst) → List (Str × PouAst)
without s [] = []
without s ((t, p) ∷ m) = let rest = without s m in if str_eq t s then rest else (t, p) ∷ rest

length-without_le : (s : Str) (m : List (Str × PouAst)) → length (without s m) ≤ length m
unfolding without
length-without_le s [] = omega arith
length-without_le s ((t, p) ∷ m) = ground (arith, length-without_le s m)

length-without_lt :
    (s : Str) (m : List (Str × PouAst)) → contains s m ≡ true → length (without s m) < length m
unfolding without
length-without_lt s [] h = cc
length-without_lt s ((t, p) ∷ m) h = ground (arith, length-without_le s m, length-without_lt s m)

contains-without :
    (s t : Str) (m : List (Str × PouAst))
    → str_eq t s ≡ false
    → contains t (without s m) ≡ contains t m
unfolding without
contains-without s t [] h = refl
contains-without s t ((u, p) ∷ m) h =
    ground (arith, contains-without s t m, str_eq_iff u t, str_eq_iff u s, str_eq_iff s t)

-- The types that expand are different entries of the registry.
abbrev pub IsChain : List (Str × PouAst) → List Str → Type 0
IsChain registry [] = Unit
IsChain registry (t ∷ types) =
    (mentions t types ≡ false) × (contains t registry ≡ true) × IsChain registry types

IsChain-without :
    (s : Str) (registry : List (Str × PouAst)) (types : List Str)
    → mentions s types ≡ false
    → IsChain registry types
    → IsChain (without s registry) types
unfolding mentions
IsChain-without s registry [] h c = tt
IsChain-without s registry (t ∷ types) h (fresh, known, c) =
    let other : str_eq t s ≡ false = ground arith in
    let rest : mentions s types ≡ false = ground arith in
    (fresh, contains-without s t registry other ∙ known, IsChain-without s registry types rest c)

length-IsChain_le :
    (registry : List (Str × PouAst)) (types : List Str)
    → IsChain registry types
    → length types ≤ length registry
length-IsChain_le registry [] c = omega arith
length-IsChain_le registry (t ∷ types) (fresh, known, c) = omega (
  arith,
  length-without_lt t registry known,
  length-IsChain_le (without t registry) types (IsChain-without t registry types fresh c),
)

pub expand_pou-Copies :
    (registry : List (Str × PouAst)) (depth : ℕ) (types : List Str)
    → IsChain registry types
    → length registry ≤ length types + depth
    → Copies registry (expand_pou registry depth) types
unfolding expand_pou
expand_pou-Copies registry zero types c le type prefix pou n fresh known =
    absurd (
      omega
        (arith, length-IsChain_le registry (type ∷ types) (fresh, rw (known, contains) refl, c)))
expand_pou-Copies registry (suc depth) types c le type prefix pou n fresh known =
    expand_body-Binds registry (expand_pou registry depth) (type ∷ types)
      (expand_pou-Copies registry depth (type ∷ types) (fresh, rw (known, contains) refl, c)
        (omega arith))
      n pou prefix
