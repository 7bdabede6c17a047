-- ===== src/St/Lexer/Rules.antt =====
-- What a step of the lexer or the parser leaves, and the rules to compose steps (st/lexer.cpp, st/parser.cpp).
use soft_plc.Base.{
  ◌≡◌, ◌≢◌, refl, Bool, true, false, Result, ok, err, Error, ◌>>=◌, if◌then◌else◌, out_of_fuel,
  ok_inj,
}
use mathlib.Core.Path.{subst}

-- A result has the property, an error is not that the fuel ran out.
abbrev pub Post : {A : Type 0} → (A → Type 0) → Result A → Type 0
Post P (ok a) = P a
Post P (err e) = e ≢ out_of_fuel

pub record Ensures {A : Type 0} (P : A → Type 0) (m : Result A) : Type 0 where
  pub holds : Post P m

pub Ensures-bind :
    {A B : Type 0} (P : A → Type 0) (Q : B → Type 0) (m : Result A) (f : A → Result B)
    → Ensures P m
    → ((a : A) → P a → Ensures Q (f a))
    → Ensures Q (m >>= f)
Ensures-bind P Q (ok a) f hm hf = hf a hm.holds
Ensures-bind P Q (err e) f hm hf = record { holds = hm.holds }

pub Ensures-if :
    {A : Type 0} (P : A → Type 0) (b : Bool) (x y : Result A)
    → (b ≡ true → Ensures P x)
    → (b ≡ false → Ensures P y)
    → Ensures P (if b then x else y)
Ensures-if P true x y hx hy = hx refl
Ensures-if P false x y hx hy = hy refl

pub Ensures-weaken :
    {A : Type 0} (P Q : A → Type 0) (m : Result A)
    → Ensures P m
    → ((a : A) → P a → Q a)
    → Ensures Q m
Ensures-weaken P Q (ok a) h k = record { holds = k a h.holds }
Ensures-weaken P Q (err e) h k = record { holds = h.holds }

pub Ensures-done : {A : Type 0} (P : A → Type 0) (a : A) → P a → Ensures P (ok a)
Ensures-done P a h = record { holds = h }

pub Ensures-fail : {A : Type 0} (P : A → Type 0) (e : Error) → e ≢ out_of_fuel → Ensures P (err e)
Ensures-fail P e h = record { holds = h }

pub Ensures-ne : {A : Type 0} (P : A → Type 0) (m : Result A) → Ensures P m → m ≢ err out_of_fuel
Ensures-ne P (ok a) h q = cc
Ensures-ne P (err e) h q = h.holds cc

pub Ensures-ok : {A : Type 0} (P : A → Type 0) (m : Result A) (a : A) → m ≡ ok a → Ensures P m → P a
Ensures-ok P (ok b) a e h = subst P (ok_inj e) h.holds
Ensures-ok P (err z) a e h = cc
