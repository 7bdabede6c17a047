-- ===== src/St/Exec.antt =====
-- Code that changes a state and may throw: what was changed before a throw stays so. `Exec` is that code on
-- the tag store.
use soft_plc.Base.{Result, ok, err, Error}
use soft_plc.Tags.Store.{TagStore}

abbrev pub ExecOn : Type 0 → Type 0 → Type 0
ExecOn S A = S → Result A × S

abbrev pub Exec : Type 0 → Type 0
Exec A = ExecOn TagStore A

infixl 5 ◌>>=◌ ◌>>◌
abbrev pub ◌>>=◌ : {S A B : Type 0} → ExecOn S A → (A → ExecOn S B) → ExecOn S B
◌>>=◌ m f s = let (r, s') = m s in elim r [ ok a ↦ f a s' | err e ↦ (err e, s') ]

abbrev pub ◌>>◌ : {S B : Type 0} → ExecOn S (Unit {0}) → ExecOn S B → ExecOn S B
m >> k = m >>= λ _. k

abbrev pub pure : {S A : Type 0} → A → ExecOn S A
pure a s = (ok a, s)

abbrev pub throw : {S A : Type 0} → Error → ExecOn S A
throw e s = (err e, s)

-- A computation that reads the state and leaves it alone.
abbrev pub gets : {S A : Type 0} → (S → Result A) → ExecOn S A
gets f s = (f s, s)

abbrev pub lift : {S A : Type 0} → Result A → ExecOn S A
lift r s = (r, s)
