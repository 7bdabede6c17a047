-- ===== src/Io/Simulated/Inputs.antt =====
-- readInputs of the simulated driver (io/simulated_io_driver.cpp), on the tags of a store.
use soft_plc.Base.{
  ℕ, ◌<◌, ◌≡◌, ◌≢◌, refl, sym, ◌∙◌, ap, none, some, List, [], ◌∷◌, Result, ok, err, inl, inr,
  Option-cases, Bool-cases, some_inj, arith, lt_of_get_elem?,
}
use soft_plc.Base.Assoc.{lookup}
use soft_plc.Tags.Value.{Value, Address, Address-eq, addr_eq, addr_eq_iff}
use soft_plc.Tags.Store.{TagStore, find_address, read, write, size}
use soft_plc.Tags.Store.Valid.{IsValid, write-IsValid, write_effect, address_key}
use soft_plc.St.Exec.{Exec, ◌>>◌}
use soft_plc.Io.Simulated.{SimulatedIoDriver, push_inputs, read_inputs}

-- The keys of a map differ.
abbrev pub HasUniqueKeys : List (Address × Value) → Type 0
HasUniqueKeys [] = Unit
HasUniqueKeys ((a, v) ∷ m) = (lookup a m ≡ none) × HasUniqueKeys m

-- What a write to a tag that an address finds does.
record Written (id : ℕ) (v : Value) (s s' : TagStore) : Type 0 where
  valid : IsValid s'
  value : read id s' ≡ ok v
  others : (i : ℕ) → i ≢ id → read i s' ≡ read i s
  addresses : (a : Address) → find_address a s' ≡ find_address a s

find_address-lt :
    (a : Address) (id : ℕ) (s : TagStore) → IsValid s → find_address a s ≡ some id → id < size s
unfolding find_address size
find_address-lt a id s h e = let (t, p, q) = h.addresses.found a id e in lt_of_get_elem? s.tags id p

write-Written :
    (a : Address) (id : ℕ) (v : Value) (s : TagStore)
    → IsValid s
    → find_address a s ≡ some id
    → ((write id v s).0 ≡ ok tt) × Written id v s (write id v s).1
write-Written a id v s h e = elim (write_effect id v s) [
  | inl (lt, r, same, others, types, names, addresses) ↦ (
    r,
    record { valid = write-IsValid id v s h; value = same; others = others; addresses = addresses },
  )
  | inr (le, r, unchanged) ↦ absurd (omega (arith, find_address-lt a id s h e))
]

-- Two addresses of one tag are the same.
find_address-inj :
    (a b : Address) (id : ℕ) (s : TagStore)
    → IsValid s
    → find_address a s ≡ some id
    → find_address b s ≡ some id
    → a ≡ b
unfolding find_address
find_address-inj a b id s h p q =
    let (t, e, k) = h.addresses.found a id p in
    let (u, f, l) = h.addresses.found b id q in
    some_inj (sym k ∙ ap address_key (some_inj (sym e ∙ f)) ∙ l)

push_inputs-none :
    (a : Address) (v : Value) (m : List (Address × Value)) (s : TagStore)
    → find_address a s ≡ none
    → push_inputs ((a, v) ∷ m) s ≡ push_inputs m s
unfolding push_inputs
push_inputs-none a v m s e = rw (e, push_inputs) refl

seq-ok_step : (m k : Exec (Unit {0})) (s : TagStore) → (m s).0 ≡ ok tt → (m >> k) s ≡ k (m s).1
seq-ok_step m k s h = go (m s).0 (m s).1 h
  where
    go :
        (r : Result (Unit {0})) (s' : TagStore)
        → r ≡ ok tt
        → let x : Result (Unit {0}) × TagStore = elim r [ ok a ↦ k s' | err e ↦ (err e, s') ] in
          x ≡ k s'
    go (ok a) s' h = refl
    go (err e) s' h = cc

push_inputs-some :
    (a : Address) (v : Value) (m : List (Address × Value)) (s : TagStore) (id : ℕ)
    → find_address a s ≡ some id
    → (write id v s).0 ≡ ok tt
    → push_inputs ((a, v) ∷ m) s ≡ push_inputs m (write id v s).1
unfolding push_inputs
push_inputs-some a v m s id e r = rw (e, push_inputs) (seq-ok_step (write id v) (push_inputs m) s r)

-- A tag whose address is not among the inputs keeps its value.
push_inputs-others :
    (m : List (Address × Value)) (a : Address) (id : ℕ) (s : TagStore)
    → IsValid s
    → find_address a s ≡ some id
    → lookup a m ≡ none
    → read id (push_inputs m s).1 ≡ read id s
unfolding push_inputs
push_inputs-others [] a id s h e l = refl
push_inputs-others ((b, w) ∷ m) a id s h e l = elim (Bool-cases (addr_eq b a)) [
  | inl same ↦ absurd (cc (rw same at l))
  | inr differs ↦ elim (Option-cases (find_address b s)) [
    | inl p ↦ rw (push_inputs-none b w m s p) (push_inputs-others m a id s h e (rw differs at l))
    | inr (j, p) ↦
        let (r, k) = write-Written b j w s h p in
        let ne : id ≢ j = λ q.
          absurd (cc ((addr_eq_iff b a).1 (find_address-inj b a j s h p (rw q at e)), differs)) in
        rw (push_inputs-some b w m s j p r) (
          push_inputs-others m a id (write j w s).1 k.valid (k.addresses a ∙ e) (rw differs at l)
          ∙ k.others id ne)
  ]
]

push_inputs-sets :
    (m : List (Address × Value)) (a : Address) (v : Value) (id : ℕ) (s : TagStore)
    → IsValid s
    → HasUniqueKeys m
    → lookup a m ≡ some v
    → find_address a s ≡ some id
    → read id (push_inputs m s).1 ≡ ok v
push_inputs-sets [] a v id s h u l e = cc
push_inputs-sets ((b, w) ∷ m) a v id s h u l e = elim (Bool-cases (addr_eq b a)) [
  | inl same ↦
      let b_is_a = (addr_eq_iff b a).0 same in
      let w_is_v = some_inj (rw same at l) in
      let at_b : find_address b s ≡ some id = rw b_is_a e in
      let (r, k) = write-Written b id w s h at_b in
      rw (push_inputs-some b w m s id at_b r) (
        push_inputs-others m b id (write id w s).1 k.valid (k.addresses b ∙ at_b) u.0
        ∙ k.value
        ∙ ap ok w_is_v)
  | inr differs ↦ elim (Option-cases (find_address b s)) [
    | inl p ↦
        rw (push_inputs-none b w m s p) (push_inputs-sets m a v id s h u.1 (rw differs at l) e)
    | inr (j, p) ↦
        let (r, k) = write-Written b j w s h p in
        rw (push_inputs-some b w m s j p r) (
          push_inputs-sets m a v id (write j w s).1 k.valid u.1 (rw differs at l)
            (k.addresses a ∙ e))
  ]
]

-- In a valid store and for inputs of different addresses, readInputs gives each tag with an address
-- the value that was set for its address, and leaves a tag alone whose address has no value set.
pub read_inputs-read :
    (d : SimulatedIoDriver) (a : Address) (id : ℕ) (s : TagStore)
    → IsValid s
    → HasUniqueKeys d.simulated_inputs
    → find_address a s ≡ some id
    → ((v : Value) → lookup a d.simulated_inputs ≡ some v → read id (read_inputs d s).1 ≡ ok v)
      × (lookup a d.simulated_inputs ≡ none → read id (read_inputs d s).1 ≡ read id s)
unfolding read_inputs
read_inputs-read d a id s h u e = (
  (λ v l. push_inputs-sets d.simulated_inputs a v id s h u l e),
  push_inputs-others d.simulated_inputs a id s h e,
)
