-- ===== src/Tags/Store/Valid.antt =====
-- The invariant of the tag store, and what each operation does on each branch.
use soft_plc.Base.{
  ℕ, ◌+◌, ◌<◌, ◌≤◌, ◌≡◌, ◌≢◌, ◌⊎◌, inl, inr, refl, sym, true, false, Option, none, some, [], ◌∷◌,
  ◌++◌, arith, Str, Str-eq, str_eq_iff, ok, err, name_in_use, address_in_use, invalid_tag_id,
  length, get_elem?, set, Bool-cases, Option-cases, get_elem?-append_length, get_elem?-append_lt,
  length-append, length-set, get_elem?-set_self, get_elem?-set_ne, lt_of_get_elem?, le_of_get_elem?,
  some_inj, ok_inj,
}
use soft_plc.Base.Assoc.{lookup, contains, emplace, contains→none, contains→ne}
use native.Mathlib.Decide.{ℕ_discrete}
use native.Mathlib.Nat.{mod-eq_of_lt}
use soft_plc.Tags.Value.{TypeId, Value, Address, Address-eq, Tag}
use soft_plc.Tags.Store.{
  TagStore, tag_id_mod, address_taken, declare, find, find_address, read, tag_type, name_of, write,
  size, bind_address,
}
use soft_plc.Tags.Store.Index.{
  IsIndex, IsIndex-append, IsIndex-append_none, IsIndex-set, lookup-emplace_new,
}

abbrev pub name_key : Tag → Option Str
name_key t = some t.name

abbrev pub address_key : Tag → Option Address
address_key t = t.address

-- Ids fit their type, and the two maps are exactly the names and the addresses of the tags.
pub record IsValid (s : TagStore) : Type 0 where
  pub fits : length s.tags < tag_id_mod
  pub names : IsIndex name_key s.by_name s.tags
  pub addresses : IsIndex address_key s.by_address s.tags

-- What a successful `declare` adds.
abbrev pub new_tag : Str → TypeId → Value → Option Address → Tag
new_tag n ty v a = record { name = n; type = ty; address = a; value = v }

-- The store after a successful `declare`.
abbrev declared : Str → TypeId → Value → Option Address → TagStore → TagStore
declared n ty v a s = record {
  tags = s.tags ++ new_tag n ty v a ∷ [];
  by_name = emplace n (length s.tags) s.by_name;
  by_address = bind_address a (length s.tags) s.by_address;
}

pub declare_eq :
    (n : Str) (ty : TypeId) (v : Value) (a : Option Address) (s : TagStore)
    → IsValid s
    → contains n s.by_name ≡ false
    → address_taken a s.by_address ≡ false
    → declare n ty v a s ≡ (ok (length s.tags), declared n ty v a s)
unfolding declare
declare_eq n ty v a s h p q = rw (p, q, mod-eq_of_lt h.fits)

addresses-declared :
    (n : Str) (ty : TypeId) (v : Value) (a : Option Address) (s : TagStore)
    → IsValid s
    → address_taken a s.by_address ≡ false
    → IsIndex address_key (declared n ty v a s).by_address (declared n ty v a s).tags
addresses-declared n ty v none s h q = IsIndex-append_none address_key h.addresses _ refl
addresses-declared n ty v (some a) s h q =
    IsIndex-append address_key h.addresses _ a refl (contains→none a s.by_address q)

-- A store stays valid under `declare`, on every branch, while an id is left.
pub declare-IsValid :
    (n : Str) (ty : TypeId) (v : Value) (a : Option Address) (s : TagStore)
    → IsValid s
    → length s.tags + 1 < tag_id_mod
    → IsValid (declare n ty v a s).1
unfolding declare
declare-IsValid n ty v a s h room = elim (Bool-cases (contains n s.by_name)) [
  | inl p ↦ rw p h
  | inr p ↦ elim (Bool-cases (address_taken a s.by_address)) [
    | inl q ↦ rw (p, q) h
    | inr q ↦ rw (declare_eq n ty v a s h p q) (record {
      fits = omega (arith, length-append {0} s.tags (new_tag n ty v a ∷ []));
      names = IsIndex-append name_key h.names _ n refl (contains→none n s.by_name p);
      addresses = addresses-declared n ty v a s h q;
    })
  ]
]

-- `declare` succeeds exactly if neither the name nor the address is in use, and the id is then the
-- number of tags so far. Otherwise it throws and the store is unchanged.
pub declare_cases :
    (n : Str) (ty : TypeId) (v : Value) (a : Option Address) (s : TagStore)
    → IsValid s
    → let (r, s') = declare n ty v a s in
      ((r ≡ ok (size s))
        × (find n s ≡ none)
        × ((b : Address) → a ≡ some b → find_address b s ≡ none))
      ⊎ ((r ≡ err name_in_use) × (s' ≡ s) × (find n s ≢ none))
      ⊎ ((r ≡ err address_in_use)
          × (s' ≡ s)
          × ((b : Address) × (a ≡ some b) × (find_address b s ≢ none)))
unfolding declare find find_address size
declare_cases n ty v a s h = elim (Bool-cases (contains n s.by_name)) [
  | inl p ↦ inr (inl (rw p, rw p, contains→ne n s.by_name p))
  | inr p ↦ elim (Bool-cases (address_taken a s.by_address)) [
    | inl q ↦ inr (inr (rw (p, q), rw (p, q), taken a q))
    | inr q ↦ inl (rw (p, q, mod-eq_of_lt h.fits), contains→none n s.by_name p, λ b e. free b a q e)
  ]
]
  where
    taken :
        (a : Option Address)
        → address_taken a s.by_address ≡ true
        → (b : Address) × (a ≡ some b) × (lookup b s.by_address ≢ none)
    taken none q = cc
    taken (some b) q = (b, refl, contains→ne b s.by_address q)

    free :
        (b : Address) (a : Option Address)
        → address_taken a s.by_address ≡ false
        → a ≡ some b
        → lookup b s.by_address ≡ none
    free b none q e = cc
    free b (some c) q e = rw (← some_inj e) (contains→none c s.by_address q)

-- A `declare` that returns an id went past both tests.
declare-ok :
    (n : Str) (ty : TypeId) (v : Value) (a : Option Address) (s : TagStore) (id : ℕ)
    → (declare n ty v a s).0 ≡ ok id
    → (contains n s.by_name ≡ false) × (address_taken a s.by_address ≡ false)
unfolding declare
declare-ok n ty v a s id e = elim (Bool-cases (contains n s.by_name)) [
  | inl p ↦ absurd (cc (rw p at e))
  | inr p ↦ elim (Bool-cases (address_taken a s.by_address)) [
    | inl q ↦ absurd (cc (rw (p, q) at e))
    | inr q ↦ (p, q)
  ]
]

-- What a caller sees of a new tag.
abbrev pub Declared : Str → TypeId → Value → ℕ → TagStore → TagStore → Type 0
Declared n ty v id s s' =
    (find n s' ≡ some id)
    × (name_of id s' ≡ ok n)
    × (tag_type id s' ≡ ok ty)
    × (read id s' ≡ ok v)
    × (size s' ≡ size s + 1)
    × ((m : Str) → m ≢ n → find m s' ≡ find m s)
    × ((i : ℕ) → i < size s → (read i s' ≡ read i s) × (tag_type i s' ≡ tag_type i s))

declared-Declared :
    (n : Str) (ty : TypeId) (v : Value) (a : Option Address) (s : TagStore)
    → contains n s.by_name ≡ false
    → Declared n ty v (length s.tags) s (declared n ty v a s)
unfolding find name_of tag_type read size
declared-Declared n ty v a s p =
    let here = get_elem?-append_length s.tags [] (new_tag n ty v a) in
    let new = contains→none n s.by_name p in
    (
      rw (lookup-emplace_new n n (length s.tags) s.by_name new, (str_eq_iff n n).1 refl),
      rw (here, name_of),
      rw (here, tag_type),
      rw (here, read),
      omega (arith, length-append {0} s.tags (new_tag n ty v a ∷ [])),
      λ m ne. ground (arith, lookup-emplace_new n m (length s.tags) s.by_name new, str_eq_iff n m),
      λ i lt.
          let old = get_elem?-append_lt s.tags (new_tag n ty v a ∷ []) i lt in
          (rw (old, read), rw (old, tag_type)),
    )

-- After a successful `declare` the new tag is found by its name and has the declared name, type and
-- value, the store has one tag more, every other name is found as before, and every tag declared
-- before has the type and value that it had.
pub declare_effect :
    (n : Str) (ty : TypeId) (v : Value) (a : Option Address) (s : TagStore) (id : ℕ)
    → IsValid s
    → (declare n ty v a s).0 ≡ ok id
    → Declared n ty v id s (declare n ty v a s).1
declare_effect n ty v a s id h e =
    let (p, q) = declare-ok n ty v a s id e in
    let d = declare_eq n ty v a s h p q in
    rw (← ok_inj (rw d at e), d) (declared-Declared n ty v a s p)

pub read-some :
    (id : ℕ) (s : TagStore) {t : Tag} → get_elem? s.tags id ≡ some t → read id s ≡ ok t.value
unfolding read
read-some id s p = rw (p, read)

pub read-none :
    (id : ℕ) (s : TagStore) → get_elem? s.tags id ≡ none → read id s ≡ err invalid_tag_id
unfolding read
read-none id s p = rw (p, read)

pub tag_type-some :
    (id : ℕ) (s : TagStore) {t : Tag} → get_elem? s.tags id ≡ some t → tag_type id s ≡ ok t.type
unfolding tag_type
tag_type-some id s p = rw (p, tag_type)

pub tag_type-none :
    (id : ℕ) (s : TagStore) → get_elem? s.tags id ≡ none → tag_type id s ≡ err invalid_tag_id
unfolding tag_type
tag_type-none id s p = rw (p, tag_type)

pub write-some :
    (id : ℕ) (v : Value) (s : TagStore) {t : Tag}
    → get_elem? s.tags id ≡ some t
    → write id v s ≡ (ok tt, record s { tags = set s.tags id (record t { value = v }) })
unfolding write
write-some id v s p = rw (p, write)

pub write-none :
    (id : ℕ) (v : Value) (s : TagStore)
    → get_elem? s.tags id ≡ none
    → write id v s ≡ (err invalid_tag_id, s)
unfolding write
write-none id v s p = rw (p, write)

-- A write keeps the store valid, on both branches.
pub write-IsValid : (id : ℕ) (v : Value) (s : TagStore) → IsValid s → IsValid (write id v s).1
write-IsValid id v s h = elim (Option-cases (get_elem? s.tags id)) [
  | inl p ↦ rw (write-none id v s p) h
  | inr (t, p) ↦ rw (write-some id v s p) (record {
    fits = rw (length-set s.tags id (record t { value = v })) h.fits;
    names = IsIndex-set name_key h.names id t _ p refl;
    addresses = IsIndex-set address_key h.addresses id t _ p refl;
  })
]

-- A write to a declared tag succeeds: the tag then reads the value written, every other tag reads
-- as before, and types and both look-ups are unchanged. A write to any other id throws and changes
-- nothing.
pub write_effect :
    (id : ℕ) (v : Value) (s : TagStore)
    → let (r, s') = write id v s in
      ((id < size s)
        × (r ≡ ok tt)
        × (read id s' ≡ ok v)
        × ((i : ℕ) → i ≢ id → read i s' ≡ read i s)
        × ((i : ℕ) → tag_type i s' ≡ tag_type i s)
        × ((n : Str) → find n s' ≡ find n s)
        × ((a : Address) → find_address a s' ≡ find_address a s))
      ⊎ ((size s ≤ id) × (r ≡ err invalid_tag_id) × (s' ≡ s))
unfolding size read tag_type find find_address
write_effect id v s = elim (Option-cases (get_elem? s.tags id)) [
  | inl p ↦ rw (write-none id v s p) (inr (le_of_get_elem? s.tags id p, refl, refl))
  | inr (t, p) ↦ rw (write-some id v s p) (
      inl (
        lt_of_get_elem? s.tags id p,
        refl,
        rw (get_elem?-set_self s.tags id _ (lt_of_get_elem? s.tags id p), read),
        λ i ne. rw (get_elem?-set_ne s.tags id i _ (λ e. ne (sym e)), read),
        λ i. type_kept t p i,
        λ n. refl,
        λ a. refl,
      ))
]
  where
    type_kept :
        (t : Tag) (p : get_elem? s.tags id ≡ some t) (i : ℕ)
        → tag_type i (record s { tags = set s.tags id (record t { value = v }) }) ≡ tag_type i s
    type_kept t p i = elim (ℕ_discrete id i) [
      | yes e ↦ rw (
        ← e,
        get_elem?-set_self s.tags id (record t { value = v }) (lt_of_get_elem? s.tags id p),
        p,
        tag_type,
      )
      | no ne ↦ rw (get_elem?-set_ne s.tags id i (record t { value = v }) ne, tag_type)
    ]
