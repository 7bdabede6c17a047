-- ===== src/Tags/Store.antt =====
-- The tag store (tags/tag_store.hpp, tag_store.cpp). Each method holds the store's mutex for all of
-- its run, so a method is one step on the store.
pub mod Index
pub mod Valid
use soft_plc.Base.{
  ℕ, ◌%◌, ◌^◌, ◌≡◌, Bool, Option, none, some, List, [], ◌∷◌, ◌++◌, map, ltb, leb, ◌==◌,
  if◌then◌else◌, Str, Str-eq, Result, ok, err, Error, name_in_use, address_in_use, invalid_tag_id,
  length, get_elem?, set,
}
use soft_plc.Base.Assoc.{lookup, contains, emplace}
use soft_plc.Tags.Value.{TypeId, Value, Address, Address-eq, MemoryArea, area_index, Tag}

-- TagId is a uint32_t.
abbrev pub tag_id_mod : ℕ
tag_id_mod = 2 ^ 32

-- kInvalidTagId
abbrev pub invalid_id : ℕ
invalid_id = 4294967295

pub record TagStore : Type 0 where
  pub tags : List Tag
  pub by_name : List (Str × ℕ)
  pub by_address : List (Address × ℕ)

abbrev pub empty_store : TagStore
empty_store = record { tags = []; by_name = []; by_address = [] }

-- addr && byAddress_.contains(*addr)
abbrev pub address_taken : Option Address → List (Address × ℕ) → Bool
address_taken none m = Bool.false
address_taken (some a) m = contains a m

abbrev pub bind_address : Option Address → ℕ → List (Address × ℕ) → List (Address × ℕ)
bind_address none id m = m
bind_address (some a) id m = emplace a id m

unfoldable pub declare : Str → TypeId → Value → Option Address → TagStore → Result ℕ × TagStore
declare name type initial addr s =
    if contains name s.by_name
    then (err name_in_use, s)
    else if address_taken addr s.by_address
    then (err address_in_use, s)
    else let id = length s.tags % tag_id_mod in
      (
        ok id,
        record {
          tags =
              s.tags ++ record { name = name; type = type; address = addr; value = initial } ∷ [];
          by_name = emplace name id s.by_name;
          by_address = bind_address addr id s.by_address;
        },
      )

unfoldable pub find : Str → TagStore → Option ℕ
find name s = lookup name s.by_name

unfoldable pub find_address : Address → TagStore → Option ℕ
find_address addr s = lookup addr s.by_address

unfoldable pub at : ℕ → TagStore → Result Tag
at id s = elim (get_elem? s.tags id) [ none ↦ err invalid_tag_id | some t ↦ ok t ]

unfoldable pub read : ℕ → TagStore → Result Value
unfolding at
read id s = elim (at id s) [ ok t ↦ ok t.value | err e ↦ err e ]

unfoldable pub tag_type : ℕ → TagStore → Result TypeId
unfolding at
tag_type id s = elim (at id s) [ ok t ↦ ok t.type | err e ↦ err e ]

unfoldable pub name_of : ℕ → TagStore → Result Str
unfolding at
name_of id s = elim (at id s) [ ok t ↦ ok t.name | err e ↦ err e ]

-- tags_[id].value = value, after the test of the id
unfoldable pub write : ℕ → Value → TagStore → Result (Unit {0}) × TagStore
write id v s = elim (get_elem? s.tags id) [
  | none ↦ (err invalid_tag_id, s)
  | some t ↦ (ok tt, record s { tags = set s.tags id (record t { value = v }) })
]

unfoldable pub size : TagStore → ℕ
size s = length s.tags

unfoldable pub snapshot : TagStore → List Tag
snapshot s = s.tags

-- tag.address && tag.address->area == area
abbrev pub in_area : MemoryArea → Tag → Bool
in_area area t = elim t.address [
  | none ↦ Bool.false
  | some a ↦ area_index a.area == area_index area
]

-- The loop of forEachInArea, with the callback's own state threaded through.
unfoldable pub for_each_in_area : {S : Type 0} → MemoryArea → (Tag → S → S) → List Tag → S → S
for_each_in_area area fn [] acc = acc
for_each_in_area area fn (t ∷ ts) acc =
    for_each_in_area area fn ts (if in_area area t then fn t acc else acc)

-- The loop of updateInArea.
unfoldable pub update_in_area : MemoryArea → (Tag → Tag) → TagStore → TagStore
update_in_area area fn s = record s { tags = map (λ t. if in_area area t then fn t else t) s.tags }
