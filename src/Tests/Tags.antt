-- ===== src/Tests/Tags.antt =====
-- Tag stores with one and two tags, and the theorems on them.
use soft_plc.Base.{
  ℕ, ◌<◌, ◌≤◌, ◌≡◌, ◌≢◌, ◌⊎◌, refl, Bool, none, some, arith, Str, codes, str_eq, ok, err, length,
  name_in_use, address_in_use, invalid_tag_id,
}
use soft_plc.Base.Int.{pos}
use soft_plc.Tags.Value.{TypeId, Value, Address, MemoryArea}
use soft_plc.Tags.Store.{
  TagStore, empty_store, declare, find, find_address, size, write, read, tag_type,
}
use soft_plc.Tags.Store.Valid.{
  IsValid, Declared, declare-IsValid, declare_cases, declare_effect, write-IsValid, write_effect,
}

abbrev speed : Str
speed = codes "speed"

abbrev running : Str
running = codes "running"

abbrev pub coil_address : Address
coil_address = record { area = MemoryArea.output; byte_offset = 0; bit_offset = 3 }

empty_store-IsValid : IsValid empty_store
empty_store-IsValid = record {
  fits = omega arith;
  names = record { found = λ k i e. cc; listed = λ k i t e _. cc };
  addresses = record { found = λ k i e. cc; listed = λ k i t e _. cc };
}

unfoldable pub one_tag : TagStore
one_tag = (declare speed TypeId.int (Value.int (pos 5)) none empty_store).1

-- Tag 0 is an INT with the value 5, and tag 1 a BOOL at an output address.
unfoldable pub two_tags : TagStore
two_tags = (declare running TypeId.bool (Value.bool Bool.false) (some coil_address) one_tag).1

one_tag-IsValid : IsValid one_tag
unfolding one_tag
one_tag-IsValid =
    declare-IsValid speed TypeId.int (Value.int (pos 5)) none empty_store empty_store-IsValid
      (omega arith)

length-one_tag : length one_tag.tags ≡ 1
unfolding one_tag declare
length-one_tag = refl

find-one_tag : find speed one_tag ≡ some 0
unfolding one_tag declare find str_eq
find-one_tag = refl

pub two_tags-IsValid : IsValid two_tags
unfolding two_tags
two_tags-IsValid =
    declare-IsValid running TypeId.bool (Value.bool Bool.false) (some coil_address) one_tag
      one_tag-IsValid (rw length-one_tag (omega arith))

declare-IsValid_example :
    IsValid (declare running TypeId.bool (Value.bool Bool.false) (some coil_address) one_tag).1
declare-IsValid_example =
    declare-IsValid running TypeId.bool (Value.bool Bool.false) (some coil_address) one_tag
      one_tag-IsValid (rw length-one_tag (omega arith))

declare_cases_example :
    let (r, s') = declare speed TypeId.bool (Value.bool Bool.false) none one_tag in
    ((r ≡ ok (size one_tag))
      × (find speed one_tag ≡ none)
      × ((b : Address) → none ≡ some b → find_address b one_tag ≡ none))
    ⊎ ((r ≡ err name_in_use) × (s' ≡ one_tag) × (find speed one_tag ≢ none))
    ⊎ ((r ≡ err address_in_use)
        × (s' ≡ one_tag)
        × ((b : Address) × (none ≡ some b) × (find_address b one_tag ≢ none)))
declare_cases_example =
    declare_cases speed TypeId.bool (Value.bool Bool.false) none one_tag one_tag-IsValid

second_id :
    (declare running TypeId.bool (Value.bool Bool.false) (some coil_address) one_tag).0 ≡ ok 1
unfolding declare one_tag str_eq
second_id = refl

declare_effect_example :
    Declared running TypeId.bool
      (Value.bool Bool.false)
      1
      one_tag
      (declare running TypeId.bool (Value.bool Bool.false) (some coil_address) one_tag).1
declare_effect_example =
    declare_effect running TypeId.bool (Value.bool Bool.false) (some coil_address) one_tag 1
      one_tag-IsValid second_id

write-IsValid_example : IsValid (write 0 (Value.int (pos 7)) one_tag).1
write-IsValid_example = write-IsValid 0 (Value.int (pos 7)) one_tag one_tag-IsValid

write_effect_example :
    let (r, s') = write 1 (Value.int (pos 7)) one_tag in
    ((1 < size one_tag)
      × (r ≡ ok tt)
      × (read 1 s' ≡ ok (Value.int (pos 7)))
      × ((i : ℕ) → i ≢ 1 → read i s' ≡ read i one_tag)
      × ((i : ℕ) → tag_type i s' ≡ tag_type i one_tag)
      × ((n : Str) → find n s' ≡ find n one_tag)
      × ((a : Address) → find_address a s' ≡ find_address a one_tag))
    ⊎ ((size one_tag ≤ 1) × (r ≡ err invalid_tag_id) × (s' ≡ one_tag))
write_effect_example = write_effect 1 (Value.int (pos 7)) one_tag
