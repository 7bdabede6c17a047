-- ===== src/Io/Mapping/Codec.antt =====
-- Encoding a value into registers and decoding it again.
use soft_plc.Base.{
  ℕ, ◌+◌, ◌*◌, ◌/◌, ◌%◌, ◌^◌, ◌<◌, ◌≤◌, ◌≡◌, ◌⊎◌, refl, ◌∙◌, ap, Bool, true, false, some, List,
  arith, ok, ◌>>=◌, get_elem?, set, length, length-set, get_elem?-set_self, get_elem?-set_ne,
  get_elem?-lt,
}
use soft_plc.Base.Int.{ℤ, pos, negsuc, to_word, of_word, InSigned}
use soft_plc.Tags.Value.{TypeId, Value, type_of, InRange}
use soft_plc.Io.Mapping.{
  WordOrder, big_endian_words, little_endian_words, ModbusPointMapping, ReadBatch, is_bit_table,
  is_register_type, count_of, register_count, vector_at, vector_set, combine, offset_in,
  decode_register, decode_modbus_point_value, encode_words, encode_value, encode_modbus_point_value,
}

-- A signed word of 16 or 32 bits survives the two casts.
of_word-to_word16 : (z : ℤ) → InSigned 32768 z → of_word 32768 (to_word 65536 z) ≡ z
unfolding of_word to_word
of_word-to_word16 (pos n) h = ground arith
of_word-to_word16 (negsuc n) h = ground arith

of_word-to_word32 : (z : ℤ) → InSigned 2147483648 z → of_word 2147483648 (to_word (2 ^ 32) z) ≡ z
unfolding of_word to_word
of_word-to_word32 (pos n) h = ground arith
of_word-to_word32 (negsuc n) h = ground arith

to_word32-lt : (z : ℤ) → to_word (2 ^ 32) z < 2 ^ 32
unfolding to_word
to_word32-lt (pos n) = omega arith
to_word32-lt (negsuc n) = omega arith

words_of : (c : ℕ) → c < 2 ^ 32 → c / 65536 % 65536 * 65536 + c % 65536 ≡ c
words_of c h = omega arith

-- What a write of `count` registers at `i` leaves: the length and all other registers.
abbrev pub SameOutside : ℕ → ℕ → List ℕ → List ℕ → Type 0
SameOutside i count rs rs' =
    (length rs' ≡ length rs)
    × ((j : ℕ) → (j < i) ⊎ (i + count ≤ j) → get_elem? rs' j ≡ get_elem? rs j)

vector_at-some : (rs : List ℕ) (i : ℕ) {r : ℕ} → get_elem? rs i ≡ some r → vector_at rs i ≡ ok r
vector_at-some rs i p = rw (p, vector_at)

vector_set-lt : (rs : List ℕ) (i v : ℕ) → i < length rs → vector_set rs i v ≡ ok (set rs i v)
vector_set-lt rs i v h = rw ((get_elem?-lt rs i h).1, vector_set)

-- What encode and decode do together, at one place in the registers.
abbrev RoundTrip : TypeId → WordOrder → Value → ℕ → List ℕ → Type 0
RoundTrip t order v i rs =
    (rs' : List ℕ) × (encode_value t order v i rs ≡ ok rs')
    × (decode_register t order i rs' ≡ ok v)
    × SameOutside i (count_of t) rs rs'

one_register :
    (t : TypeId) (order : WordOrder) (v : Value) (i w : ℕ) (rs : List ℕ)
    → i < length rs
    → count_of t ≡ 1
    → encode_value t order v i rs ≡ vector_set rs i w
    → ((rs' : List ℕ) → get_elem? rs' i ≡ some w → decode_register t order i rs' ≡ ok v)
    → RoundTrip t order v i rs
one_register t order v i w rs h c enc dec = (
  set rs i w,
  enc ∙ vector_set-lt rs i w h,
  dec (set rs i w) (get_elem?-set_self rs i w h),
  (length-set rs i w, λ j out. get_elem?-set_ne rs i j w (ground arith)),
)

two_registers :
    (t : TypeId) (order : WordOrder) (v : Value) (i a b : ℕ) (rs : List ℕ)
    → i + 1 < length rs
    → count_of t ≡ 2
    → encode_value t order v i rs ≡ (vector_set rs i a >>= λ rs'. vector_set rs' (i + 1) b)
    → ((rs' : List ℕ)
        → get_elem? rs' i ≡ some a
        → get_elem? rs' (i + 1) ≡ some b
        → decode_register t order i rs' ≡ ok v)
    → RoundTrip t order v i rs
two_registers t order v i a b rs h c enc dec =
    let once = set rs i a in
    let long : i + 1 < length once = omega (arith, length-set {0} rs i a) in
    (
      set once (i + 1) b,
      enc ∙ rw (vector_set-lt rs i a (omega arith)) (vector_set-lt once (i + 1) b long),
      dec (set once (i + 1) b)
          (get_elem?-set_ne once (i + 1) i b (omega arith)
            ∙ get_elem?-set_self rs i a (omega arith))
          (get_elem?-set_self once (i + 1) b long),
      (
        length-set once (i + 1) b ∙ length-set rs i a,
        λ j out.
            get_elem?-set_ne once (i + 1) j b (ground arith)
            ∙ get_elem?-set_ne rs i j a (ground arith),
      ),
    )

-- A 32-bit pattern `c`, in either word order.
two_words :
    (t : TypeId) (order : WordOrder) (v : Value) (i c : ℕ) (rs : List ℕ)
    → i + 1 < length rs
    → count_of t ≡ 2
    → encode_value t order v i rs ≡ encode_words order c i rs
    → ((rs' : List ℕ) (a b : ℕ)
        → get_elem? rs' i ≡ some a
        → get_elem? rs' (i + 1) ≡ some b
        → combine order a b ≡ c
        → decode_register t order i rs' ≡ ok v)
    → c < 2 ^ 32
    → RoundTrip t order v i rs
unfolding encode_words
two_words t big_endian_words v i c rs h k enc dec lt =
    two_registers t big_endian_words v i (c / 65536 % 65536) (c % 65536) rs h k enc
      λ rs' p q. dec rs' _ _ p q (words_of c lt)
two_words t little_endian_words v i c rs h k enc dec lt =
    two_registers t little_endian_words v i (c % 65536) (c / 65536 % 65536) rs h k enc
      λ rs' p q. dec rs' _ _ p q (words_of c lt)

-- A value of a register type that lies in its range, encoded at a place with room, decodes to itself.
round_trip :
    (t : TypeId) (order : WordOrder) (v : Value) (i : ℕ) (rs : List ℕ)
    → is_register_type t ≡ true
    → type_of v ≡ t
    → InRange v
    → i + count_of t ≤ length rs
    → RoundTrip t order v i rs
unfolding encode_value decode_register
round_trip TypeId.byte order (Value.byte n) i rs k e r room =
    one_register TypeId.byte order (Value.byte n) i n rs (omega arith) refl refl
      λ rs' p. rw (vector_at-some rs' i p) (ap (λ m. ok (Value.byte m)) (omega arith))
round_trip TypeId.int order (Value.int z) i rs k e r room =
    one_register TypeId.int order (Value.int z) i (to_word 65536 z) rs (omega arith) refl refl
      λ rs' p. rw (vector_at-some rs' i p) (ap (λ m. ok (Value.int m)) (of_word-to_word16 z r))
round_trip TypeId.dint order (Value.dint z) i rs k e r room =
    two_words TypeId.dint order (Value.dint z) i (to_word (2 ^ 32) z) rs (omega arith) refl refl
      (λ rs' a b p q c.
        rw (vector_at-some rs' i p, vector_at-some rs' (i + 1) q, c)
          (ap (λ m. ok (Value.dint m)) (of_word-to_word32 z r)))
      (to_word32-lt z)
round_trip TypeId.real order (Value.real w) i rs k e r room =
    two_words TypeId.real order (Value.real w) i w rs (omega arith) refl refl
      (λ rs' a b p q c. rw (vector_at-some rs' i p, vector_at-some rs' (i + 1) q, c) refl) r
round_trip t order v i rs k e r room = cc

decode_of_table :
    (p : ModbusPointMapping) (b : ReadBatch) (rs : List ℕ) (bits : List Bool)
    → is_bit_table p.register_type ≡ false
    → decode_modbus_point_value p b rs bits ≡ decode_register p.type p.word_order (offset_in p b) rs
unfolding decode_modbus_point_value
decode_of_table p b rs bits table = rw table

-- For a point of a register table and a value of the point's type in range: where the registers have
-- room at the point's offset, encoding succeeds, decoding gives the value back in either word order,
-- and no register outside the point's own is changed.
pub decode-encode :
    (p : ModbusPointMapping) (b : ReadBatch) (v : Value) (rs : List ℕ) (bits : List Bool)
    → is_bit_table p.register_type ≡ false
    → is_register_type p.type ≡ true
    → type_of v ≡ p.type
    → InRange v
    → offset_in p b + register_count p ≤ length rs
    → (rs' : List ℕ) × (encode_modbus_point_value p v (offset_in p b) rs ≡ ok rs')
      × (decode_modbus_point_value p b rs' bits ≡ ok v)
      × SameOutside (offset_in p b) (register_count p) rs rs'
unfolding encode_modbus_point_value
decode-encode p b v rs bits table k e r room =
    let (rs', enc, dec, same) = round_trip p.type p.word_order v (offset_in p b) rs k e r room in
    (rs', enc, decode_of_table p b rs' bits table ∙ dec, same)
