-- ===== src/Tests/SampleFpu.antt =====
-- A floating-point unit that meets the laws: its doubles are the integers of at most 60 bits, and
-- results beyond them saturate.
use soft_plc.Base.{
  ℕ, ◌+◌, ◌-◌, ◌*◌, ◌/◌, ◌%◌, ◌<◌, ◌^◌, ◌≡◌, refl, ◌∙◌, true, false, ◌==◌, if◌then◌else◌, ltb,
  arith,
}
use soft_plc.Base.Int.{
  ℤ, pos, negsuc, ◌+ℤ◌, ◌-ℤ◌, ◌*ℤ◌, neg_ℤ, ◌≤ℤ◌, ltb_ℤ, leb_ℤ, beq_ℤ, neg_ℤ_parts,
}
use soft_plc.St.Fpu.{Fpu, FpuLaws, Exact, Represents, IsHuge, IsHugeNegative}

abbrev limit : ℕ
limit = 1152921504606846976

abbrev at_most : ℕ → ℕ → ℕ
at_most m n = if ltb m n then m else n

unfoldable pub encode : ℤ → ℕ
encode (pos n) = 2 * at_most limit n
encode (negsuc n) = 2 * at_most (limit - 1) n + 1

unfoldable pub decode : ℕ → ℤ
decode d = if d % 2 == 0 then pos (at_most limit (d / 2)) else negsuc (at_most (limit - 1) (d / 2))

unfoldable clamp : ℤ → ℤ
clamp (pos n) = pos (at_most limit n)
clamp (negsuc n) = negsuc (at_most (limit - 1) n)

decode-encode-clamp : (z : ℤ) → decode (encode z) ≡ clamp z
unfolding decode encode clamp
decode-encode-clamp (pos n) = ground arith
decode-encode-clamp (negsuc n) = ground arith

encode-lt : (z : ℤ) → encode z < 2 ^ 64
unfolding encode
encode-lt (pos n) = ground arith
encode-lt (negsuc n) = ground arith

clamp-within : (z : ℤ) → negsuc (limit - 1) ≤ℤ z → z ≤ℤ pos limit → clamp z ≡ z
unfolding clamp
clamp-within (pos n) h k = ground arith
clamp-within (negsuc n) h k = ground arith

clamp-Exact : (z : ℤ) → Exact z → clamp z ≡ z
clamp-Exact z h = clamp-within z (ground arith) (ground arith)

decode_bounds : (d : ℕ) → (negsuc (limit - 1) ≤ℤ decode d) × (decode d ≤ℤ pos limit)
unfolding decode
decode_bounds d = ground arith

abbrev pub sample_fpu : Fpu
sample_fpu = record {
  of_int = encode;
  of_int_float = λ z. encode z % 4294967296;
  widen = λ w. w % 4294967296;
  narrow = λ d. d % 4294967296;
  truncate = decode;
  is_finite = λ _. true;
  add = λ d e. encode (decode d +ℤ decode e);
  sub = λ d e. encode (decode d -ℤ decode e);
  mul = λ d e. encode (decode d *ℤ decode e);
  div = λ d e. 0;
  neg = λ d. encode (neg_ℤ (decode d));
  neg_float = λ d. encode (neg_ℤ (decode d)) % 4294967296;
  lt = λ d e. ltb_ℤ (decode d) (decode e);
  le = λ d e. leb_ℤ (decode d) (decode e);
  eq = λ d e. beq_ℤ (decode d) (decode e);
  eq_float = λ d e. beq_ℤ (decode d) (decode e);
  float_max = 2147483646;
}

decode-encode : (z : ℤ) → Exact z → decode (encode z) ≡ z
decode-encode z h = decode-encode-clamp z ∙ clamp-Exact z h

encode-Represents : (z : ℤ) → decode (encode z) ≡ z → Represents sample_fpu (encode z) z
encode-Represents z e = record {
  finite = refl;
  truncates = e;
  below = λ w h. rw (e, decode-encode w h);
  above = λ w h. rw (e, decode-encode w h);
}

clamp-neg : (z : ℤ) → negsuc (limit - 1) ≤ℤ z → z ≤ℤ pos limit → clamp (neg_ℤ z) ≡ neg_ℤ z
clamp-neg z h k =
    clamp-within (neg_ℤ z) (ground (arith, neg_ℤ_parts z)) (ground (arith, neg_ℤ_parts z))

decode-neg : (d : ℕ) → decode (encode (neg_ℤ (decode d))) ≡ neg_ℤ (decode d)
decode-neg d =
    decode-encode-clamp (neg_ℤ (decode d))
    ∙ clamp-neg (decode d) (decode_bounds d).0 (decode_bounds d).1

clamp-huge : (z w : ℤ) → pos (2 ^ 53) ≤ℤ z → w ≤ℤ pos (2 ^ 52) → ltb_ℤ w (clamp z) ≡ true
unfolding clamp
clamp-huge (pos n) w h k = ground arith
clamp-huge (negsuc n) w h k = ground arith

clamp-huge_negative :
    (z w : ℤ) → z ≤ℤ negsuc (2 ^ 53 - 1) → negsuc (2 ^ 52 - 1) ≤ℤ w → ltb_ℤ (clamp z) w ≡ true
unfolding clamp
clamp-huge_negative (pos n) w h k = ground arith
clamp-huge_negative (negsuc n) w h k = ground arith

mul-IsHuge :
    (d e : ℕ) (a b : ℤ)
    → decode d ≡ a
    → decode e ≡ b
    → pos (2 ^ 53) ≤ℤ a *ℤ b
    → IsHuge sample_fpu (encode (decode d *ℤ decode e))
mul-IsHuge d e a b p q h = record {
  finite = refl;
  beyond = λ w lo hi.
      rw (p, q, decode-encode-clamp (a *ℤ b), decode-encode w (ground arith, ground arith))
        (clamp-huge (a *ℤ b) w h hi);
}

mul-IsHugeNegative :
    (d e : ℕ) (a b : ℤ)
    → decode d ≡ a
    → decode e ≡ b
    → a *ℤ b ≤ℤ negsuc (2 ^ 53 - 1)
    → IsHugeNegative sample_fpu (encode (decode d *ℤ decode e))
mul-IsHugeNegative d e a b p q h = record {
  finite = refl;
  beyond = λ w lo hi.
      rw (p, q, decode-encode-clamp (a *ℤ b), decode-encode w (ground arith, ground arith))
        (clamp-huge_negative (a *ℤ b) w h lo);
}

bounds :
    (d : ℕ) (lo hi : ℤ)
    → Exact lo
    → Exact hi
    → ltb_ℤ (decode d) (decode (encode lo)) ≡ false
    → ltb_ℤ (decode (encode hi)) (decode d) ≡ false
    → (lo ≤ℤ decode d) × (decode d ≤ℤ hi)
bounds d lo hi l h p q = ordered (rw (decode-encode lo l) at p) (rw (decode-encode hi h) at q)
  where
    ordered :
        ltb_ℤ (decode d) lo ≡ false
        → ltb_ℤ hi (decode d) ≡ false
        → (lo ≤ℤ decode d) × (decode d ≤ℤ hi)
    ordered p q = (ground arith, ground arith)

result :
    (f : ℤ → ℤ → ℤ) (d e : ℕ) (a b : ℤ)
    → decode d ≡ a
    → decode e ≡ b
    → Exact (f a b)
    → Represents sample_fpu (encode (f (decode d) (decode e))) (f a b)
result f d e a b p q h = rw (p, q) (encode-Represents (f a b) (decode-encode (f a b) h))

pub sample_fpu_laws : FpuLaws sample_fpu
sample_fpu_laws = record {
  of_int-Represents = λ z h. encode-Represents z (decode-encode z h);
  add-Represents = λ d e a b p q h. result ◌+ℤ◌ d e a b p.truncates q.truncates h;
  sub-Represents = λ d e a b p q h. result ◌-ℤ◌ d e a b p.truncates q.truncates h;
  mul-Represents = λ d e a b p q h. result ◌*ℤ◌ d e a b p.truncates q.truncates h;
  mul-IsHuge = λ d e a b p q _ _ h. mul-IsHuge d e a b p.truncates q.truncates h;
  mul-IsHugeNegative = λ d e a b p q _ _ h. mul-IsHugeNegative d e a b p.truncates q.truncates h;
  neg-Represents =
      λ d a p. rw (← p.truncates) (encode-Represents (neg_ℤ (decode d)) (decode-neg d));
  truncate_bounds = λ d lo hi l h _ p q. bounds d lo hi l h p q;
  narrow-lt = λ d. ground arith;
  of_int-lt = λ z. encode-lt z;
  widen-lt = λ w. ground arith;
  add-lt = λ d e. encode-lt _;
  sub-lt = λ d e. encode-lt _;
  mul-lt = λ d e. encode-lt _;
  div-lt = λ d e. ground arith;
  neg-lt = λ d _. encode-lt _;
}
