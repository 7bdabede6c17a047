-- ===== src/St/Lexer/Takes.antt =====
-- The tokens other than the end take some of the text (st/lexer.cpp).
use soft_plc.Base.{
  ℕ, suc, ◌<◌, ◌≤◌, ◌≡◌, inl, inr, refl, arith, Bool, true, false, not, ◌&&◌, ◌||◌, some, List, [],
  ◌∷◌, ◌==◌, Str, Str-eq, str_eq, codes, length, if◌then◌else◌, Bool-cases, Option-cases, throw_if,
  some_inj, invalid_time_literal, unterminated_string, invalid_area, missing_byte_offset,
  missing_bit_offset, unexpected_character,
}
use mathlib.Core.Path.{subst}
use soft_plc.Base.Assoc.{lookup}
use soft_plc.Base.Int.{pos}
use soft_plc.Tags.Value.{MemoryArea, no_bit}
use soft_plc.St.Token.{TokenType, Token, is_end}
use soft_plc.St.Scan.{Lexer, is_digit, is_word, upper, to_upper, peek, advance, take_while, matches}
use soft_plc.St.Lexer.{sign, sign2, lex_sign}
use soft_plc.St.Literals.{
  keyword_table, stox, int_limit, ulong_limit, time_parts, lex_time_literal,
  lex_identifier_or_keyword, lex_word, lex_string, lex_area, is_designator, lex_bit, lex_address,
}
use soft_plc.St.Lexer.Rules.{Ensures, Ensures-bind, Ensures-if, Ensures-done, Ensures-fail}
use soft_plc.St.Lexer.Left.{
  left, left-advance, left-take_while, left-take_while_lt, stox-Ensures, throw_if-Ensures,
  time_parts-Ensures,
}

-- A token that is not the end, and some text taken.
abbrev pub Takes : Lexer → Token × Lexer → Type 0
Takes s (t, s') = (is_end t.type ≡ false) × (left s' < left s)

abbrev no_end : List (Str × TokenType) → Bool
no_end [] = true
no_end ((k, t) ∷ m) = not (is_end t) && no_end m

lookup-no_end :
    (name : Str) (m : List (Str × TokenType)) {t : TokenType}
    → lookup name m ≡ some t
    → no_end m ≡ true
    → is_end t ≡ false
lookup-no_end name [] e h = cc
lookup-no_end name ((k, u) ∷ m) e h =
    let head : is_end u ≡ false = ground arith in
    let tail : no_end m ≡ true = ground arith in
    elim (Bool-cases (str_eq k name)) [
      | inl q ↦ subst (λ x. is_end x ≡ false) (some_inj (rw q at e)) head
      | inr q ↦ lookup-no_end name m (rw q at e) tail
    ]

keyword_table-no_end : no_end keyword_table ≡ true
unfolding keyword_table is_end
keyword_table-no_end = refl

lex_time_literal-Takes :
    (start s : Lexer) → left s < left start → Ensures (Takes start) (lex_time_literal start s)
unfolding lex_time_literal is_end
lex_time_literal-Takes start s lt =
    Ensures-if (Takes start) (not (is_digit (peek 0 s))) _ _
      (λ _. Ensures-fail (Takes start) invalid_time_literal (λ q. cc))
      λ _.
        Ensures-bind (λ r. left r.1 ≤ left s) (Takes start)
          (time_parts (suc (length s.rest)) (pos 0) s) _
          (time_parts-Ensures (suc (length s.rest)) (pos 0) s (omega arith))
          λ r le. Ensures-done (Takes start) _ (refl, omega arith)

lex_identifier_or_keyword-Takes :
    (s : Lexer) → left (take_while is_word s).1 < left s → Takes s (lex_identifier_or_keyword s)
unfolding lex_identifier_or_keyword is_end
lex_identifier_or_keyword-Takes s lt =
    let name = to_upper (take_while is_word s).0 in
    (
      elim (Bool-cases (str_eq name (codes "TRUE") || str_eq name (codes "FALSE"))) [
        | inl e ↦ rw e refl
        | inr e ↦ elim (Option-cases (lookup name keyword_table)) [
          | inl q ↦ rw (e, q) refl
          | inr (type, q) ↦ rw (e, q) (lookup-no_end name keyword_table q keyword_table-no_end)
        ]
      ],
      lt,
    )

pub lex_word-Takes :
    (s : Lexer) → is_word (peek 0 s) ≡ true → 0 < left s → Ensures (Takes s) (lex_word s)
unfolding lex_word
lex_word-Takes s h lt =
    let (word, s') = take_while is_word s in
    let fewer : left s' < left s = left-take_while_lt is_word s h lt in
    Ensures-if (Takes s)
      ((str_eq (to_upper word) (codes "T") || str_eq (to_upper word) (codes "TIME"))
        && matches b'#' s')
      _ _ (λ _. lex_time_literal-Takes s (advance s') (omega (arith, left-advance s')))
      (λ _.
        Ensures-done (Takes s) (lex_identifier_or_keyword s)
          (lex_identifier_or_keyword-Takes s fewer))

pub lex_string-Takes : (s : Lexer) → 0 < left s → Ensures (Takes s) (lex_string s)
unfolding lex_string is_end
lex_string-Takes s lt =
    let p : ℕ → Bool = λ c. not (c == 39) in
    let s' = (take_while p (advance s)).1 in
    Ensures-if (Takes s) (length s'.rest == 0) _ _
      (λ _. Ensures-fail (Takes s) unterminated_string (λ q. cc))
      λ _.
        Ensures-done (Takes s) _
          (refl, omega (arith, left-advance s, left-take_while p (advance s), left-advance s'))

lex_area-Ensures : (c : ℕ) → Ensures (λ _. Unit) (lex_area c)
unfolding lex_area
lex_area-Ensures c =
    let P : MemoryArea → Type 0 = λ _. Unit in
    Ensures-if P (upper c == b'I') _ _ (λ _. Ensures-done P _ tt)
      λ _.
        Ensures-if P (upper c == b'Q') _ _ (λ _. Ensures-done P _ tt)
          λ _.
            Ensures-if P (upper c == b'M') _ _ (λ _. Ensures-done P _ tt)
              λ _. Ensures-fail P invalid_area (λ q. cc)

lex_bit-Ensures : (s : Lexer) → Ensures (λ (r : ℕ × Lexer). left r.1 ≤ left s) (lex_bit s)
unfolding lex_bit
lex_bit-Ensures s =
    let P : ℕ × Lexer → Type 0 = λ r. left r.1 ≤ left s in
    let (digits, s') = take_while is_digit (advance s) in
    Ensures-if P (not (matches b'.' s)) _ _ (λ _. Ensures-done P (no_bit, s) (omega arith))
      λ _.
        Ensures-if P (not (is_digit (peek 0 (advance s)))) _ _
          (λ _. Ensures-fail P missing_bit_offset (λ q. cc))
          λ _.
            Ensures-bind (λ _. Unit) P (stox int_limit digits) _ (stox-Ensures int_limit digits)
              λ n _.
                Ensures-done P _
                  (omega (arith, left-advance s, left-take_while is_digit (advance s)))

pub lex_address-Takes : (s : Lexer) → 0 < left s → Ensures (Takes s) (lex_address s)
unfolding lex_address is_end
lex_address-Takes s lt =
    let s1 = advance (advance s) in
    let s2 = if is_designator (peek 0 s1) then advance s1 else s1 in
    let (digits, s3) = take_while is_digit s2 in
    let missing = not (is_digit (peek 0 s2)) in
    Ensures-bind (λ _. Unit) (Takes s) (lex_area (peek 0 (advance s))) _
      (lex_area-Ensures (peek 0 (advance s)))
      λ area _.
        Ensures-bind (λ _. Unit) (Takes s) (throw_if missing missing_byte_offset) _
          (throw_if-Ensures missing missing_byte_offset (λ q. cc))
          λ _ _.
            Ensures-bind (λ r. left r.1 ≤ left s3) (Takes s) (lex_bit s3) _ (lex_bit-Ensures s3)
              λ r le.
                Ensures-bind (λ _. Unit) (Takes s) (stox ulong_limit digits) _
                  (stox-Ensures ulong_limit digits)
                  λ n _. Ensures-done (Takes s) _ (
                    refl,
                    omega (
                      arith,
                      left-advance s,
                      left-advance (advance s),
                      designated s1,
                      left-take_while is_digit s2,
                    ),
                  )
  where
    designated : (t : Lexer) → left (if is_designator (peek 0 t) then advance t else t) ≤ left t
    designated t = elim (Bool-cases (is_designator (peek 0 t))) [
      | inl e ↦ rw e (omega (arith, left-advance t))
      | inr e ↦ rw e (omega arith)
    ]

sign-Takes :
    (s : Lexer) (type : TokenType) (text : Str)
    → 0 < left s
    → is_end type ≡ false
    → Ensures (Takes s) (sign s type text)
sign-Takes s type text lt h = Ensures-done (Takes s) _ (h, omega (arith, left-advance s))

sign2-Takes :
    (s : Lexer) (type : TokenType) (text : Str)
    → 0 < left s
    → is_end type ≡ false
    → Ensures (Takes s) (sign2 s type text)
sign2-Takes s type text lt h =
    Ensures-done (Takes s) _ (h, omega (arith, left-advance s, left-advance (advance s)))

pub lex_sign-Takes : (s : Lexer) → 0 < left s → Ensures (Takes s) (lex_sign s)
unfolding lex_sign is_end
lex_sign-Takes s lt =
    let c = peek 0 s in
    let d = peek 1 s in
    let P = Takes s in
    let one : (type : TokenType) (text : Str) → is_end type ≡ false → Ensures P (sign s type text) =
      λ type text h. sign-Takes s type text lt h in
    let two : (type : TokenType) (text : Str)
        → is_end type ≡ false
        → Ensures P (sign2 s type text) =
      λ type text h. sign2-Takes s type text lt h in
    Ensures-if P (c == b':') _ _
      (λ _. Ensures-if P (d == b'=') _ _ (λ _. two _ _ refl) (λ _. one _ _ refl))
      λ _.
        Ensures-if P (c == b';') _ _ (λ _. one _ _ refl)
          λ _.
            Ensures-if P (c == b'(') _ _ (λ _. one _ _ refl)
              λ _.
                Ensures-if P (c == b')') _ _ (λ _. one _ _ refl)
                  λ _.
                    Ensures-if P (c == b'+') _ _ (λ _. one _ _ refl)
                      λ _.
                        Ensures-if P (c == b'-') _ _ (λ _. one _ _ refl)
                          λ _.
                            Ensures-if P (c == b'*') _ _ (λ _. one _ _ refl)
                              λ _.
                                Ensures-if P (c == b'/') _ _ (λ _. one _ _ refl)
                                  λ _.
                                    Ensures-if P (c == b'=') _ _
                                      (λ _.
                                        Ensures-if P (d == b'>') _ _ (λ _. two _ _ refl)
                                          (λ _. one _ _ refl))
                                      λ _.
                                        Ensures-if P (c == b'.') _ _ (λ _. one _ _ refl)
                                          λ _.
                                            Ensures-if P (c == b',') _ _ (λ _. one _ _ refl)
                                              λ _.
                                                Ensures-if P (c == b'<') _ _
                                                  (λ _.
                                                    Ensures-if P (d == b'>') _ _ (λ _. two _ _ refl)
                                                      λ _.
                                                        Ensures-if P (d == b'=') _ _
                                                          (λ _. two _ _ refl) (λ _. one _ _ refl))
                                                  λ _.
                                                    Ensures-if P (c == b'>') _ _
                                                      (λ _.
                                                        Ensures-if P (d == b'=') _ _
                                                          (λ _. two _ _ refl) (λ _. one _ _ refl))
                                                      λ _.
                                                        Ensures-fail P unexpected_character
                                                          (λ q. cc)
