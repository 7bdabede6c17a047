-- ===== src/St/Lexer/Ends.antt =====
-- The lexer reads to the end of the text and stops there (Lexer::tokenize of st/lexer.cpp).
use soft_plc.Base.{
  ℕ, zero, suc, ◌<◌, ◌≤◌, ◌≡◌, ◌≢◌, ◌⊎◌, inl, inr, refl, ap, arith, Bool, true, false, ◌&&◌, ◌||◌,
  List, [], ◌∷◌, ◌++◌, ◌==◌, Str, Str-eq, length, if◌then◌else◌, Result, ok, err, out_of_fuel,
}
use soft_plc.St.Token.{Token, is_end}
use soft_plc.St.Scan.{
  Lexer, new_lexer, is_digit, is_alpha, is_word, peek, advance, take_while, matches, skip_gap,
}
use soft_plc.St.Lexer.{lex_number, lex_token, next_token, tokens_from, tokenize}
use soft_plc.St.Literals.{stox, int64_limit}
use soft_plc.St.Lexer.Rules.{
  Ensures, Ensures-bind, Ensures-if, Ensures-weaken, Ensures-done, Ensures-fail, Ensures-ne,
  Ensures-ok,
}
use soft_plc.St.Lexer.Left.{
  left, left-advance, left-take_while, left-take_while_lt, peek-lt, digit-lt, skip_gap-Ensures,
  stox-Ensures,
}
use soft_plc.St.Lexer.Takes.{
  Takes, lex_word-Takes, lex_string-Takes, lex_address-Takes, lex_sign-Takes,
}

-- The end of the text, or a token that takes some of it.
abbrev Reads : Lexer → Token × Lexer → Type 0
Reads s (t, s') = (is_end t.type ≡ true) ⊎ Takes s (t, s')

-- The only token of the end is the last one.
unfoldable pub ends_once : List Token → Bool
ends_once [] = false
ends_once (t ∷ ts) = let rest = ends_once ts in if is_end t.type then length ts == 0 else rest

module _ (stod : Str → Result ℕ) (stod_ends : (text : Str) → stod text ≢ err out_of_fuel) where
  stod-Ensures : (text : Str) → Ensures (λ _. Unit) (stod text)
  stod-Ensures text = after (stod text) (stod_ends text)
    where
      after : (r : Result ℕ) → r ≢ err out_of_fuel → Ensures (λ _. Unit) r
      after (ok v) h = Ensures-done (λ _. Unit) v tt
      after (err e) h = Ensures-fail (λ _. Unit) e (λ q. h (ap err q))

  lex_number-Takes :
      (s : Lexer) → is_digit (peek 0 s) ≡ true → Ensures (Takes s) (lex_number stod s)
  unfolding lex_number is_end
  lex_number-Takes s h =
      let (whole, s1) = take_while is_digit s in
      let (part, s2) = take_while is_digit (advance s1) in
      let text = whole ++ (b'.' ∷ part) in
      let fewer : left s1 < left s =
        left-take_while_lt is_digit s h (peek-lt s (digit-lt (peek 0 s) h)) in
      Ensures-if (Takes s) (matches b'.' s1 && is_digit (peek 1 s1)) _ _
        (λ _.
          Ensures-bind (λ _. Unit) (Takes s) (stod text) _ (stod-Ensures text)
            λ v _.
              Ensures-done (Takes s) _
                (refl, omega (arith, left-advance s1, left-take_while is_digit (advance s1))))
        (λ _.
          Ensures-bind (λ _. Unit) (Takes s) (stox int64_limit whole) _
            (stox-Ensures int64_limit whole) λ n _. Ensures-done (Takes s) _ (refl, fewer))

  lex_token-Reads : (s : Lexer) → Ensures (Reads s) (lex_token stod s)
  unfolding lex_token is_end
  lex_token-Reads s =
      let c = peek 0 s in
      let P = Reads s in
      let takes : (m : Result (Token × Lexer)) → Ensures (Takes s) m → Ensures P m =
        λ m h. Ensures-weaken (Takes s) P m h (λ a k. inr k) in
      Ensures-if P (length s.rest == 0) _ _ (λ _. Ensures-done P _ (inl refl))
        λ some_left.
          let lt : 0 < left s = nonempty (length s.rest) some_left in
          Ensures-if P (is_digit c) _ _ (λ h. takes _ (lex_number-Takes s h))
            λ _.
              Ensures-if P (is_alpha c || (c == b'_')) _ _
                (λ h. takes _ (lex_word-Takes s (alpha-is_word c h) lt))
                λ _.
                  Ensures-if P (c == 39) _ _ (λ _. takes _ (lex_string-Takes s lt))
                    λ _.
                      Ensures-if P (c == b'%') _ _ (λ _. takes _ (lex_address-Takes s lt))
                        λ _. takes _ (lex_sign-Takes s lt)
    where
      nonempty : (n : ℕ) → (n == 0) ≡ false → 0 < n
      nonempty n h = ground arith

      alpha-is_word : (c : ℕ) → (is_alpha c || (c == b'_')) ≡ true → is_word c ≡ true
      alpha-is_word c h = ground arith

  next_token-Reads : (s : Lexer) → Ensures (Reads s) (next_token stod s)
  unfolding next_token
  next_token-Reads s =
      Ensures-bind (λ t. left t ≤ left s) (Reads s) (skip_gap (suc (length s.rest)) s) _
        (skip_gap-Ensures (suc (length s.rest)) s (omega arith))
        λ t le.
          Ensures-weaken (Reads t) (Reads s) _ (lex_token-Reads t)
            λ r h. elim h [ inl e ↦ inl e | inr (e, lt) ↦ inr (e, omega arith) ]

  tokens_from-Ensures :
      (fuel : ℕ) (s : Lexer)
      → left s < fuel
      → Ensures (λ ts. ends_once ts ≡ true) (tokens_from stod fuel s)
  unfolding tokens_from ends_once
  tokens_from-Ensures zero s lt = absurd (omega arith)
  tokens_from-Ensures (suc fuel) s lt =
      let P : List Token → Type 0 = λ ts. ends_once ts ≡ true in
      Ensures-bind (Reads s) P (next_token stod s) _ (next_token-Reads s) λ (t, s') h.
        Ensures-if P (is_end t.type) _ _ (λ e. Ensures-done P _ (rw e refl))
          λ e.
            let fewer : left s' < left s = elim h [ inl q ↦ absurd (cc (q, e)) | inr (_, k) ↦ k ] in
            Ensures-bind P P (tokens_from stod fuel s') _
              (tokens_from-Ensures fuel s' (omega arith)) λ ts k. Ensures-done P _ (rw e k)

  -- The lexer comes to an end on every text, given that the conversion of real literals does: each of its
  -- tokens and gaps takes some of the text, so the fuel, one more than the text is long, is never used up.
  pub tokenize-ne-out_of_fuel : (source : Str) → tokenize stod source ≢ err out_of_fuel
  unfolding tokenize
  tokenize-ne-out_of_fuel source =
      Ensures-ne (λ ts. ends_once ts ≡ true) _
        (tokens_from-Ensures (suc (length source)) (new_lexer source) (omega arith))

  -- The tokens of a text that the lexer accepts are terminated by a single end of file: the last token is one, and no
  -- other is, given that the conversion of real literals ends.
  pub tokenize-ends_once :
      (source : Str) (tokens : List Token)
      → tokenize stod source ≡ ok tokens
      → ends_once tokens ≡ true
  unfolding tokenize
  tokenize-ends_once source tokens e =
      Ensures-ok (λ ts. ends_once ts ≡ true) _ tokens e
        (tokens_from-Ensures (suc (length source)) (new_lexer source) (omega arith))
