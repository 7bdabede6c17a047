-- ===== src/St/Lexer.antt =====
-- The lexer (st/lexer.cpp). The value of a real literal, which std::stod computes, is a parameter. The loops
-- that do not follow the text one character at a time run on fuel, at 0 the model throws `out_of_fuel`.
pub mod Rules
pub mod Left
pub mod Takes
pub mod Ends
use soft_plc.Base.{
  ℕ, zero, suc, ◌+◌, ◌-◌, ◌*◌, ◌%◌, Bool, true, false, not, ◌&&◌, ◌||◌, Option, none, some, List,
  [], ◌∷◌, ◌++◌, ◌==◌, leb, ltb, Str, Str-eq, str_eq, codes, if◌then◌else◌, length, Result, ok, err,
  ◌>>=◌, ◌>>◌, out_of_fuel, out_of_range, unterminated_string, unexpected_character,
  invalid_time_unit, invalid_time_literal, invalid_area, missing_byte_offset, missing_bit_offset,
  throw_if,
}
use soft_plc.Base.Assoc.{lookup}
use soft_plc.Base.Int.{ℤ, pos, negsuc, ◌+ℤ◌, ◌*ℤ◌, to_word, of_word, ltb_ℤ}
use soft_plc.Tags.Value.{Address, MemoryArea, no_bit}
use soft_plc.St.Token.{TokenType, Token, new_token, is_end}
use soft_plc.St.Scan.{
  Lexer, new_lexer, is_digit, is_alpha, is_word, upper, to_upper, peek, advance, take_while,
  matches, skip_gap,
}
use soft_plc.St.Literals.{
  digits_from, int64_limit, int_limit, is_designator, keyword_table, lex_address, lex_area, lex_bit,
  lex_identifier_or_keyword, lex_string, lex_time_literal, lex_word, literal_at, make_token, stox,
  time_parts, time_unit_to_millis, ulong_limit, wrap64,
}

-- An operator of one character, or of two if a second one follows.
abbrev pub sign : Lexer → TokenType → Str → Result (Token × Lexer)
sign s type text = let s' = advance s in ok (make_token type text s', s')

abbrev pub sign2 : Lexer → TokenType → Str → Result (Token × Lexer)
sign2 s type text = let s' = advance (advance s) in ok (make_token type text s', s')

unfoldable pub lex_sign : Lexer → Result (Token × Lexer)
lex_sign s =
    let c = peek 0 s in
    let d = peek 1 s in
    if c == b':'
    then if d == b'='
      then sign2 s TokenType.assign_sign (codes ":=")
      else sign s TokenType.colon (codes ":")
    else if c == b';'
    then sign s TokenType.semicolon (codes ";")
    else if c == b'('
    then sign s TokenType.l_paren (codes "(")
    else if c == b')'
    then sign s TokenType.r_paren (codes ")")
    else if c == b'+'
    then sign s TokenType.plus (codes "+")
    else if c == b'-'
    then sign s TokenType.minus (codes "-")
    else if c == b'*'
    then sign s TokenType.star (codes "*")
    else if c == b'/'
    then sign s TokenType.slash (codes "/")
    else if c == b'='
    then if d == b'>'
      then sign2 s TokenType.r_arrow (codes "=>")
      else sign s TokenType.eq_sign (codes "=")
    else if c == b'.'
    then sign s TokenType.dot_sign (codes ".")
    else if c == b','
    then sign s TokenType.comma (codes ",")
    else if c == b'<'
    then if d == b'>'
      then sign2 s TokenType.ne_sign (codes "<>")
      else if d == b'='
      then sign2 s TokenType.le_sign (codes "<=")
      else sign s TokenType.lt_sign (codes "<")
    else if c == b'>'
    then if d == b'='
      then sign2 s TokenType.ge_sign (codes ">=")
      else sign s TokenType.gt_sign (codes ">")
    else err unexpected_character

module _ (stod : Str → Result ℕ) where
  unfoldable pub lex_number : Lexer → Result (Token × Lexer)
  lex_number s =
      let (whole, s1) = take_while is_digit s in
      if matches b'.' s1 && is_digit (peek 1 s1)
      then (let (part, s2) = take_while is_digit (advance s1) in
          let text = whole ++ (b'.' ∷ part) in
          stod text >>= λ v.
          ok (literal_at s TokenType.real_literal text (λ t. record t { real_value = v }), s2))
      else stox int64_limit whole >>= λ n.
          ok (literal_at s TokenType.int_literal whole (λ t. record t { int_value = n }), s1)

  -- nextToken behind the gap.
  unfoldable pub lex_token : Lexer → Result (Token × Lexer)
  lex_token s =
      let c = peek 0 s in
      if length s.rest == 0
      then ok (make_token TokenType.end_of_file [] s, s)
      else if is_digit c
      then lex_number s
      else if is_alpha c || (c == b'_')
      then lex_word s
      else if c == 39
      then lex_string s
      else if c == b'%'
      then lex_address s
      else lex_sign s

  unfoldable pub next_token : Lexer → Result (Token × Lexer)
  next_token s = skip_gap (suc (length s.rest)) s >>= lex_token

  unfoldable pub tokens_from : ℕ → Lexer → Result (List Token)
  tokens_from zero s = err out_of_fuel
  tokens_from (suc fuel) s = do
    (tok, s') ← next_token s
    let next = tokens_from fuel
    if is_end tok.type then ok (tok ∷ []) else (next s' >>= λ rest. ok (tok ∷ rest))

  unfoldable pub tokenize : Str → Result (List Token)
  tokenize source = tokens_from (suc (length source)) (new_lexer source)
