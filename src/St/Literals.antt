-- ===== src/St/Literals.antt =====
-- Words and literals (st/lexer.cpp): TIME literals, strings, direct addresses, names and keywords. Loops that
-- do not follow the text one character at a time run on fuel, at 0 the model throws `out_of_fuel`.
use soft_plc.Base.{
  ℕ, zero, suc, ◌+◌, ◌-◌, ◌*◌, ◌%◌, Bool, not, ◌&&◌, ◌||◌, none, some, List, [], ◌∷◌, ◌==◌, ltb,
  Str, Str-eq, str_eq, codes, if◌then◌else◌, length, Result, ok, err, ◌>>=◌, ◌>>◌, out_of_fuel,
  out_of_range, unterminated_string, invalid_time_unit, invalid_time_literal, invalid_area,
  missing_byte_offset, missing_bit_offset, throw_if,
}
use soft_plc.Base.Assoc.{lookup}
use soft_plc.Base.Int.{ℤ, pos, negsuc, ◌+ℤ◌, ◌*ℤ◌, to_word, of_word, ltb_ℤ}
use soft_plc.Tags.Value.{MemoryArea, no_bit}
use soft_plc.St.Token.{TokenType, Token, new_token}
use soft_plc.St.Scan.{
  Lexer, is_digit, is_alpha, is_word, upper, to_upper, peek, advance, take_while, matches,
}

unfoldable pub keyword_table : List (Str × TokenType)
keyword_table =
    (codes "PROGRAM", TokenType.kw_program)
    ∷ (codes "END_PROGRAM", TokenType.kw_end_program)
    ∷ (codes "VAR", TokenType.kw_var)
    ∷ (codes "VAR_INPUT", TokenType.kw_var_input)
    ∷ (codes "VAR_OUTPUT", TokenType.kw_var_output)
    ∷ (codes "END_VAR", TokenType.kw_end_var)
    ∷ (codes "AT", TokenType.kw_at)
    ∷ (codes "IF", TokenType.kw_if)
    ∷ (codes "THEN", TokenType.kw_then)
    ∷ (codes "ELSIF", TokenType.kw_elsif)
    ∷ (codes "ELSE", TokenType.kw_else)
    ∷ (codes "END_IF", TokenType.kw_end_if)
    ∷ (codes "WHILE", TokenType.kw_while)
    ∷ (codes "DO", TokenType.kw_do)
    ∷ (codes "END_WHILE", TokenType.kw_end_while)
    ∷ (codes "AND", TokenType.kw_and)
    ∷ (codes "OR", TokenType.kw_or)
    ∷ (codes "XOR", TokenType.kw_xor)
    ∷ (codes "NOT", TokenType.kw_not)
    ∷ (codes "BOOL", TokenType.kw_bool)
    ∷ (codes "BYTE", TokenType.kw_byte)
    ∷ (codes "INT", TokenType.kw_int)
    ∷ (codes "DINT", TokenType.kw_dint)
    ∷ (codes "REAL", TokenType.kw_real)
    ∷ (codes "LREAL", TokenType.kw_lreal)
    ∷ (codes "TIME", TokenType.kw_time)
    ∷ (codes "STRING", TokenType.kw_string)
    ∷ (codes "FUNCTION_BLOCK", TokenType.kw_function_block)
    ∷ (codes "END_FUNCTION_BLOCK", TokenType.kw_end_function_block)
    ∷ (codes "FUNCTION", TokenType.kw_function)
    ∷ (codes "END_FUNCTION", TokenType.kw_end_function)
    ∷ (codes "VAR_TEMP", TokenType.kw_var_temp)
    ∷ (codes "DATA_BLOCK", TokenType.kw_data_block)
    ∷ (codes "END_DATA_BLOCK", TokenType.kw_end_data_block)
    ∷ (codes "RUNG", TokenType.kw_rung)
    ∷ (codes "SET", TokenType.kw_set)
    ∷ (codes "RESET", TokenType.kw_reset)
    ∷ []

-- -1 for a text that is no unit.
unfoldable pub time_unit_to_millis : Str → ℤ
time_unit_to_millis unit =
    if str_eq unit (codes "ms")
    then pos 1
    else if str_eq unit (codes "s")
    then pos 1000
    else if str_eq unit (codes "m")
    then pos 60000
    else if str_eq unit (codes "h")
    then pos 3600000
    else if str_eq unit (codes "d")
    then pos 86400000
    else negsuc 0

-- The number that decimal digits behind `n` give.
unfoldable pub digits_from : ℕ → Str → ℕ
digits_from n [] = n
digits_from n (c ∷ cs) = digits_from (n * 10 + (c - 48)) cs

-- std::stoi, std::stoll and std::stoul on decimal digits, for a type of `limit` values from 0 on.
abbrev pub stox : ℕ → Str → Result ℕ
stox limit s = let n = digits_from 0 s in if ltb n limit then ok n else err out_of_range

-- Numbers of int, of std::int64_t, and of unsigned long.
abbrev pub int_limit : ℕ
int_limit = 2147483648

abbrev pub int64_limit : ℕ
int64_limit = 9223372036854775808

abbrev pub ulong_limit : ℕ
ulong_limit = 18446744073709551616

-- A result of 64-bit arithmetic, wrapped around.
abbrev pub wrap64 : ℤ → ℤ
wrap64 z = of_word int64_limit (to_word ulong_limit z)

abbrev pub make_token : TokenType → Str → Lexer → Token
make_token type text s = new_token type text s.line s.column

-- A token at the position of the lexer `s`, whose value `f` fills in.
abbrev pub literal_at : Lexer → TokenType → Str → (Token → Token) → Token
literal_at s type text f = f (make_token type text s)

-- The loop over the parts of a TIME literal, with what the parts before add up to.
unfoldable pub time_parts : ℕ → ℤ → Lexer → Result (ℤ × Lexer)
time_parts zero total s = err out_of_fuel
time_parts (suc fuel) total s =
    let next = time_parts fuel in
    if not (is_digit (peek 0 s))
    then ok (total, s)
    else (let (digits, s1) = take_while is_digit s in
        let (unit, s2) = take_while is_alpha s1 in
        let per_unit = time_unit_to_millis unit in
        throw_if (ltb_ℤ per_unit (pos 0)) invalid_time_unit
        >> (stox int64_limit digits >>= λ n.
            next (wrap64 (total +ℤ wrap64 (pos n *ℤ per_unit)))
              (if matches b'_' s2 then advance s2 else s2)))

-- lexTimeLiteral, for a token that began at `start`.
unfoldable pub lex_time_literal : Lexer → Lexer → Result (Token × Lexer)
lex_time_literal start s =
    if not (is_digit (peek 0 s))
    then err invalid_time_literal
    else time_parts (suc (length s.rest)) (pos 0) s >>= λ (total, s').
        ok (literal_at start TokenType.time_literal [] (λ t. record t { time_value = total }), s')

unfoldable pub lex_identifier_or_keyword : Lexer → Token × Lexer
lex_identifier_or_keyword s =
    let (word, s') = take_while is_word s in
    let name = to_upper word in
    let tok : Token =
      if str_eq name (codes "TRUE") || str_eq name (codes "FALSE")
      then literal_at s TokenType.bool_literal word
          (λ t. record t { bool_value = str_eq name (codes "TRUE") })
      else elim (lookup name keyword_table) [
        | some type ↦ make_token type word s
        | none ↦ make_token TokenType.ident word s
      ] in
    (tok, s')

-- The case of a letter: a TIME literal, or a word.
unfoldable pub lex_word : Lexer → Result (Token × Lexer)
lex_word s =
    let (word, s') = take_while is_word s in
    let name = to_upper word in
    if (str_eq name (codes "T") || str_eq name (codes "TIME")) && matches b'#' s'
    then lex_time_literal s (advance s')
    else ok (lex_identifier_or_keyword s)

unfoldable pub lex_string : Lexer → Result (Token × Lexer)
lex_string s =
    let (value, s') = take_while (λ c. not (c == 39)) (advance s) in
    if length s'.rest == 0
    then err unterminated_string
    else ok (
      literal_at s TokenType.string_literal value (λ t. record t { string_value = value }),
      advance s',
    )

unfoldable pub lex_area : ℕ → Result MemoryArea
lex_area c =
    if upper c == b'I'
    then ok MemoryArea.input
    else if upper c == b'Q'
    then ok MemoryArea.output
    else if upper c == b'M'
    then ok MemoryArea.memory
    else err invalid_area

-- X, B, W, D or L.
abbrev pub is_designator : ℕ → Bool
is_designator c =
    let u = upper c in ((u == b'X') || (u == b'B')) || (((u == b'W') || (u == b'D')) || (u == b'L'))

-- The bit offset, if a point stands before it.
unfoldable pub lex_bit : Lexer → Result (ℕ × Lexer)
lex_bit s =
    if not (matches b'.' s)
    then ok (no_bit, s)
    else if not (is_digit (peek 0 (advance s)))
    then err missing_bit_offset
    else (let (digits, s') = take_while is_digit (advance s) in
        stox int_limit digits >>= λ n. ok (n % 256, s'))

unfoldable pub lex_address : Lexer → Result (Token × Lexer)
lex_address s = do
  area ← lex_area (peek 0 (advance s))
  let s1 = advance (advance s)
  let s2 = if is_designator (peek 0 s1) then advance s1 else s1
  throw_if (not (is_digit (peek 0 s2))) missing_byte_offset
  let digits = take_while is_digit s2
  (bit, s3) ← lex_bit digits.1
  n ← stox ulong_limit digits.0
  ok (
    literal_at s TokenType.address_literal [] (λ t. record t {
      address_value = record { area = area; byte_offset = n % 4294967296; bit_offset = bit };
    }),
    s3,
  )
