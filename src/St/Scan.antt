-- ===== src/St/Scan.antt =====
-- The characters under the lexer: classes, lookahead, and the loops that skip or collect them (st/lexer.cpp).
-- The source text from `pos_` on is the rest; reading beyond its end gives the character 0.
use soft_plc.Base.{
  ℕ, zero, suc, ◌+◌, ◌-◌, Bool, not, ◌&&◌, ◌||◌, none, some, [], ◌∷◌, ◌==◌, leb, Str, map,
  if◌then◌else◌, get_elem?, Result, ok, err, ◌>>=◌, out_of_fuel, unterminated_comment,
}

pub record Lexer : Type 0 where
  pub rest : Str
  pub line : ℕ
  pub column : ℕ

abbrev pub new_lexer : Str → Lexer
new_lexer source = record { rest = source; line = 1; column = 1 }

-- std::isdigit, std::isalpha and std::toupper of the C locale.
abbrev pub is_digit : ℕ → Bool
is_digit c = leb 48 c && leb c 57

abbrev pub is_upper : ℕ → Bool
is_upper c = leb 65 c && leb c 90

abbrev pub is_lower : ℕ → Bool
is_lower c = leb 97 c && leb c 122

abbrev pub is_alpha : ℕ → Bool
is_alpha c = is_upper c || is_lower c

abbrev pub is_word : ℕ → Bool
is_word c = (is_alpha c || is_digit c) || (c == b'_')

abbrev pub is_space : ℕ → Bool
is_space c = ((c == b' ') || (c == 9)) || ((c == 13) || (c == 10))

abbrev pub upper : ℕ → ℕ
upper c = if is_lower c then c - 32 else c

abbrev pub to_upper : Str → Str
to_upper s = map upper s

abbrev pub peek : ℕ → Lexer → ℕ
peek k s = elim (get_elem? s.rest k) [ none ↦ 0 | some c ↦ c ]

-- The lexer behind the character `c`, with `cs` ahead.
abbrev pub behind : ℕ → Str → ℕ → ℕ → Lexer
behind c cs line column =
    if c == 10
    then record { rest = cs; line = line + 1; column = 1 }
    else record { rest = cs; line = line; column = column + 1 }

unfoldable pub advance : Lexer → Lexer
advance s = elim s.rest [ [] ↦ s | c ∷ cs ↦ behind c cs s.line s.column ]

-- while (pos_ < source_.size() && p(peek())) word.push_back(advance());
-- `prefix` is the word, and `drop_prefix` the lexer behind it.
unfoldable pub prefix : (ℕ → Bool) → Str → Str
prefix p [] = []
prefix p (c ∷ cs) = let word = prefix p cs in if p c then c ∷ word else []

unfoldable pub drop_prefix : (ℕ → Bool) → Str → ℕ → ℕ → Lexer
drop_prefix p [] line column = record { rest = []; line = line; column = column }
drop_prefix p (c ∷ cs) line column =
    let next = drop_prefix p cs in
    if p c
    then (let s = behind c cs line column in next s.line s.column)
    else record { rest = c ∷ cs; line = line; column = column }

abbrev pub take_while : (ℕ → Bool) → Lexer → Str × Lexer
take_while p s = (prefix p s.rest, drop_prefix p s.rest s.line s.column)

-- match(expected)
abbrev pub matches : ℕ → Lexer → Bool
matches c s = peek 0 s == c

-- The loop to the end of a comment, and the two characters there.
unfoldable pub close_comment : Str → ℕ → ℕ → Result Lexer
unfolding advance
close_comment [] line column = err unterminated_comment
close_comment (c ∷ cs) line column =
    let next = close_comment cs in
    let here : Lexer = record { rest = c ∷ cs; line = line; column = column } in
    if (c == b'*') && (peek 1 here == b')')
    then ok (advance (advance here))
    else let s = behind c cs line column in next s.line s.column

-- skipWhitespaceAndComments
unfoldable pub skip_gap : ℕ → Lexer → Result Lexer
skip_gap zero s = err out_of_fuel
skip_gap (suc fuel) s =
    let next = skip_gap fuel in
    if is_space (peek 0 s)
    then next (advance s)
    else if (peek 0 s == b'/') && (peek 1 s == b'/')
    then next (take_while (λ c. not (c == 10)) s).1
    else if (peek 0 s == b'(') && (peek 1 s == b'*')
    then (let t = advance (advance s) in close_comment t.rest t.line t.column) >>= next
    else ok s
