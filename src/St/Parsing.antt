-- ===== src/St/Parsing.antt =====
-- The tokens under the parser (st/parser.cpp): lookahead, and the steps that take a token. The state is the
-- current token and those ahead of it; at the last token the parser stays. A vector without tokens has no state.
pub mod Rules
pub mod Lists
use soft_plc.Base.{
  ℕ, zero, suc, ◌+◌, Bool, true, false, List, [], ◌∷◌, ◌++◌, ◌==◌, Str, codes, if◌then◌else◌,
  length, Result, ok, err, Error, out_of_fuel, expected_token,
}
use soft_plc.St.Token.{TokenType, Token, type_eq}

pub record Parser : Type 0 where
  pub current : Token
  pub ahead : List Token

abbrev pub Parse : Type 0 → Type 0
Parse A = Parser → Result (A × Parser)

-- The sequence of two steps. What is proved of a step goes through the rules of Parsing/Rules.antt, which alone
-- unfold it.
infixl 5 ◌>>=◌ ◌>>◌
unfoldable pub ◌>>=◌ : {A B : Type 0} → Parse A → (A → Parse B) → Parse B
◌>>=◌ m f s = elim (m s) [ ok r ↦ f r.0 r.1 | err e ↦ err e ]

abbrev pub ◌>>◌ : {A B : Type 0} → Parse A → Parse B → Parse B
m >> k = m >>= λ _. k

unfoldable pub pure : {A : Type 0} → A → Parse A
pure a s = ok (a, s)

-- error(message)
unfoldable pub fail : {A : Type 0} → Error → Parse A
fail e s = err e

unfoldable pub peek : Parse Token
peek s = ok (s.current, s)

unfoldable pub advance : Parse Token
advance s = elim s.ahead [
  | [] ↦ ok (s.current, s)
  | t ∷ ts ↦ ok (s.current, record { current = t; ahead = ts })
]

-- A step that may throw and takes no token.
unfoldable pub of_result : {A : Type 0} → Result A → Parse A
of_result r s = elim r [ ok a ↦ ok (a, s) | err e ↦ err e ]

-- The number of tokens ahead, which bounds the loops of the model.
unfoldable pub remaining : Parse ℕ
remaining s = ok (length s.ahead, s)

-- check(type)
abbrev pub check : TokenType → Parse Bool
check type = peek >>= λ tok. pure (type_eq tok.type type)

-- match(type)
abbrev pub matches : TokenType → Parse Bool
matches type = check type >>= λ here. if here then advance >> pure true else pure false

abbrev pub expect : TokenType → Parse Token
expect type = check type >>= λ here. if here then advance else fail expected_token

-- The text of the identifier that must follow.
abbrev pub expect_name : Parse Str
expect_name = expect TokenType.ident >>= λ tok. pure tok.text

unfoldable pub dotted_from : ℕ → Str → Parse Str
dotted_from zero name = fail out_of_fuel
dotted_from (suc fuel) name = do
  more ← matches TokenType.dot_sign
  if more
      then (expect_name >>= λ part. dotted_from fuel (name ++ (codes "." ++ part)))
      else pure name

unfoldable pub parse_dotted_identifier : Parse Str
parse_dotted_identifier = do name ← expect_name; n ← remaining; dotted_from (suc n) name

-- while (match(Comma)) items.push_back(item());
unfoldable pub more_items : {A : Type 0} → Parse A → ℕ → Parse (List A)
more_items item zero = fail out_of_fuel
more_items item (suc fuel) = do
  more ← matches TokenType.comma
  if more then (item >>= λ x. more_items item fuel >>= λ xs. pure (x ∷ xs)) else pure []

unfoldable pub comma_list : {A : Type 0} → Parse A → Parse (List A)
comma_list item = do x ← item; n ← remaining; xs ← more_items item (suc n); pure (x ∷ xs)

-- while (match(Semicolon)) {}
unfoldable pub skip_semicolons : ℕ → Parse (Unit {0})
skip_semicolons zero = fail out_of_fuel
skip_semicolons (suc fuel) = do
  more ← matches TokenType.semicolon
  if more then skip_semicolons fuel else pure tt
