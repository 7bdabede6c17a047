-- ===== src/Tests/Lexing.antt =====
-- A text with tokens of most kinds, and the theorems on the lexer at it.
use soft_plc.Base.{
  ℕ, ◌≡◌, ◌≢◌, refl, true, List, [], ◌∷◌, Str, codes, str_eq, ok, err, out_of_fuel, Result,
}
use soft_plc.Tags.Value.{MemoryArea}
use soft_plc.St.Token.{TokenType, Token, new_token, is_end}
use soft_plc.St.Scan.{advance, prefix, drop_prefix, skip_gap}
use soft_plc.St.Lexer.{lex_sign, lex_token, next_token, tokens_from, tokenize}
use soft_plc.St.Literals.{
  keyword_table, digits_from, lex_identifier_or_keyword, lex_word, lex_area, lex_bit, lex_address,
}
use soft_plc.St.Lexer.Ends.{ends_once, tokenize-ne-out_of_fuel, tokenize-ends_once}

abbrev pub no_reals : Str → Result ℕ
no_reals text = ok 0

pub no_reals-ends : (text : Str) → no_reals text ≢ err out_of_fuel
no_reals-ends text q = cc

abbrev sample_text : Str
sample_text = codes "x<=%Q1.7"

abbrev sample_tokens : List Token
sample_tokens =
    new_token TokenType.ident (codes "x") 1 1
    ∷ new_token TokenType.le_sign (codes "<=") 1 4
    ∷ record (new_token TokenType.address_literal [] 1 4) {
      address_value = record { area = MemoryArea.output; byte_offset = 1; bit_offset = 7 };
    }
    ∷ new_token TokenType.end_of_file [] 1 9
    ∷ []

sample_text-tokens : tokenize no_reals sample_text ≡ ok sample_tokens
unfolding advance str_eq prefix drop_prefix skip_gap keyword_table digits_from
    lex_identifier_or_keyword lex_word lex_area lex_bit lex_address lex_sign lex_token next_token
    tokens_from tokenize is_end
sample_text-tokens = refl

tokenize-ne-out_of_fuel_example : tokenize no_reals sample_text ≢ err out_of_fuel
tokenize-ne-out_of_fuel_example = tokenize-ne-out_of_fuel no_reals no_reals-ends sample_text

tokenize-ends_once_example : ends_once sample_tokens ≡ true
tokenize-ends_once_example =
    tokenize-ends_once no_reals no_reals-ends sample_text sample_tokens sample_text-tokens
