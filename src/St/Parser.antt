-- ===== src/St/Parser.antt =====
-- The parser (st/parser.cpp): literals, expressions and, in its children, statements and units. A parenthesis
-- nests an expression on a depth, the loops run on the number of tokens ahead; at 0 the model throws `out_of_fuel`.
pub mod Statements
pub mod Expressions
pub mod Lists
pub mod Ends
pub mod Print
pub mod Levels
pub mod RoundTrip
pub mod Units
use soft_plc.Base.{
  ℕ, zero, suc, ◌+◌, ◌-◌, ◌%◌, Bool, true, false, Option, none, some, List, [], ◌∷◌, Str,
  if◌then◌else◌, Result, ok, err, Error, out_of_fuel, cannot_negate, literal_type, expected_literal,
  expected_expression,
}
use soft_plc.Base.Int.{ℤ, pos, neg_ℤ, to_word, of_word}
use soft_plc.Tags.Value.{TypeId, Value}
use soft_plc.Tags.Store.{invalid_id}
use soft_plc.St.Fpu.{Fpu}
use soft_plc.St.Ops.{UnaryOp, BinaryOp}
use soft_plc.St.Ast.{Expr, literal, identifier, unary, binary}
use soft_plc.St.Token.{TokenType, Token, type_eq}
use soft_plc.St.Parsing.{
  Parser, Parse, ◌>>=◌, ◌>>◌, pure, fail, peek, advance, of_result, remaining, matches, expect,
  parse_dotted_identifier,
}

-- static_cast to std::int16_t, std::int32_t and std::int64_t.
abbrev pub to_int16 : ℤ → ℤ
to_int16 z = of_word 32768 (to_word 65536 z)

abbrev pub to_int32 : ℤ → ℤ
to_int32 z = of_word 2147483648 (to_word 4294967296 z)

abbrev pub to_int64 : ℤ → ℤ
to_int64 z = of_word 9223372036854775808 (to_word 18446744073709551616 z)

-- The operators of each level.
unfoldable pub or_op : TokenType → Option BinaryOp
or_op t = if type_eq t TokenType.kw_or then some BinaryOp.or else none

unfoldable pub xor_op : TokenType → Option BinaryOp
xor_op t = if type_eq t TokenType.kw_xor then some BinaryOp.xor else none

unfoldable pub and_op : TokenType → Option BinaryOp
and_op t = if type_eq t TokenType.kw_and then some BinaryOp.and else none

unfoldable pub equality_op : TokenType → Option BinaryOp
equality_op t =
    if type_eq t TokenType.eq_sign
    then some BinaryOp.eq
    else if type_eq t TokenType.ne_sign
    then some BinaryOp.ne
    else none

unfoldable pub relational_op : TokenType → Option BinaryOp
relational_op t =
    if type_eq t TokenType.lt_sign
    then some BinaryOp.lt
    else if type_eq t TokenType.gt_sign
    then some BinaryOp.gt
    else if type_eq t TokenType.le_sign
    then some BinaryOp.le
    else if type_eq t TokenType.ge_sign
    then some BinaryOp.ge
    else none

unfoldable pub additive_op : TokenType → Option BinaryOp
additive_op t =
    if type_eq t TokenType.plus
    then some BinaryOp.add
    else if type_eq t TokenType.minus
    then some BinaryOp.sub
    else none

unfoldable pub multiplicative_op : TokenType → Option BinaryOp
multiplicative_op t =
    if type_eq t TokenType.star
    then some BinaryOp.mul
    else if type_eq t TokenType.slash
    then some BinaryOp.div
    else none

-- The loop of a level: operators and operands, grouped to the left.
unfoldable pub operands : (TokenType → Option BinaryOp) → Parse Expr → ℕ → Expr → Parse Expr
operands op next zero l = fail out_of_fuel
operands op next (suc fuel) l = peek >>= λ tok. elim (op tok.type) [
  | none ↦ pure l
  | some o ↦ advance >> (next >>= λ r. operands op next fuel (binary o l r))
]

unfoldable pub level : (TokenType → Option BinaryOp) → Parse Expr → Parse Expr
level op next = do l ← next; n ← remaining; operands op next (suc n) l

-- A token that is a literal in an expression.
unfoldable pub literal_of : Token → Option Value
literal_of tok =
    if type_eq tok.type TokenType.int_literal
    then some (Value.dint (to_int32 (pos tok.int_value)))
    else if type_eq tok.type TokenType.real_literal
    then some (Value.lreal tok.real_value)
    else if type_eq tok.type TokenType.bool_literal
    then some (Value.bool tok.bool_value)
    else if type_eq tok.type TokenType.time_literal
    then some (Value.time tok.time_value)
    else if type_eq tok.type TokenType.string_literal
    then some (Value.string tok.string_value)
    else none

-- parsePrimary, with `expr` for an expression in parentheses.
unfoldable pub parse_primary : Parse Expr → Parse Expr
parse_primary expr = peek >>= λ tok. elim (literal_of tok) [
  | some v ↦ advance >> pure (literal v)
  | none ↦
      if type_eq tok.type TokenType.ident
      then (parse_dotted_identifier >>= λ name. pure (identifier name invalid_id))
      else if type_eq tok.type TokenType.l_paren
      then advance >> (expr >>= λ e. expect TokenType.r_paren >> pure e)
      else fail expected_expression
]

-- The operator of one operand that a token is.
unfoldable pub unary_op : TokenType → Option UnaryOp
unary_op t =
    if type_eq t TokenType.kw_not
    then some UnaryOp.logical_not
    else if type_eq t TokenType.minus
    then some UnaryOp.neg
    else none

unfoldable pub unary_from : Parse Expr → ℕ → Parse Expr
unary_from expr zero = fail out_of_fuel
unary_from expr (suc fuel) = peek >>= λ tok. elim (unary_op tok.type) [
  | none ↦ parse_primary expr
  | some o ↦ advance >> (unary_from expr fuel >>= λ e. pure (unary o e))
]

unfoldable pub parse_unary : Parse Expr → Parse Expr
parse_unary expr = remaining >>= λ n. unary_from expr (suc n)

unfoldable pub parse_multiplicative : Parse Expr → Parse Expr
parse_multiplicative expr = level multiplicative_op (parse_unary expr)

unfoldable pub parse_additive : Parse Expr → Parse Expr
parse_additive expr = level additive_op (parse_multiplicative expr)

unfoldable pub parse_relational : Parse Expr → Parse Expr
parse_relational expr = level relational_op (parse_additive expr)

unfoldable pub parse_equality : Parse Expr → Parse Expr
parse_equality expr = level equality_op (parse_relational expr)

unfoldable pub parse_and : Parse Expr → Parse Expr
parse_and expr = level and_op (parse_equality expr)

unfoldable pub parse_xor : Parse Expr → Parse Expr
parse_xor expr = level xor_op (parse_and expr)

unfoldable pub parse_or : Parse Expr → Parse Expr
parse_or expr = level or_op (parse_xor expr)

-- parseExpression with room for `depth` nested parentheses.
unfoldable pub expression_from : ℕ → Parse Expr
expression_from zero = fail out_of_fuel
expression_from (suc depth) = parse_or (expression_from depth)

unfoldable pub parse_expression : Parse Expr
parse_expression = remaining >>= λ n. expression_from (suc n)

module _ (fpu : Fpu) where
  unfoldable pub negate_literal : Value → Result Value
  negate_literal (Value.bool b) = err cannot_negate
  negate_literal (Value.string s) = err cannot_negate
  negate_literal (Value.byte n) = ok (Value.byte (to_word 256 (neg_ℤ (pos n))))
  negate_literal (Value.int z) = ok (Value.int (to_int16 (neg_ℤ z)))
  negate_literal (Value.dint z) = ok (Value.dint (to_int32 (neg_ℤ z)))
  negate_literal (Value.real r) = ok (Value.real (fpu.neg_float r))
  negate_literal (Value.lreal r) = ok (Value.lreal (fpu.neg r))
  negate_literal (Value.time z) = ok (Value.time (to_int64 (neg_ℤ z)))

  -- The value of an integer literal for a declared type.
  unfoldable pub integer_value : TypeId → ℕ → Result Value
  integer_value TypeId.byte n = ok (Value.byte (n % 256))
  integer_value TypeId.int n = ok (Value.int (to_int16 (pos n)))
  integer_value TypeId.dint n = ok (Value.dint (to_int32 (pos n)))
  integer_value TypeId.real n = ok (Value.real (fpu.of_int_float (pos n)))
  integer_value TypeId.lreal n = ok (Value.lreal (fpu.of_int (pos n)))
  integer_value _ n = err literal_type

  unfoldable pub real_value : TypeId → ℕ → Result Value
  real_value TypeId.real r = ok (Value.real (fpu.narrow r))
  real_value TypeId.lreal r = ok (Value.lreal r)
  real_value _ r = err literal_type

  -- The switch of parseLiteralValue.
  unfoldable pub token_value : TypeId → Token → Result Value
  token_value type tok =
      if type_eq tok.type TokenType.int_literal
      then integer_value type tok.int_value
      else if type_eq tok.type TokenType.real_literal
      then real_value type tok.real_value
      else if type_eq tok.type TokenType.bool_literal
      then (elim type [ TypeId.bool ↦ ok (Value.bool tok.bool_value) | _ ↦ err literal_type ])
      else if type_eq tok.type TokenType.time_literal
      then (elim type [ TypeId.time ↦ ok (Value.time tok.time_value) | _ ↦ err literal_type ])
      else if type_eq tok.type TokenType.string_literal
      then (elim type [ TypeId.string ↦ ok (Value.string tok.string_value) | _ ↦ err literal_type ])
      else err expected_literal

  unfoldable pub parse_literal_value : TypeId → Parse Value
  parse_literal_value type = do
    negative ← matches TokenType.minus
    tok ← advance
    v ← of_result (token_value type tok)
    if negative then of_result (negate_literal v) else pure v
