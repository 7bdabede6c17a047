-- ===== src/St/Parser/Print.antt =====
-- Expressions printed as tokens, with parentheses round every operator.
use soft_plc.Base.{Bool, true, false, ◌&&◌, List, [], ◌∷◌, ◌==◌, ltb}
use soft_plc.Base.Int.{pos, negsuc}
use soft_plc.Tags.Value.{Value}
use soft_plc.Tags.Store.{invalid_id}
use soft_plc.St.Ops.{UnaryOp, BinaryOp}
use soft_plc.St.Ast.{Expr, literal, identifier, unary, binary}
use soft_plc.St.Token.{TokenType, Token, new_token}

abbrev pub plain : TokenType → Token
plain type = new_token type [] 1 1

abbrev pub unary_token : UnaryOp → TokenType
unary_token UnaryOp.neg = TokenType.minus
unary_token UnaryOp.logical_not = TokenType.kw_not

abbrev pub binary_token : BinaryOp → TokenType
binary_token BinaryOp.add = TokenType.plus
binary_token BinaryOp.sub = TokenType.minus
binary_token BinaryOp.mul = TokenType.star
binary_token BinaryOp.div = TokenType.slash
binary_token BinaryOp.eq = TokenType.eq_sign
binary_token BinaryOp.ne = TokenType.ne_sign
binary_token BinaryOp.lt = TokenType.lt_sign
binary_token BinaryOp.gt = TokenType.gt_sign
binary_token BinaryOp.le = TokenType.le_sign
binary_token BinaryOp.ge = TokenType.ge_sign
binary_token BinaryOp.and = TokenType.kw_and
binary_token BinaryOp.or = TokenType.kw_or
binary_token BinaryOp.xor = TokenType.kw_xor

-- The values that literals in expressions can have: a DINT that is not negative, LREAL, BOOL, TIME and STRING.
abbrev pub has_literal : Value → Bool
has_literal (Value.bool b) = true
has_literal (Value.byte n) = false
has_literal (Value.int z) = false
has_literal (Value.dint (pos n)) = ltb n 2147483648
has_literal (Value.dint (negsuc n)) = false
has_literal (Value.real r) = false
has_literal (Value.lreal r) = true
has_literal (Value.time z) = true
has_literal (Value.string s) = true

abbrev pub literal_token : Value → Token
literal_token (Value.bool b) = record (plain TokenType.bool_literal) { bool_value = b }
literal_token (Value.dint (pos n)) = record (plain TokenType.int_literal) { int_value = n }
literal_token (Value.lreal r) = record (plain TokenType.real_literal) { real_value = r }
literal_token (Value.time z) = record (plain TokenType.time_literal) { time_value = z }
literal_token (Value.string s) = record (plain TokenType.string_literal) { string_value = s }
literal_token _ = plain TokenType.int_literal

-- An expression as the parser makes them: such literals, and names that are not bound.
abbrev pub is_printable : Expr → Bool
is_printable (literal v) = has_literal v
is_printable (identifier name id) = id == invalid_id
is_printable (unary op e) = is_printable e
is_printable (binary op l r) = is_printable l && is_printable r

-- The first token of an expression, and those behind it, with `tail` behind the expression.
abbrev pub first_token : Expr → Token
first_token (literal v) = literal_token v
first_token (identifier name id) = new_token TokenType.ident name 1 1
first_token (unary op e) = plain TokenType.l_paren
first_token (binary op l r) = plain TokenType.l_paren

abbrev pub print_rest : Expr → List Token → List Token
print_rest (literal v) tail = tail
print_rest (identifier name id) tail = tail
print_rest (unary op e) tail =
    plain (unary_token op) ∷ first_token e ∷ print_rest e (plain TokenType.r_paren ∷ tail)
print_rest (binary op l r) tail =
    first_token l
    ∷ print_rest l
        (plain (binary_token op) ∷ first_token r ∷ print_rest r (plain TokenType.r_paren ∷ tail))
