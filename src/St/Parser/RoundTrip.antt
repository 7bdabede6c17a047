-- ===== src/St/Parser/RoundTrip.antt =====
-- The parser reads back every printed expression (parseExpression of st/parser.cpp).
use soft_plc.Base.{
  ℕ, zero, suc, ◌+◌, ◌≤◌, ◌≡◌, refl, ◌∙◌, ap, arith, Bool, true, false, Option, none, some, List,
  ◌∷◌, ◌++◌, Str, codes, length, expected_expression, if◌then◌else◌, ok, ltb,
}
use soft_plc.Base.Int.{pos, negsuc, to_word, of_word}
use soft_plc.Tags.Value.{Value}
use soft_plc.Tags.Store.{invalid_id}
use soft_plc.St.Ops.{UnaryOp, BinaryOp}
use soft_plc.St.Ast.{Expr, literal, identifier, unary, binary}
use soft_plc.St.Token.{TokenType, Token, new_token, type_eq}
use soft_plc.St.Parsing.{
  Parser, Parse, ◌>>=◌, ◌>>◌, pure, fail, peek, advance, remaining, expect, expect_name,
  dotted_from, parse_dotted_identifier,
}
use soft_plc.St.Parser.{
  literal_of, parse_primary, unary_op, unary_from, parse_unary, parse_multiplicative,
  parse_additive, parse_relational, parse_equality, parse_and, parse_xor, parse_or, expression_from,
  parse_expression, to_int32,
}
use soft_plc.St.Parser.Print.{
  plain, unary_token, binary_token, has_literal, literal_token, is_printable, first_token,
  print_rest,
}
use soft_plc.St.Parser.Levels.{
  on, levels, operator_in, bind-ok, climb-none, climb-one, binary_token-operator, paren-operator,
}

-- How deep parentheses nest in a printed expression, at most.
abbrev depth : Expr → ℕ
depth (literal v) = 0
depth (identifier name id) = 0
depth (unary op e) = suc (depth e)
depth (binary op l r) = suc (depth l + depth r)

length-print_rest :
    (e : Expr) (tail : List Token) → depth e + length tail ≤ length (print_rest e tail)
length-print_rest (literal v) tail = omega arith
length-print_rest (identifier name id) tail = omega arith
length-print_rest (unary op e) tail =
    omega (arith, length-print_rest e (plain TokenType.r_paren ∷ tail))
length-print_rest (binary op l r) tail =
    let rest = first_token r ∷ print_rest r (plain TokenType.r_paren ∷ tail) in
    omega (
      arith,
      length-print_rest l (plain (binary_token op) ∷ rest),
      length-print_rest r (plain TokenType.r_paren ∷ tail),
    )

to_int32-small : (n : ℕ) → ltb n 2147483648 ≡ true → to_int32 (pos n) ≡ pos n
unfolding to_word of_word
to_int32-small n h = ground arith

literal_of-token : (v : Value) → has_literal v ≡ true → literal_of (literal_token v) ≡ some v
unfolding literal_of
literal_of-token (Value.bool b) h = refl
literal_of-token (Value.byte n) h = cc
literal_of-token (Value.int z) h = cc
literal_of-token (Value.dint (pos n)) h = ap (λ x. some (Value.dint x)) (to_int32-small n h)
literal_of-token (Value.dint (negsuc n)) h = cc
literal_of-token (Value.real r) h = cc
literal_of-token (Value.lreal r) h = refl
literal_of-token (Value.time z) h = refl
literal_of-token (Value.string s) h = refl

-- The first token of an expression is not an operator of one operand.
unary_op-first : (e : Expr) → is_printable e ≡ true → unary_op (first_token e).type ≡ none
unfolding unary_op
unary_op-first (literal (Value.bool b)) h = refl
unary_op-first (literal (Value.byte n)) h = cc
unary_op-first (literal (Value.int z)) h = cc
unary_op-first (literal (Value.dint (pos n))) h = refl
unary_op-first (literal (Value.dint (negsuc n))) h = cc
unary_op-first (literal (Value.real r)) h = cc
unary_op-first (literal (Value.lreal r)) h = refl
unary_op-first (literal (Value.time z)) h = refl
unary_op-first (literal (Value.string s)) h = refl
unary_op-first (identifier name id) h = refl
unary_op-first (unary op e) h = refl
unary_op-first (binary op l r) h = refl

module _ (expr : Parse Expr) where
  primary-literal :
      (tok t : Token) (ts : List Token) (v : Value)
      → literal_of tok ≡ some v
      → parse_primary expr (on tok (t ∷ ts)) ≡ ok (literal v, on t ts)
  unfolding parse_primary ◌>>=◌ peek advance pure
  primary-literal tok t ts v e = ap (λ o. by_literal o (on tok (t ∷ ts))) e
    where
      by_literal : Option Value → Parse Expr
      by_literal o = elim o [
        | some v ↦ advance >> pure (literal v)
        | none ↦
            if type_eq tok.type TokenType.ident
            then (parse_dotted_identifier >>= λ name. pure (identifier name invalid_id))
            else if type_eq tok.type TokenType.l_paren
            then advance >> (expr >>= λ e. expect TokenType.r_paren >> pure e)
            else fail expected_expression
      ]

  primary-paren :
      (u t : Token) (us ts : List Token) (e : Expr)
      → expr (on u us) ≡ ok (e, on (plain TokenType.r_paren) (t ∷ ts))
      → parse_primary expr (on (plain TokenType.l_paren) (u ∷ us)) ≡ ok (e, on t ts)
  unfolding parse_primary literal_of ◌>>=◌ peek advance pure
  primary-paren u t us ts e h =
      bind-ok expr (λ x. expect TokenType.r_paren >> pure x) (on u us)
        (on (plain TokenType.r_paren) (t ∷ ts)) e h

  dotted_from-none :
      (n : ℕ) (name : Str) (t : Token) (ts : List Token)
      → type_eq t.type TokenType.dot_sign ≡ false
      → dotted_from (suc n) name (on t ts) ≡ ok (name, on t ts)
  unfolding dotted_from ◌>>=◌ peek pure
  dotted_from-none n name t ts e = ap (λ b. by_dot b (on t ts)) e
    where
      by_dot : Bool → Parse Str
      by_dot b = (if b then advance >> pure true else pure false) >>= λ more.
          if more
          then (expect_name >>= λ part. dotted_from n (name ++ (codes "." ++ part)))
          else pure name

  primary-identifier :
      (name : Str) (t : Token) (ts : List Token)
      → type_eq t.type TokenType.dot_sign ≡ false
      → parse_primary expr (on (new_token TokenType.ident name 1 1) (t ∷ ts))
        ≡ ok (identifier name invalid_id, on t ts)
  unfolding parse_primary literal_of parse_dotted_identifier ◌>>=◌ peek advance pure remaining
  primary-identifier name t ts e =
      bind-ok (dotted_from (suc (length ts)) name) (λ x. pure (identifier x invalid_id)) (on t ts)
        (on t ts) name (dotted_from-none (length ts) name t ts e)

  unary_from-none :
      (n : ℕ) (t : Token) (ts : List Token)
      → unary_op t.type ≡ none
      → unary_from expr (suc n) (on t ts) ≡ parse_primary expr (on t ts)
  unfolding unary_from ◌>>=◌ peek
  unary_from-none n t ts e = ap (λ o. by_operator o (on t ts)) e
    where
      by_operator : Option UnaryOp → Parse Expr
      by_operator o = elim o [
        | none ↦ parse_primary expr
        | some p ↦ advance >> (unary_from expr n >>= λ e. pure (unary p e))
      ]

  parse_unary-none :
      (t : Token) (ts : List Token)
      → unary_op t.type ≡ none
      → parse_unary expr (on t ts) ≡ parse_primary expr (on t ts)
  unfolding parse_unary ◌>>=◌ remaining
  parse_unary-none t ts e = unary_from-none (length ts) t ts e

  parse_unary-some :
      (op : UnaryOp) (v : Token) (vs : List Token) (e : Expr) (s' : Parser)
      → unary_op v.type ≡ none
      → parse_primary expr (on v vs) ≡ ok (e, s')
      → parse_unary expr (on (plain (unary_token op)) (v ∷ vs)) ≡ ok (unary op e, s')
  unfolding parse_unary unary_from unary_op ◌>>=◌ remaining peek advance pure
  parse_unary-some UnaryOp.neg v vs e s' free h =
      bind-ok (unary_from expr (suc (length vs))) (λ x. pure (unary UnaryOp.neg x)) (on v vs) s' e
        (unary_from-none (length vs) v vs free ∙ h)
  parse_unary-some UnaryOp.logical_not v vs e s' free h =
      bind-ok (unary_from expr (suc (length vs))) (λ x. pure (unary UnaryOp.logical_not x))
        (on v vs) s' e (unary_from-none (length vs) v vs free ∙ h)

binary_token-dot : (op : BinaryOp) → type_eq (binary_token op) TokenType.dot_sign ≡ false
binary_token-dot BinaryOp.add = refl
binary_token-dot BinaryOp.sub = refl
binary_token-dot BinaryOp.mul = refl
binary_token-dot BinaryOp.div = refl
binary_token-dot BinaryOp.eq = refl
binary_token-dot BinaryOp.ne = refl
binary_token-dot BinaryOp.lt = refl
binary_token-dot BinaryOp.gt = refl
binary_token-dot BinaryOp.le = refl
binary_token-dot BinaryOp.ge = refl
binary_token-dot BinaryOp.and = refl
binary_token-dot BinaryOp.or = refl
binary_token-dot BinaryOp.xor = refl

-- What is read of one operand with enough depth for its parentheses.
primary-print :
    (e : Expr) (d : ℕ) (t : Token) (ts : List Token)
    → is_printable e ≡ true
    → depth e ≤ d
    → type_eq t.type TokenType.dot_sign ≡ false
    → parse_primary (expression_from d) (on (first_token e) (print_rest e (t ∷ ts)))
      ≡ ok (e, on t ts)
unfolding expression_from parse_or parse_xor parse_and parse_equality parse_relational
    parse_additive parse_multiplicative levels
primary-print (literal v) d t ts h le e =
    primary-literal (expression_from d) (literal_token v) t ts v (literal_of-token v h)
primary-print (identifier name id) d t ts h le e =
    let unbound : invalid_id ≡ id = ground arith in
    primary-identifier (expression_from d) name t ts e
    ∙ ap (λ i. ok (identifier name i, on t ts)) unbound
primary-print (unary op x) zero t ts h le e = absurd (omega arith)
primary-print (unary op x) (suc d) t ts h le e =
    let close = plain TokenType.r_paren in
    primary-paren (expression_from (suc d)) (plain (unary_token op)) t
      (first_token x ∷ print_rest x (close ∷ t ∷ ts)) ts (unary op x)
      (climb-none levels (parse_unary (expression_from d)) _ (on close (t ∷ ts)) (unary op x)
        (parse_unary-some (expression_from d) op (first_token x) (print_rest x (close ∷ t ∷ ts)) x
          (on close (t ∷ ts)) (unary_op-first x h)
          (primary-print x d close (t ∷ ts) h (omega arith) refl))
        paren-operator)
primary-print (binary op l r) zero t ts h le e = absurd (omega arith)
primary-print (binary op l r) (suc d) t ts h le e =
    let close = plain TokenType.r_paren in
    let sign = plain (binary_token op) in
    let tail = print_rest r (close ∷ t ∷ ts) in
    let expr = expression_from d in
    let hl : is_printable l ≡ true = ground arith in
    let hr : is_printable r ≡ true = ground arith in
    primary-paren (expression_from (suc d)) (first_token l) t
      (print_rest l (sign ∷ first_token r ∷ tail)) ts (binary op l r)
      (climb-one levels (parse_unary expr) _ (on close (t ∷ ts)) l r sign (first_token r) tail op
        (binary_token-operator op) paren-operator
        (parse_unary-none expr (first_token l) _ (unary_op-first l hl)
          ∙ primary-print l d sign (first_token r ∷ tail) hl (omega arith) (binary_token-dot op))
        (parse_unary-none expr (first_token r) _ (unary_op-first r hr)
          ∙ primary-print r d close (t ∷ ts) hr (omega arith) refl))

-- The parser reads an expression back that was printed with parentheses round every operator: the same tree
-- comes out and the tokens behind it are left. It holds if the literals are such that the source can write them
-- (a DINT that is not negative, an LREAL, BOOL, TIME or STRING), names are not bound yet, and the token behind
-- is no operator between operands and no dot.
pub parse_expression-print :
    (e : Expr) (t : Token) (ts : List Token)
    → is_printable e ≡ true
    → operator_in levels t.type ≡ none
    → type_eq t.type TokenType.dot_sign ≡ false
    → parse_expression (on (first_token e) (print_rest e (t ∷ ts))) ≡ ok (e, on t ts)
unfolding parse_expression expression_from parse_or parse_xor parse_and parse_equality
    parse_relational parse_additive parse_multiplicative levels ◌>>=◌ remaining
parse_expression-print e t ts h last dot =
    let rest = print_rest e (t ∷ ts) in
    climb-none levels (parse_unary (expression_from (length rest))) _ (on t ts) e
      (parse_unary-none (expression_from (length rest)) (first_token e) rest (unary_op-first e h)
        ∙ primary-print e (length rest) t ts h (omega (arith, length-print_rest e (t ∷ ts))) dot)
      last
