-- ===== src/St/Parser/Expressions.antt =====
-- Expressions and literals take tokens, and the depth is enough (st/parser.cpp).
use soft_plc.Base.{
  ℕ, zero, suc, ◌<◌, ◌≤◌, ◌≡◌, refl, arith, inl, inr, false, Option, some, Option-cases,
  expected_expression,
}
use soft_plc.Tags.Value.{TypeId, Value}
use soft_plc.St.Fpu.{Fpu}
use soft_plc.St.Ops.{BinaryOp}
use soft_plc.St.Token.{TokenType, Token, type_eq, is_end}
use soft_plc.St.Parsing.{Parse, advance, of_result, matches, expect, parse_dotted_identifier}
use soft_plc.St.Parsing.Rules.{
  Runs, Runs-lower, Runs-seq, Runs-take, Runs-pure, Runs-fail, Runs-of_result, Runs-remaining,
  Runs-if, RunsAt-if, RunsAt-any, RunsAt-lower, Runs-peek, RunsAt-advance, advance-Runs,
  expect-Runs, matches-Runs, type_eq-not_end,
}
use soft_plc.St.Interp.Fuel.{HasFuel}
use soft_plc.St.Parsing.Lists.{parse_dotted_identifier-Runs}
use soft_plc.St.Ast.{Expr}
use soft_plc.St.Parser.{
  or_op, xor_op, and_op, equality_op, relational_op, additive_op, multiplicative_op, operands,
  level, literal_of, parse_primary, unary_op, unary_from, parse_unary, parse_multiplicative,
  parse_additive, parse_relational, parse_equality, parse_and, parse_xor, parse_or, expression_from,
  parse_expression, negate_literal, integer_value, real_value, token_value, parse_literal_value,
}

-- A table of token types that does not have the end.
abbrev pub IsOpen : {A : Type 0} → (TokenType → Option A) → Type 0
IsOpen {A} op = (t : TokenType) (o : A) → op t ≡ some o → is_end t ≡ false

module _ (op : TokenType → Option BinaryOp) (next : Parse Expr) (bound : ℕ) (open_op : IsOpen op)
    (hn : (n : ℕ) → n ≤ bound → Runs n 1 next) where
  operands-Runs :
      (n fuel : ℕ) (l : Expr) → n ≤ bound → n < fuel → Runs n 0 (operands op next fuel l)
  unfolding operands
  operands-Runs n zero l le lt = absurd (omega arith)
  operands-Runs n (suc fuel) l le lt = Runs-peek n 0 _ λ tok. elim (Option-cases (op tok.type)) [
    | inl e ↦ rw (e, operands) (RunsAt-any n tok 0 _ (Runs-pure n l))
    | inr (o, e) ↦
        rw (e, operands)
          (RunsAt-lower n tok 1 _ (
            RunsAt-advance n tok _ (open_op tok.type o e) λ n2 _ lt2. Runs-lower n2 1 _ (
              Runs-take n2 next _ (hn n2 (omega arith))
                λ n3 r lt3. operands-Runs n3 fuel _ (omega arith) (omega arith))))
  ]

  pub level-Runs : (n : ℕ) → n ≤ bound → Runs n 1 (level op next)
  unfolding level
  level-Runs n le = Runs-take n next _ (hn n le) λ n' l lt.
      Runs-remaining n' 0 _ λ m le'. operands-Runs m (suc m) l (omega arith) (omega arith)

ops-IsOpen :
    IsOpen or_op
    × IsOpen xor_op
    × IsOpen and_op
    × IsOpen equality_op
    × IsOpen relational_op
    × IsOpen additive_op
    × IsOpen multiplicative_op
    × IsOpen unary_op
unfolding or_op xor_op and_op equality_op relational_op additive_op multiplicative_op unary_op
    is_end
ops-IsOpen = (
  λ t o e. ground arith,
  λ t o e. ground arith,
  λ t o e. ground arith,
  λ t o e. ground arith,
  λ t o e. ground arith,
  λ t o e. ground arith,
  λ t o e. ground arith,
  λ t o e. ground arith,
)

literal_of-not_end : (tok : Token) (v : Value) → literal_of tok ≡ some v → is_end tok.type ≡ false
unfolding literal_of is_end
literal_of-not_end tok v e = ground arith

module _ (expr : Parse Expr) (bound : ℕ) (hx : (n : ℕ) → n < bound → Runs n 1 expr) where
  parse_primary-Runs : (n : ℕ) → n ≤ bound → Runs n 1 (parse_primary expr)
  unfolding parse_primary is_end
  parse_primary-Runs n le = Runs-peek n 1 _ λ tok. elim (Option-cases (literal_of tok)) [
    | inr (v, e) ↦
        rw (e, parse_primary)
          (RunsAt-advance n tok _ (literal_of-not_end tok v e) λ n' _ lt. Runs-pure n' _)
    | inl e ↦
        rw (e, parse_primary)
          (RunsAt-if n tok 1 (type_eq tok.type TokenType.ident) _ _
            (λ _. RunsAt-any n tok 1 _ (
              Runs-take n parse_dotted_identifier _ (parse_dotted_identifier-Runs n)
                λ n' name lt. Runs-pure n' _))
            λ _.
              RunsAt-if n tok 1 (type_eq tok.type TokenType.l_paren) _ _
                (λ q.
                  RunsAt-advance n tok _ (type_eq-not_end tok.type TokenType.l_paren q refl)
                    λ n1 _ lt1. Runs-lower n1 1 _ (
                      Runs-take n1 expr _ (hx n1 (omega arith)) λ n2 e2 lt2. Runs-lower n2 1 _ (
                        Runs-take n2 (expect TokenType.r_paren) _
                          (expect-Runs n2 TokenType.r_paren refl) λ n3 _ lt3. Runs-pure n3 _)))
                (λ _. RunsAt-any n tok 1 _ (Runs-fail n 1 expected_expression (λ q. cc))))
  ]

  unary_from-Runs : (n fuel : ℕ) → n ≤ bound → n < fuel → Runs n 1 (unary_from expr fuel)
  unfolding unary_from
  unary_from-Runs n zero le lt = absurd (omega arith)
  unary_from-Runs n (suc fuel) le lt = Runs-peek n 1 _ λ tok.
      elim (Option-cases (unary_op tok.type)) [
        | inl e ↦ rw (e, unary_from) (RunsAt-any n tok 1 _ (parse_primary-Runs n le))
        | inr (o, e) ↦
            rw (e, unary_from)
              (RunsAt-advance n tok _
                ((let (o, x, a, e, r, d, m, u) = ops-IsOpen in u) tok.type o e)
                λ n2 _ lt2. Runs-lower n2 1 _ (
                  Runs-take n2 _ _ (unary_from-Runs n2 fuel (omega arith) (omega arith))
                    λ n3 r lt3. Runs-pure n3 _))
      ]

  parse_unary-Runs : (n : ℕ) → n ≤ bound → Runs n 1 (parse_unary expr)
  unfolding parse_unary
  parse_unary-Runs n le =
      Runs-remaining n 1 _ λ m le'. unary_from-Runs m (suc m) (omega arith) (omega arith)

  parse_or-Runs : (n : ℕ) → n ≤ bound → Runs n 1 (parse_or expr)
  unfolding parse_or parse_xor parse_and parse_equality parse_relational parse_additive
      parse_multiplicative
  parse_or-Runs =
      let (o, x, a, e, r, d, m, u) = ops-IsOpen in
      level-Runs or_op _ bound o (
        level-Runs xor_op _ bound x (
          level-Runs and_op _ bound a (
            level-Runs equality_op _ bound e (
              level-Runs relational_op _ bound r (
                level-Runs additive_op _ bound d
                  (level-Runs multiplicative_op _ bound m parse_unary-Runs))))))

expression_from-Runs : (n depth : ℕ) → n < depth → Runs n 1 (expression_from depth)
unfolding expression_from
expression_from-Runs n zero lt = absurd (omega arith)
expression_from-Runs n (suc depth) lt =
    parse_or-Runs (expression_from depth) n (λ m lt'. expression_from-Runs m depth (omega arith)) n
      (omega arith)

pub parse_expression-Runs : (n : ℕ) → Runs n 1 parse_expression
unfolding parse_expression
parse_expression-Runs n = Runs-remaining n 1 _ λ m le. expression_from-Runs m (suc m) (omega arith)

module _ (fpu : Fpu) where
  negate_literal-HasFuel : (v : Value) → HasFuel (negate_literal fpu v)
  unfolding negate_literal
  negate_literal-HasFuel v q = ground arith

  token_value-HasFuel : (type : TypeId) (tok : Token) → HasFuel (token_value fpu type tok)
  unfolding token_value integer_value real_value
  token_value-HasFuel type tok q = ground arith

  pub parse_literal_value-Runs : (n : ℕ) (type : TypeId) → Runs n 0 (parse_literal_value fpu type)
  unfolding parse_literal_value
  parse_literal_value-Runs n type =
      Runs-seq n 0 (matches TokenType.minus) _ (matches-Runs n TokenType.minus) λ n1 negative _.
        Runs-seq n1 0 advance _ (advance-Runs n1) λ n2 tok _.
          Runs-seq n2 0 (of_result (token_value fpu type tok)) _
            (Runs-of_result n2 _ (token_value-HasFuel type tok))
            λ n3 v _.
              Runs-if n3 0 negative _ _ (λ _. Runs-of_result n3 _ (negate_literal-HasFuel v))
                (λ _. Runs-pure n3 v)
