-- ===== src/St/Parser/Lists.antt =====
-- Statements take tokens, and the fuel of their lists is enough (st/parser.cpp).
use soft_plc.Base.{
  ℕ, zero, suc, ◌<◌, ◌≤◌, ◌≡◌, refl, arith, false, expected_statement, expected_binding,
}
use soft_plc.St.Token.{TokenType, Token, type_eq, is_end}
use soft_plc.St.Parsing.{Parse, ◌>>=◌, expect, expect_name, parse_dotted_identifier, comma_list}
use soft_plc.St.Parsing.Rules.{
  Runs, Runs-lower, Runs-seq, Runs-take, Runs-pure, Runs-fail, Runs-remaining, Runs-if, RunsAt-any,
  Runs-peek, check-Runs, expect-Runs, Runs-matches, matches-Runs,
}
use soft_plc.St.Parsing.Lists.{
  expect_name-Runs, parse_dotted_identifier-Runs, comma_list-Runs, skip_semicolons-Runs,
}
use soft_plc.St.Ast.{Block, nil}
use soft_plc.St.Parser.{parse_expression}
use soft_plc.St.Parser.Expressions.{parse_expression-Runs}
use soft_plc.St.Parser.Statements.{
  parse_rung_output, parse_rung_statement, parse_call_arg, parse_call_args,
  parse_call_statement_rest, parse_assignment_rest, parse_assign_or_call_statement, Terminators,
  ends_branch, elsif_branches, else_body, parse_if_statement, parse_while_statement,
  parse_statement, statements, parse_statement_list,
}

-- A token that must follow, and the rest.
pub expected :
    {A : Type 0} (n : ℕ) (type : TokenType) (f : Token → Parse A)
    → is_end type ≡ false
    → ((n' : ℕ) (tok : Token) → n' < n → Runs n' 0 (f tok))
    → Runs n 1 (expect type >>= f)
expected n type f h hf = Runs-take n (expect type) f (expect-Runs n type h) hf

-- The same where tokens were taken before.
pub then_expected :
    {A : Type 0} (n : ℕ) (type : TokenType) (f : Token → Parse A)
    → is_end type ≡ false
    → ((n' : ℕ) (tok : Token) → n' < n → Runs n' 0 (f tok))
    → Runs n 0 (expect type >>= f)
then_expected n type f h hf = Runs-lower n 1 _ (expected n type f h hf)

pub then_taken :
    {A B : Type 0} (n : ℕ) (m : Parse A) (f : A → Parse B)
    → Runs n 1 m
    → ((n' : ℕ) (a : A) → n' < n → Runs n' 0 (f a))
    → Runs n 0 (m >>= f)
then_taken n m f hm hf = Runs-lower n 1 _ (Runs-take n m f hm hf)

parse_rung_output-Runs : (n : ℕ) → Runs n 1 parse_rung_output
unfolding parse_rung_output
parse_rung_output-Runs n = Runs-seq n 1 _ _ (matches-Runs n TokenType.kw_set) λ n1 set l1.
    Runs-seq n1 1 _ _
      (Runs-if n1 0 set _ _ (λ _. Runs-pure n1 false) (λ _. matches-Runs n1 TokenType.kw_reset))
      λ n2 reset l2.
        Runs-take n2 parse_dotted_identifier _ (parse_dotted_identifier-Runs n2)
          λ n3 name l3. Runs-pure n3 _

parse_rung_statement-Runs : (n : ℕ) → Runs n 1 parse_rung_statement
unfolding parse_rung_statement is_end
parse_rung_statement-Runs n = expected n TokenType.kw_rung _ refl λ n1 _ l1.
    then_taken n1 parse_expression _ (parse_expression-Runs n1) λ n2 c l2.
      then_expected n2 TokenType.r_arrow _ refl λ n3 _ l3.
        then_taken n3 (comma_list parse_rung_output) _
          (comma_list-Runs parse_rung_output parse_rung_output-Runs n3)
          λ n4 outs l4. then_expected n4 TokenType.semicolon _ refl λ n5 _ l5. Runs-pure n5 _

parse_call_arg-Runs : (n : ℕ) → Runs n 1 parse_call_arg
unfolding parse_call_arg is_end
parse_call_arg-Runs n = Runs-take n expect_name _ (expect_name-Runs n) λ n1 name l1.
    Runs-matches n1 TokenType.assign_sign _ refl
      (λ n2 l2.
        then_taken n2 parse_expression _ (parse_expression-Runs n2) λ n3 e l3. Runs-pure n3 _)
      (Runs-matches n1 TokenType.r_arrow _ refl
        (λ n2 l2.
          then_taken n2 parse_dotted_identifier _ (parse_dotted_identifier-Runs n2)
            λ n3 target l3. Runs-pure n3 _)
        (Runs-fail n1 0 expected_binding (λ q. cc)))

parse_call_args-Runs : (n : ℕ) → Runs n 0 parse_call_args
unfolding parse_call_args
parse_call_args-Runs n = check-Runs n 0 TokenType.r_paren _ λ none.
    Runs-if n 0 none _ _ (λ _. Runs-pure n _)
      (λ _. Runs-lower n 1 _ (comma_list-Runs parse_call_arg parse_call_arg-Runs n))

parse_assign_or_call_statement-Runs : (n : ℕ) → Runs n 1 parse_assign_or_call_statement
unfolding parse_assign_or_call_statement parse_call_statement_rest parse_assignment_rest is_end
parse_assign_or_call_statement-Runs n =
    Runs-take n parse_dotted_identifier _ (parse_dotted_identifier-Runs n) λ n1 name l1.
      Runs-matches n1 TokenType.l_paren _ refl
        (λ n2 l2. Runs-seq n2 0 parse_call_args _ (parse_call_args-Runs n2) λ n3 args l3.
          then_expected n3 TokenType.r_paren _ refl
            λ n4 _ l4. then_expected n4 TokenType.semicolon _ refl λ n5 _ l5. Runs-pure n5 _)
        (then_expected n1 TokenType.assign_sign _ refl λ n2 _ l2.
          then_taken n2 parse_expression _ (parse_expression-Runs n2)
            λ n3 e l3. then_expected n3 TokenType.semicolon _ refl λ n4 _ l4. Runs-pure n4 _)

module _ (list : Terminators → Parse Block) (bound : ℕ)
    (hl : (n : ℕ) (stop : Terminators) → n < bound → Runs n 0 (list stop)) where
  elsif_branches-Runs : (n fuel : ℕ) → n < bound → n < fuel → Runs n 0 (elsif_branches list fuel)
  unfolding elsif_branches is_end
  elsif_branches-Runs n zero le lt = absurd (omega arith)
  elsif_branches-Runs n (suc fuel) le lt =
      Runs-matches n TokenType.kw_elsif _ refl
        (λ n1 l1. then_taken n1 parse_expression _ (parse_expression-Runs n1) λ n2 c l2.
          then_expected n2 TokenType.kw_then _ refl λ n3 _ l3.
            Runs-seq n3 0 (list ends_branch) _ (hl n3 ends_branch (omega arith)) λ n4 b l4.
              Runs-seq n4 0 _ _ (elsif_branches-Runs n4 fuel (omega arith) (omega arith))
                λ n5 bs l5. Runs-pure n5 _)
        (Runs-pure n _)

  else_body-Runs : (n : ℕ) → n < bound → Runs n 0 (else_body list)
  unfolding else_body is_end
  else_body-Runs n lt =
      Runs-matches n TokenType.kw_else _ refl (λ n1 l1. hl n1 _ (omega arith)) (Runs-pure n nil)

  parse_if_statement-Runs : (n : ℕ) → n ≤ bound → Runs n 1 (parse_if_statement list)
  unfolding parse_if_statement is_end
  parse_if_statement-Runs n le = expected n TokenType.kw_if _ refl λ n1 _ l1.
      then_taken n1 parse_expression _ (parse_expression-Runs n1) λ n2 c l2.
        then_expected n2 TokenType.kw_then _ refl λ n3 _ l3.
          Runs-seq n3 0 (list ends_branch) _ (hl n3 ends_branch (omega arith)) λ n4 b l4.
            Runs-remaining n4 0 _ λ m lm.
              Runs-seq m 0 _ _ (elsif_branches-Runs m (suc m) (omega arith) (omega arith))
                λ n5 bs l5.
                  Runs-seq n5 0 _ _ (else_body-Runs n5 (omega arith)) λ n6 els l6.
                    then_expected n6 TokenType.kw_end_if _ refl λ n7 _ l7. Runs-pure n7 _

  parse_while_statement-Runs : (n : ℕ) → n ≤ bound → Runs n 1 (parse_while_statement list)
  unfolding parse_while_statement is_end
  parse_while_statement-Runs n le = expected n TokenType.kw_while _ refl λ n1 _ l1.
      then_taken n1 parse_expression _ (parse_expression-Runs n1) λ n2 c l2.
        then_expected n2 TokenType.kw_do _ refl λ n3 _ l3.
          Runs-seq n3 0 _ _ (hl n3 _ (omega arith))
            λ n4 b l4. then_expected n4 TokenType.kw_end_while _ refl λ n5 _ l5. Runs-pure n5 _

  parse_statement-Runs : (n : ℕ) → n ≤ bound → Runs n 1 (parse_statement list)
  unfolding parse_statement
  parse_statement-Runs n le = Runs-peek n 1 _ λ tok. RunsAt-any n tok 1 _ (
      let t = tok.type in
      Runs-if n 1 (type_eq t TokenType.kw_if) _ _ (λ _. parse_if_statement-Runs n le)
        λ _.
          Runs-if n 1 (type_eq t TokenType.kw_while) _ _ (λ _. parse_while_statement-Runs n le)
            λ _.
              Runs-if n 1 (type_eq t TokenType.kw_rung) _ _ (λ _. parse_rung_statement-Runs n)
                λ _.
                  Runs-if n 1 (type_eq t TokenType.ident) _ _
                    (λ _. parse_assign_or_call_statement-Runs n)
                    λ _. Runs-fail n 1 expected_statement (λ q. cc))

statements-Runs : (n fuel : ℕ) (stop : Terminators) → n < fuel → Runs n 0 (statements fuel stop)
unfolding statements
statements-Runs n zero stop lt = absurd (omega arith)
statements-Runs n (suc fuel) stop lt =
    let inner : (n' : ℕ) (stop' : Terminators) → n' < n → Runs n' 0 (statements fuel stop') =
      λ n' stop' lt'. statements-Runs n' fuel stop' (omega arith) in
    Runs-peek n 0 _ λ tok. RunsAt-any n tok 0 _ (
      Runs-if n 0 (stop tok.type) _ _ (λ _. Runs-pure n nil)
        λ _.
          then_taken n _ _ (parse_statement-Runs (statements fuel) n inner n (omega arith))
            λ n1 s lt1. Runs-remaining n1 0 _ λ m le.
              Runs-seq m 0 _ _ (skip_semicolons-Runs m (suc m) (omega arith)) λ n2 _ le2.
                Runs-seq n2 0 _ _ (inner n2 stop (omega arith)) λ n3 b l3. Runs-pure n3 _)

pub parse_statement_list-Runs : (n : ℕ) (stop : Terminators) → Runs n 0 (parse_statement_list stop)
unfolding parse_statement_list
parse_statement_list-Runs n stop =
    Runs-remaining n 0 _ λ m le. statements-Runs m (suc m) stop (omega arith)
