-- ===== src/St/Parser/Statements.antt =====
-- Statements (st/parser.cpp). A statement list runs on the number of tokens, at 0 the model throws `out_of_fuel`.
use soft_plc.Base.{
  ℕ, zero, suc, Bool, false, ◌||◌, List, [], Str, if◌then◌else◌, out_of_fuel, expected_statement,
  expected_binding,
}
use soft_plc.Tags.Store.{invalid_id}
use soft_plc.St.Ast.{
  CallArg, input_arg, output_arg, RungOutputKind, RungOutput, Stmt, assign, if_stmt, while_stmt,
  call, rung, Block, nil, cons, Branches, no_branch, branch, invalid_frame,
}
use soft_plc.St.Token.{TokenType, type_eq}
use soft_plc.St.Parsing.{
  Parse, ◌>>=◌, ◌>>◌, pure, fail, peek, remaining, check, matches, expect, expect_name,
  parse_dotted_identifier, comma_list, skip_semicolons,
}
use soft_plc.St.Parser.{parse_expression}

unfoldable pub parse_rung_output : Parse RungOutput
parse_rung_output = do
  set ← matches TokenType.kw_set
  reset ← (if set then pure false else matches TokenType.kw_reset)
  name ← parse_dotted_identifier
  pure (record {
    kind =
        if set
        then RungOutputKind.set
        else if reset
        then RungOutputKind.reset
        else RungOutputKind.direct;
    target_name = name;
    target_id = invalid_id;
  })

unfoldable pub parse_rung_statement : Parse Stmt
parse_rung_statement = do
  expect TokenType.kw_rung
  c ← parse_expression
  expect TokenType.r_arrow
  outs ← comma_list parse_rung_output
  expect TokenType.semicolon
  pure (rung c outs)

unfoldable pub parse_call_arg : Parse CallArg
parse_call_arg = do
  name ← expect_name
  input ← matches TokenType.assign_sign
  if input
      then (parse_expression >>= λ e. pure (input_arg name e invalid_id))
      else (matches TokenType.r_arrow >>= λ output.
          if output
          then (parse_dotted_identifier >>= λ target.
              pure (output_arg name target invalid_id invalid_id))
          else fail expected_binding)

unfoldable pub parse_call_args : Parse (List CallArg)
parse_call_args =
    check TokenType.r_paren >>= λ none. if none then pure [] else comma_list parse_call_arg

unfoldable pub parse_call_statement_rest : Str → Parse Stmt
parse_call_statement_rest name = do
  args ← parse_call_args
  expect TokenType.r_paren
  expect TokenType.semicolon
  pure (call name args invalid_frame)

unfoldable pub parse_assignment_rest : Str → Parse Stmt
parse_assignment_rest name = do
  expect TokenType.assign_sign
  e ← parse_expression
  expect TokenType.semicolon
  pure (assign name invalid_id e)

unfoldable pub parse_assign_or_call_statement : Parse Stmt
parse_assign_or_call_statement = do
  name ← parse_dotted_identifier
  is_call ← matches TokenType.l_paren
  if is_call then parse_call_statement_rest name else parse_assignment_rest name

-- The tokens that end a statement list.
abbrev pub Terminators : Type 0
Terminators = TokenType → Bool

unfoldable pub ends_branch : Terminators
ends_branch type =
    type_eq type TokenType.kw_elsif
    || (type_eq type TokenType.kw_else || type_eq type TokenType.kw_end_if)

module _ (list : Terminators → Parse Block) where
  -- The loop over the ELSIF branches.
  unfoldable pub elsif_branches : ℕ → Parse Branches
  elsif_branches zero = fail out_of_fuel
  elsif_branches (suc fuel) = do
    more ← matches TokenType.kw_elsif
    if more
        then (parse_expression >>= λ c.
            expect TokenType.kw_then
            >> (list ends_branch >>= λ b. elsif_branches fuel >>= λ bs. pure (branch c b bs)))
        else pure no_branch

  unfoldable pub else_body : Parse Block
  else_body = matches TokenType.kw_else >>= λ here.
      if here then list (λ type. type_eq type TokenType.kw_end_if) else pure nil

  unfoldable pub parse_if_statement : Parse Stmt
  parse_if_statement = do
    expect TokenType.kw_if
    c ← parse_expression
    expect TokenType.kw_then
    b ← list ends_branch
    n ← remaining
    bs ← elsif_branches (suc n)
    els ← else_body
    expect TokenType.kw_end_if
    pure (if_stmt (branch c b bs) els)

  unfoldable pub parse_while_statement : Parse Stmt
  parse_while_statement = do
    expect TokenType.kw_while
    c ← parse_expression
    expect TokenType.kw_do
    b ← list (λ type. type_eq type TokenType.kw_end_while)
    expect TokenType.kw_end_while
    pure (while_stmt c b)

  unfoldable pub parse_statement : Parse Stmt
  parse_statement = peek >>= λ tok.
      if type_eq tok.type TokenType.kw_if
      then parse_if_statement
      else if type_eq tok.type TokenType.kw_while
      then parse_while_statement
      else if type_eq tok.type TokenType.kw_rung
      then parse_rung_statement
      else if type_eq tok.type TokenType.ident
      then parse_assign_or_call_statement
      else fail expected_statement

unfoldable pub statements : ℕ → Terminators → Parse Block
statements zero stop = fail out_of_fuel
statements (suc fuel) stop = peek >>= λ tok.
    if stop tok.type
    then pure nil
    else (parse_statement (statements fuel) >>= λ s. remaining >>= λ n.
        skip_semicolons (suc n) >> (statements fuel stop >>= λ b. pure (cons s b)))

unfoldable pub parse_statement_list : Terminators → Parse Block
parse_statement_list stop = remaining >>= λ n. statements (suc n) stop
