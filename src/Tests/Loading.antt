-- ===== src/Tests/Loading.antt =====
-- A small program, and the theorems on the parser and on loading at it.
use soft_plc.Base.{◌≡◌, ◌≢◌, refl, true, List, [], ◌∷◌, Str, codes, ok, err, out_of_fuel}
use soft_plc.Tags.Store.{empty_store}
use soft_plc.St.Token.{TokenType, Token, new_token, is_end}
use soft_plc.St.Lexer.Ends.{ends_once}
use soft_plc.St.Exec.{◌>>=◌}
use soft_plc.St.Parsing.{◌>>=◌ as then_parse, pure, fail, peek, advance, remaining}
use soft_plc.St.Parser.Statements.{statements, parse_statement_list}
use soft_plc.St.Parser.Units.{
  starts_program_vars, var_blocks, parse_vars, parse_program, unit_from, empty_unit,
  parse_compilation_unit,
}
use soft_plc.Base.Int.{pos}
use soft_plc.Tags.Value.{Value}
use soft_plc.Tags.Store.{invalid_id}
use soft_plc.St.Ops.{UnaryOp, BinaryOp}
use soft_plc.St.Ast.{Expr, literal, identifier, unary, binary}
use soft_plc.St.Parser.{
  parse_expression, or_op, xor_op, and_op, equality_op, relational_op, additive_op,
  multiplicative_op,
}
use soft_plc.St.Parser.Print.{plain, print_rest, first_token}
use soft_plc.St.Parser.RoundTrip.{parse_expression-print}
use soft_plc.St.Parser.Levels.{on, levels}
use soft_plc.St.Program.{parsed, load, execute}
use soft_plc.St.Program.Ends.{parsed-parse_compilation_unit, load-ne-out_of_fuel, execute-load}
use soft_plc.Tests.Lexing.{no_reals, no_reals-ends}
use soft_plc.Tests.SampleFpu.{sample_fpu}

-- PROGRAM p END_PROGRAM
abbrev program_tokens : List Token
program_tokens =
    new_token TokenType.kw_program (codes "PROGRAM") 1 1
    ∷ new_token TokenType.ident (codes "p") 1 9
    ∷ new_token TokenType.kw_end_program (codes "END_PROGRAM") 1 11
    ∷ new_token TokenType.end_of_file [] 1 22
    ∷ []

program_tokens-ends_once : ends_once program_tokens ≡ true
unfolding ends_once is_end
program_tokens-ends_once = refl

-- The parser accepts the tokens.
program_tokens-parsed :
    parsed (parse_compilation_unit sample_fpu) program_tokens
    ≡ ok (record empty_unit { program = record empty_unit.program { name = codes "p" } })
unfolding parsed then_parse pure fail peek advance remaining statements parse_statement_list
    starts_program_vars var_blocks parse_vars parse_program unit_from parse_compilation_unit
program_tokens-parsed = refl

parsed-parse_compilation_unit_example :
    parsed (parse_compilation_unit sample_fpu) program_tokens ≢ err out_of_fuel
parsed-parse_compilation_unit_example =
    parsed-parse_compilation_unit sample_fpu program_tokens program_tokens-ends_once

abbrev source_text : Str
source_text =
    codes "PROGRAM p VAR x : INT := 3; t : TON; END_VAR x := x + 1; t(IN := x > 5); END_PROGRAM"

load-ne-out_of_fuel_example : (load no_reals sample_fpu source_text empty_store).0 ≢ err out_of_fuel
load-ne-out_of_fuel_example =
    load-ne-out_of_fuel no_reals no_reals-ends sample_fpu source_text empty_store

execute-load_example :
    ((load no_reals sample_fpu source_text >>= execute no_reals sample_fpu) empty_store).0
    ≢ err out_of_fuel
execute-load_example = execute-load no_reals no_reals-ends sample_fpu source_text empty_store

-- db.x + 1 <= -y
abbrev comparison : Expr
comparison =
    binary BinaryOp.le
      (binary BinaryOp.add (identifier (codes "db.x") invalid_id) (literal (Value.dint (pos 1))))
      (unary UnaryOp.neg (identifier (codes "y") invalid_id))

parse_expression-print_example :
    parse_expression (
      on
        (first_token comparison)
        (print_rest comparison (plain TokenType.semicolon ∷ plain TokenType.end_of_file ∷ [])))
    ≡ ok (comparison, on (plain TokenType.semicolon) (plain TokenType.end_of_file ∷ []))
unfolding levels or_op xor_op and_op equality_op relational_op additive_op multiplicative_op
parse_expression-print_example =
    parse_expression-print comparison (plain TokenType.semicolon) (plain TokenType.end_of_file ∷ [])
      refl refl refl
