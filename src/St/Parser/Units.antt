-- ===== src/St/Parser/Units.antt =====
-- Declarations, blocks, functions, programs and units (st/parser.cpp).
use soft_plc.Base.{
  ℕ, zero, suc, Bool, true, false, ◌||◌, ◌&&◌, not, Option, none, some, List, [], ◌∷◌, ◌++◌,
  if◌then◌else◌, out_of_fuel, expected_pou, second_program, no_program, expected_library_pou,
  expected_var_block, persistent_var, instance_not_allowed, expected_type,
}
use soft_plc.Tags.Value.{TypeId, Value, Address}
use soft_plc.St.Fpu.{Fpu}
use soft_plc.St.Ast.{nil, VarKind, VarDecl, PouAst, DataBlockAst, StProgramAst, CompilationUnit}
use soft_plc.St.Token.{TokenType, type_eq}
use soft_plc.St.Parsing.{
  Parse, ◌>>=◌, ◌>>◌, pure, fail, peek, advance, remaining, check, matches, expect, expect_name,
}
use soft_plc.St.Parser.{parse_literal_value}
use soft_plc.St.Parser.Statements.{parse_statement_list}

pub data VarBlockContext : Type 0 where
  in_program in_function_block in_function in_data_block : VarBlockContext

abbrev pub is_function_context : VarBlockContext → Bool
is_function_context VarBlockContext.in_function = true
is_function_context _ = false

abbrev pub has_instances : VarBlockContext → Bool
has_instances VarBlockContext.in_program = true
has_instances VarBlockContext.in_function_block = true
has_instances _ = false

abbrev pub is_var : VarKind → Bool
is_var VarKind.var = true
is_var _ = false

-- The kind of VAR block that a token starts.
unfoldable pub var_kind : TokenType → Option VarKind
var_kind t =
    if type_eq t TokenType.kw_var
    then some VarKind.var
    else if type_eq t TokenType.kw_var_input
    then some VarKind.var_input
    else if type_eq t TokenType.kw_var_output
    then some VarKind.var_output
    else if type_eq t TokenType.kw_var_temp
    then some VarKind.var_temp
    else none

unfoldable pub elementary : TokenType → Option TypeId
elementary t =
    if type_eq t TokenType.kw_bool
    then some TypeId.bool
    else if type_eq t TokenType.kw_byte
    then some TypeId.byte
    else if type_eq t TokenType.kw_int
    then some TypeId.int
    else if type_eq t TokenType.kw_dint
    then some TypeId.dint
    else if type_eq t TokenType.kw_real
    then some TypeId.real
    else if type_eq t TokenType.kw_lreal
    then some TypeId.lreal
    else if type_eq t TokenType.kw_time
    then some TypeId.time
    else if type_eq t TokenType.kw_string
    then some TypeId.string
    else none

unfoldable pub starts_program_vars : TokenType → Bool
starts_program_vars type =
    type_eq type TokenType.kw_var
    || (type_eq type TokenType.kw_var_input || type_eq type TokenType.kw_var_output)

unfoldable pub starts_pou_vars : TokenType → Bool
starts_pou_vars type = starts_program_vars type || type_eq type TokenType.kw_var_temp

unfoldable pub try_parse_elementary_type : Parse (Option TypeId)
try_parse_elementary_type = peek >>= λ tok. elim (elementary tok.type) [
  | none ↦ pure none
  | some t ↦ advance >> pure (some t)
]

unfoldable pub parse_address : Parse (Option Address)
parse_address = matches TokenType.kw_at >>= λ here.
    if here
    then (expect TokenType.address_literal >>= λ tok. pure (some tok.address_value))
    else pure none

abbrev pub empty_unit : CompilationUnit
empty_unit = record {
  pous = [];
  data_blocks = [];
  program = record { name = []; var_decls = []; body = nil; frames = [] };
}

module _ (fpu : Fpu) where
  unfoldable pub parse_initial : TypeId → Parse (Option Value)
  parse_initial type = matches TokenType.assign_sign >>= λ here.
      if here then (parse_literal_value fpu type >>= λ v. pure (some v)) else pure none

  -- The type of a variable and its initial value, of the declaration `decl`.
  unfoldable pub parse_var_type : VarBlockContext → VarDecl → Parse VarDecl
  parse_var_type context decl = try_parse_elementary_type >>= λ type. elim type [
    | some t ↦
        parse_initial t >>= λ v. pure (record decl { elementary_type = some t; initial_value = v })
    | none ↦ check TokenType.ident >>= λ named.
        if not named
        then fail expected_type
        else if has_instances context && is_var decl.kind
        then (advance >>= λ tok. pure (record decl { instance_of_type = some tok.text }))
        else fail instance_not_allowed
  ]

  unfoldable pub parse_var_decl : VarBlockContext → VarKind → Parse VarDecl
  parse_var_decl context kind = do
    name ← expect_name
    address ← parse_address
    expect TokenType.colon
    decl ← parse_var_type context (record {
      name = name;
      kind = kind;
      elementary_type = none;
      instance_of_type = none;
      address = address;
      initial_value = none;
    })
    expect TokenType.semicolon
    pure decl

  unfoldable pub var_decls : VarBlockContext → VarKind → ℕ → Parse (List VarDecl)
  var_decls context kind zero = fail out_of_fuel
  var_decls context kind (suc fuel) = check TokenType.kw_end_var >>= λ done.
      if done
      then pure []
      else (parse_var_decl context kind >>= λ d.
          var_decls context kind fuel >>= λ ds. pure (d ∷ ds))

  -- The declarations that a VAR block adds.
  unfoldable pub parse_var_block : VarBlockContext → Parse (List VarDecl)
  parse_var_block context = peek >>= λ tok. elim (var_kind tok.type) [
    | none ↦ fail expected_var_block
    | some kind ↦
        advance
        >> (if is_function_context context && is_var kind
            then fail persistent_var
            else (remaining >>= λ n.
                var_decls context kind (suc n) >>= λ ds. expect TokenType.kw_end_var >> pure ds))
  ]

  -- The loop over the VAR blocks of the kinds that `starts` names.
  unfoldable pub var_blocks : VarBlockContext → (TokenType → Bool) → ℕ → Parse (List VarDecl)
  var_blocks context starts zero = fail out_of_fuel
  var_blocks context starts (suc fuel) = peek >>= λ tok.
      if starts tok.type
      then (parse_var_block context >>= λ ds.
          var_blocks context starts fuel >>= λ es. pure (ds ++ es))
      else pure []

  unfoldable pub parse_vars : VarBlockContext → (TokenType → Bool) → Parse (List VarDecl)
  parse_vars context starts = remaining >>= λ n. var_blocks context starts (suc n)

  unfoldable pub parse_pou_def : Bool → Parse PouAst
  parse_pou_def is_function = do
    let end_token =
        if is_function then TokenType.kw_end_function else TokenType.kw_end_function_block
    expect (if is_function then TokenType.kw_function else TokenType.kw_function_block)
    name ← expect_name
    vars ←
        parse_vars
          (if is_function then VarBlockContext.in_function else VarBlockContext.in_function_block)
          starts_pou_vars
    body ← parse_statement_list (λ type. type_eq type end_token)
    expect end_token
    pure (record { name = name; is_function = is_function; var_decls = vars; body = body })

  unfoldable pub parse_data_block_def : Parse DataBlockAst
  parse_data_block_def = do
    expect TokenType.kw_data_block
    name ← expect_name
    vars ← parse_vars VarBlockContext.in_data_block (λ type. type_eq type TokenType.kw_var)
    expect TokenType.kw_end_data_block
    pure (record { name = name; var_decls = vars })

  unfoldable pub parse_program : Parse StProgramAst
  parse_program = do
    expect TokenType.kw_program
    name ← expect_name
    vars ← parse_vars VarBlockContext.in_program starts_program_vars
    body ← parse_statement_list (λ type. type_eq type TokenType.kw_end_program)
    expect TokenType.kw_end_program
    pure (record { name = name; var_decls = vars; body = body; frames = [] })

  -- The loop of parseCompilationUnit, with the unit so far and haveProgram.
  unfoldable pub unit_from : ℕ → CompilationUnit → Bool → Parse CompilationUnit
  unit_from zero unit have = fail out_of_fuel
  unit_from (suc fuel) unit have = peek >>= λ tok.
      if type_eq tok.type TokenType.end_of_file
      then (if have then pure unit else fail no_program)
      else if type_eq tok.type TokenType.kw_function_block
      then (parse_pou_def false >>= λ p.
          unit_from fuel (record unit { pous = unit.pous ++ p ∷ [] }) have)
      else if type_eq tok.type TokenType.kw_function
      then (parse_pou_def true >>= λ p.
          unit_from fuel (record unit { pous = unit.pous ++ p ∷ [] }) have)
      else if type_eq tok.type TokenType.kw_data_block
      then (parse_data_block_def >>= λ d.
          unit_from fuel (record unit { data_blocks = unit.data_blocks ++ d ∷ [] }) have)
      else if type_eq tok.type TokenType.kw_program
      then (if have
          then fail second_program
          else (parse_program >>= λ p. unit_from fuel (record unit { program = p }) true))
      else fail expected_pou

  unfoldable pub parse_compilation_unit : Parse CompilationUnit
  parse_compilation_unit = remaining >>= λ n. unit_from (suc n) empty_unit false

  unfoldable pub library_from : ℕ → Parse (List PouAst)
  library_from zero = fail out_of_fuel
  library_from (suc fuel) = peek >>= λ tok.
      if type_eq tok.type TokenType.end_of_file
      then (pure [])
      else if type_eq tok.type TokenType.kw_function_block
      then (parse_pou_def false >>= λ p. library_from fuel >>= λ ps. pure (p ∷ ps))
      else if type_eq tok.type TokenType.kw_function
      then (parse_pou_def true >>= λ p. library_from fuel >>= λ ps. pure (p ∷ ps))
      else fail expected_library_pou

  unfoldable pub parse_pou_library : Parse (List PouAst)
  parse_pou_library = remaining >>= λ n. library_from (suc n)
