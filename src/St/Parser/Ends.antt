-- ===== src/St/Parser/Ends.antt =====
-- The parser reads units to their end, and its loops have enough fuel (st/parser.cpp).
use soft_plc.Base.{
  ℕ, zero, suc, ◌<◌, ◌≡◌, refl, arith, inl, inr, Bool, true, false, ◌&&◌, not, Option, none, some,
  if◌then◌else◌, Option-cases, expected_pou, second_program, no_program, expected_library_pou,
  expected_var_block, persistent_var, instance_not_allowed, expected_type,
}
use soft_plc.Tags.Value.{TypeId}
use soft_plc.St.Fpu.{Fpu}
use soft_plc.St.Token.{TokenType, type_eq, is_end}
use soft_plc.St.Parsing.{◌>>=◌, pure, fail, advance, check, expect_name}
use soft_plc.St.Parsing.Rules.{
  Runs, Runs-seq, Runs-take, Runs-pure, Runs-fail, Runs-remaining, Runs-if, RunsAt-any,
  RunsAt-lower, Runs-peek, RunsAt-advance, advance-Runs, check-Runs, Runs-matches,
}
use soft_plc.St.Ast.{VarKind, VarDecl, CompilationUnit}
use soft_plc.St.Parsing.Lists.{expect_name-Runs}
use soft_plc.St.Parser.Expressions.{IsOpen, parse_literal_value-Runs}
use soft_plc.St.Parser.Lists.{expected, then_expected, then_taken, parse_statement_list-Runs}
use soft_plc.St.Parser.Units.{
  VarBlockContext, is_function_context, has_instances, is_var, var_kind, elementary,
  starts_program_vars, starts_pou_vars, try_parse_elementary_type, parse_address, parse_initial,
  parse_var_type, parse_var_decl, var_decls, parse_var_block, var_blocks, parse_vars, parse_pou_def,
  parse_data_block_def, parse_program, unit_from, empty_unit, parse_compilation_unit, library_from,
  parse_pou_library,
}

tables-IsOpen : IsOpen var_kind × IsOpen elementary
unfolding var_kind elementary is_end
tables-IsOpen = (λ t o e. ground arith, λ t o e. ground arith)

try_parse_elementary_type-Runs : (n : ℕ) → Runs n 0 try_parse_elementary_type
unfolding try_parse_elementary_type
try_parse_elementary_type-Runs n = Runs-peek n 0 _ λ tok.
    elim (Option-cases (elementary tok.type)) [
      | inl e ↦ rw e (RunsAt-any n tok 0 _ (Runs-pure n none))
      | inr (t, e) ↦ rw e (
          RunsAt-lower n tok 1 _
            (RunsAt-advance n tok _ (tables-IsOpen.1 tok.type t e) λ n1 _ l1. Runs-pure n1 _))
    ]

parse_address-Runs : (n : ℕ) → Runs n 0 parse_address
unfolding parse_address is_end
parse_address-Runs n =
    Runs-matches n TokenType.kw_at _ refl
      (λ n1 l1. then_expected n1 TokenType.address_literal _ refl λ n2 tok l2. Runs-pure n2 _)
      (Runs-pure n none)

module _ (fpu : Fpu) where
  parse_initial-Runs : (n : ℕ) (type : TypeId) → Runs n 0 (parse_initial fpu type)
  unfolding parse_initial is_end
  parse_initial-Runs n type =
      Runs-matches n TokenType.assign_sign _ refl
        (λ n1 l1.
          Runs-seq n1 0 _ _ (parse_literal_value-Runs fpu n1 type) λ n2 v l2. Runs-pure n2 _)
        (Runs-pure n none)

  parse_var_type-Runs :
      (n : ℕ) (context : VarBlockContext) (decl : VarDecl)
      → Runs n 0 (parse_var_type fpu context decl)
  unfolding parse_var_type
  parse_var_type-Runs n context decl =
      Runs-seq n 0 try_parse_elementary_type _ (try_parse_elementary_type-Runs n)
        λ n1 type l1. by_type n1 type
    where
      by_type :
          (n : ℕ) (type : Option TypeId)
          → Runs n 0 (elim type [
            | some t ↦ parse_initial fpu t >>= λ v.
                pure (record decl { elementary_type = some t; initial_value = v })
            | none ↦ check TokenType.ident >>= λ named.
                if not named
                then fail expected_type
                else if has_instances context && is_var decl.kind
                then (advance >>= λ tok. pure (record decl { instance_of_type = some tok.text }))
                else fail instance_not_allowed
          ])
      by_type n (some t) = Runs-seq n 0 _ _ (parse_initial-Runs n t) λ n1 v l1. Runs-pure n1 _
      by_type n none = check-Runs n 0 TokenType.ident _ λ named.
          Runs-if n 0 (not named) _ _ (λ _. Runs-fail n 0 expected_type (λ q. cc))
            λ _.
              Runs-if n 0 (has_instances context && is_var decl.kind) _ _
                (λ _. Runs-seq n 0 advance _ (advance-Runs n) λ n1 tok l1. Runs-pure n1 _)
                (λ _. Runs-fail n 0 instance_not_allowed (λ q. cc))

  parse_var_decl-Runs :
      (n : ℕ) (context : VarBlockContext) (kind : VarKind)
      → Runs n 1 (parse_var_decl fpu context kind)
  unfolding parse_var_decl is_end
  parse_var_decl-Runs n context kind = Runs-take n expect_name _ (expect_name-Runs n) λ n1 name l1.
      Runs-seq n1 0 parse_address _ (parse_address-Runs n1) λ n2 address l2.
        then_expected n2 TokenType.colon _ refl λ n3 _ l3.
          Runs-seq n3 0 _ _ (parse_var_type-Runs n3 context _)
            λ n4 decl l4. then_expected n4 TokenType.semicolon _ refl λ n5 _ l5. Runs-pure n5 decl

  var_decls-Runs :
      (n fuel : ℕ) (context : VarBlockContext) (kind : VarKind)
      → n < fuel
      → Runs n 0 (var_decls fpu context kind fuel)
  unfolding var_decls
  var_decls-Runs n zero context kind lt = absurd (omega arith)
  var_decls-Runs n (suc fuel) context kind lt = check-Runs n 0 TokenType.kw_end_var _ λ done.
      Runs-if n 0 done _ _ (λ _. Runs-pure n _)
        λ _. then_taken n _ _ (parse_var_decl-Runs n context kind) λ n1 d l1.
          Runs-seq n1 0 _ _ (var_decls-Runs n1 fuel context kind (omega arith))
            λ n2 ds l2. Runs-pure n2 _

  parse_var_block-Runs :
      (n : ℕ) (context : VarBlockContext) → Runs n 1 (parse_var_block fpu context)
  unfolding parse_var_block is_end
  parse_var_block-Runs n context = Runs-peek n 1 _ λ tok. elim (Option-cases (var_kind tok.type)) [
    | inl e ↦ rw e (RunsAt-any n tok 1 _ (Runs-fail n 1 expected_var_block (λ q. cc)))
    | inr (kind, e) ↦ rw e (
        RunsAt-advance n tok _ (tables-IsOpen.0 tok.type kind e) λ n1 _ l1.
          Runs-if n1 0 (is_function_context context && is_var kind) _ _
            (λ _. Runs-fail n1 0 persistent_var (λ q. cc))
            λ _. Runs-remaining n1 0 _ λ m lm.
              Runs-seq m 0 _ _ (var_decls-Runs m (suc m) context kind (omega arith))
                λ n2 ds l2. then_expected n2 TokenType.kw_end_var _ refl λ n3 _ l3. Runs-pure n3 ds)
  ]

  var_blocks-Runs :
      (n fuel : ℕ) (context : VarBlockContext) (starts : TokenType → Bool)
      → n < fuel
      → Runs n 0 (var_blocks fpu context starts fuel)
  unfolding var_blocks
  var_blocks-Runs n zero context starts lt = absurd (omega arith)
  var_blocks-Runs n (suc fuel) context starts lt = Runs-peek n 0 _ λ tok. RunsAt-any n tok 0 _ (
      Runs-if n 0 (starts tok.type) _ _
        (λ _. then_taken n _ _ (parse_var_block-Runs n context) λ n1 ds l1.
          Runs-seq n1 0 _ _ (var_blocks-Runs n1 fuel context starts (omega arith))
            λ n2 es l2. Runs-pure n2 _)
        (λ _. Runs-pure n _))

  parse_vars-Runs :
      (n : ℕ) (context : VarBlockContext) (starts : TokenType → Bool)
      → Runs n 0 (parse_vars fpu context starts)
  unfolding parse_vars
  parse_vars-Runs n context starts =
      Runs-remaining n 0 _ λ m lm. var_blocks-Runs m (suc m) context starts (omega arith)

  parse_pou_def-Runs : (n : ℕ) (is_function : Bool) → Runs n 1 (parse_pou_def fpu is_function)
  unfolding parse_pou_def is_end
  parse_pou_def-Runs n is_function = expected n _ _ (open_start is_function) λ n1 _ l1.
      then_taken n1 expect_name _ (expect_name-Runs n1) λ n2 name l2.
        Runs-seq n2 0 _ _ (parse_vars-Runs n2 _ starts_pou_vars) λ n3 vars l3.
          Runs-seq n3 0 _ _ (parse_statement_list-Runs n3 _)
            λ n4 body l4. then_expected n4 _ _ (open_end is_function) λ n5 _ l5. Runs-pure n5 _
    where
      open_start :
          (b : Bool)
          → is_end (if b then TokenType.kw_function else TokenType.kw_function_block) ≡ false
      open_start true = refl
      open_start false = refl

      open_end :
          (b : Bool)
          → is_end (if b then TokenType.kw_end_function else TokenType.kw_end_function_block)
            ≡ false
      open_end true = refl
      open_end false = refl

  parse_data_block_def-Runs : (n : ℕ) → Runs n 1 (parse_data_block_def fpu)
  unfolding parse_data_block_def is_end
  parse_data_block_def-Runs n = expected n TokenType.kw_data_block _ refl λ n1 _ l1.
      then_taken n1 expect_name _ (expect_name-Runs n1) λ n2 name l2.
        Runs-seq n2 0 _ _ (parse_vars-Runs n2 _ _) λ n3 vars l3.
          then_expected n3 TokenType.kw_end_data_block _ refl λ n4 _ l4. Runs-pure n4 _

  parse_program-Runs : (n : ℕ) → Runs n 1 (parse_program fpu)
  unfolding parse_program is_end
  parse_program-Runs n = expected n TokenType.kw_program _ refl λ n1 _ l1.
      then_taken n1 expect_name _ (expect_name-Runs n1) λ n2 name l2.
        Runs-seq n2 0 _ _ (parse_vars-Runs n2 _ starts_program_vars) λ n3 vars l3.
          Runs-seq n3 0 _ _ (parse_statement_list-Runs n3 _)
            λ n4 body l4. then_expected n4 TokenType.kw_end_program _ refl λ n5 _ l5. Runs-pure n5 _

  unit_from-Runs :
      (n fuel : ℕ) (unit : CompilationUnit) (have : Bool)
      → n < fuel
      → Runs n 0 (unit_from fpu fuel unit have)
  unfolding unit_from
  unit_from-Runs n zero unit have lt = absurd (omega arith)
  unit_from-Runs n (suc fuel) unit have lt = Runs-peek n 0 _ λ tok. RunsAt-any n tok 0 _ (
      let t = tok.type in
      let next : (n' : ℕ) (u : CompilationUnit) (h : Bool)
          → n' < n
          → Runs n' 0 (unit_from fpu fuel u h) =
        λ n' u h lt'. unit_from-Runs n' fuel u h (omega arith) in
      Runs-if n 0 (type_eq t TokenType.end_of_file) _ _
        (λ _.
          Runs-if n 0 have _ _ (λ _. Runs-pure n unit) (λ _. Runs-fail n 0 no_program (λ q. cc)))
        λ _.
          Runs-if n 0 (type_eq t TokenType.kw_function_block) _ _
            (λ _. then_taken n _ _ (parse_pou_def-Runs n false) λ n1 p l1. next n1 _ have l1)
            λ _.
              Runs-if n 0 (type_eq t TokenType.kw_function) _ _
                (λ _. then_taken n _ _ (parse_pou_def-Runs n true) λ n1 p l1. next n1 _ have l1)
                λ _.
                  Runs-if n 0 (type_eq t TokenType.kw_data_block) _ _
                    (λ _.
                      then_taken n _ _ (parse_data_block_def-Runs n) λ n1 d l1. next n1 _ have l1)
                    λ _.
                      Runs-if n 0 (type_eq t TokenType.kw_program) _ _
                        (λ _.
                          Runs-if n 0 have _ _ (λ _. Runs-fail n 0 second_program (λ q. cc))
                            λ _.
                              then_taken n _ _ (parse_program-Runs n) λ n1 p l1. next n1 _ true l1)
                        λ _. Runs-fail n 0 expected_pou (λ q. cc))

  pub parse_compilation_unit-Runs : (n : ℕ) → Runs n 0 (parse_compilation_unit fpu)
  unfolding parse_compilation_unit
  parse_compilation_unit-Runs n =
      Runs-remaining n 0 _ λ m lm. unit_from-Runs m (suc m) empty_unit false (omega arith)

  library_from-Runs : (n fuel : ℕ) → n < fuel → Runs n 0 (library_from fpu fuel)
  unfolding library_from
  library_from-Runs n zero lt = absurd (omega arith)
  library_from-Runs n (suc fuel) lt = Runs-peek n 0 _ λ tok. RunsAt-any n tok 0 _ (
      let t = tok.type in
      Runs-if n 0 (type_eq t TokenType.end_of_file) _ _ (λ _. Runs-pure n _)
        λ _.
          Runs-if n 0 (type_eq t TokenType.kw_function_block) _ _
            (λ _. then_taken n _ _ (parse_pou_def-Runs n false) λ n1 p l1.
              Runs-seq n1 0 _ _ (library_from-Runs n1 fuel (omega arith))
                λ n2 ps l2. Runs-pure n2 _)
            λ _.
              Runs-if n 0 (type_eq t TokenType.kw_function) _ _
                (λ _. then_taken n _ _ (parse_pou_def-Runs n true) λ n1 p l1.
                  Runs-seq n1 0 _ _ (library_from-Runs n1 fuel (omega arith))
                    λ n2 ps l2. Runs-pure n2 _)
                λ _. Runs-fail n 0 expected_library_pou (λ q. cc))

  pub parse_pou_library-Runs : (n : ℕ) → Runs n 0 (parse_pou_library fpu)
  unfolding parse_pou_library
  parse_pou_library-Runs n = Runs-remaining n 0 _ λ m lm. library_from-Runs m (suc m) (omega arith)
