-- ===== src/St/Program/Ends.antt =====
-- Loading a program and executing it come to an end (st/st_program.cpp).
use soft_plc.Base.{
  ℕ, ◌≡◌, ◌≢◌, refl, ◌∙◌, arith, inl, inr, true, List, [], ◌∷◌, Str, length, Result, ok, err,
  ◌>>=◌ as then_result, out_of_fuel, Result-cases,
}
use soft_plc.Tags.Store.{TagStore}
use soft_plc.St.Fpu.{Fpu}
use soft_plc.St.Ast.{StProgramAst, CompilationUnit}
use soft_plc.St.Token.{Token}
use soft_plc.St.Lexer.{tokenize}
use soft_plc.St.Lexer.Ends.{ends_once, tokenize-ne-out_of_fuel, tokenize-ends_once}
use soft_plc.St.Parsing.{Parser, Parse}
use soft_plc.St.Parsing.Rules.{Left, Runs}
use soft_plc.St.Parser.Units.{parse_compilation_unit, parse_pou_library}
use soft_plc.St.Parser.Ends.{parse_compilation_unit-Runs, parse_pou_library-Runs}
use soft_plc.St.Interp.Fuel.{HasFuel, HasFuel-bind}
use soft_plc.St.Exec.{◌>>=◌}
use soft_plc.St.Binder.Unit.{bind_compilation_unit}
use soft_plc.St.Binder.Bound.{
  bind_compilation_unit-ne-out_of_fuel, exec_block-bind_compilation_unit,
}
use soft_plc.St.StandardFbs.{standard_library}
use soft_plc.St.Program.{parsed, parse_text, load_unit, load, execute}

parsed-HasFuel :
    {A : Type 0} (m : Parse A) (tokens : List Token)
    → ((n : ℕ) → Runs n 0 m)
    → ends_once tokens ≡ true
    → HasFuel (parsed m tokens)
unfolding parsed
parsed-HasFuel m [] h e = λ q. cc
parsed-HasFuel {A} m (t ∷ ts) h e =
    let s : Parser = record { current = t; ahead = ts } in
    after (length ts) (m s) ((h (length ts)).run s e (omega arith))
  where
    after : (k : ℕ) (r : Result (A × Parser)) → Left k 0 r → HasFuel (then_result r (λ x. ok x.0))
    after k (ok x) h = λ q. cc
    after k (err z) h = λ q. h (cc q)

-- The parser of a whole text never runs out of fuel: given tokens of which only the last is an end of file, as
-- the lexer gives them, parsing a compilation unit returns it or reports an error.
pub parsed-parse_compilation_unit :
    (fpu : Fpu) (tokens : List Token)
    → ends_once tokens ≡ true
    → parsed (parse_compilation_unit fpu) tokens ≢ err out_of_fuel
parsed-parse_compilation_unit fpu tokens e =
    parsed-HasFuel (parse_compilation_unit fpu) tokens (parse_compilation_unit-Runs fpu) e

module _ (stod : Str → Result ℕ) (stod_ends : (text : Str) → stod text ≢ err out_of_fuel)
    (fpu : Fpu) where
  parse_text-HasFuel :
      {A : Type 0} (m : Parse A) (text : Str)
      → ((n : ℕ) → Runs n 0 m)
      → HasFuel (parse_text stod fpu m text)
  unfolding parse_text
  parse_text-HasFuel m text h = elim (Result-cases (tokenize stod text)) [
    | inl (tokens, e) ↦
        rw (e, parse_text)
          (parsed-HasFuel m tokens h (tokenize-ends_once stod stod_ends text tokens e))
    | inr (z, e) ↦ rw (e, parse_text) (λ q. tokenize-ne-out_of_fuel stod stod_ends text (e ∙ cc q))
  ]

  load_unit-HasFuel : (library source : Str) → HasFuel (load_unit stod fpu library source)
  unfolding load_unit
  load_unit-HasFuel library source =
      HasFuel-bind (parse_text stod fpu (parse_compilation_unit fpu) source) _
        (parse_text-HasFuel (parse_compilation_unit fpu) source (parse_compilation_unit-Runs fpu))
        λ unit.
          HasFuel-bind (parse_text stod fpu (parse_pou_library fpu) library) _
            (parse_text-HasFuel (parse_pou_library fpu) library (parse_pou_library-Runs fpu))
            λ pous q. cc

  -- Loading ends for every text, given that the conversion of real literals does: it gives a program or an error of the lexer, the
  -- parser or the binder, and never exhausts the fuel of one of their loops.
  pub load-ne-out_of_fuel :
      (source : Str) (s : TagStore) → (load stod fpu source s).0 ≢ err out_of_fuel
  unfolding load
  load-ne-out_of_fuel source s = elim (Result-cases (load_unit stod fpu standard_library source)) [
    | inl (unit, e) ↦ rw e (bind_compilation_unit-ne-out_of_fuel unit s)
    | inr (z, e) ↦ rw e (λ q. load_unit-HasFuel standard_library source (e ∙ cc q))
  ]

  -- A program that is loaded and then executed on the tags it declared comes to an end,
  -- given that the conversion of real literals does: nested calls never
  -- exceed the depth, one more than the number of its frames, so the run ends normally or with an error of its own.
  pub execute-load :
      (source : Str) (s : TagStore)
      → ((load stod fpu source >>= execute stod fpu) s).0 ≢ err out_of_fuel
  unfolding load execute
  execute-load source s = elim (Result-cases (load_unit stod fpu standard_library source)) [
    | inl (unit, e) ↦ rw e (
        after unit (bind_compilation_unit unit s).0 (bind_compilation_unit unit s).1 refl
          (bind_compilation_unit-ne-out_of_fuel unit s))
    | inr (z, e) ↦ rw e (λ q. load_unit-HasFuel standard_library source (e ∙ cc q))
  ]
    where
      after :
          (unit : CompilationUnit) (r : Result StProgramAst) (s' : TagStore)
          → (bind_compilation_unit unit s).0 ≡ r
          → HasFuel r
          → let x : Result (Unit {0}) × TagStore = elim r [
            | ok p ↦ execute stod fpu p s'
            | err z ↦ (err z, s')
          ] in
            HasFuel x.0
      after unit (ok p) s' e h = exec_block-bind_compilation_unit fpu unit s s' p e
      after unit (err z) s' e h = λ q. h (cc q)
