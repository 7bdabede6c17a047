-- ===== src/St/Program.antt =====
-- Loading a program (StProgram of st/st_program.cpp): the text and the library of standard blocks are read, and
-- the unit with the blocks of both is bound.
pub mod Ends
use soft_plc.Base.{ℕ, suc, List, [], ◌∷◌, ◌++◌, Str, length, Result, ok, err, ◌>>=◌, out_of_range}
use soft_plc.Tags.Store.{TagStore}
use soft_plc.St.Fpu.{Fpu}
use soft_plc.St.Ast.{StProgramAst, CompilationUnit}
use soft_plc.St.Token.{Token}
use soft_plc.St.Lexer.{tokenize}
use soft_plc.St.Parsing.{Parser, Parse}
use soft_plc.St.Parser.Units.{parse_compilation_unit, parse_pou_library}
use soft_plc.St.Exec.{Exec, ◌>>=◌ as then_exec, lift}
use soft_plc.St.Interp.{exec_block}
use soft_plc.St.StandardFbs.{standard_library}
use soft_plc.St.Binder.Unit.{bind_compilation_unit}

-- A parser on the tokens, and what it returns. The lexer always gives a token.
unfoldable pub parsed : {A : Type 0} → Parse A → List Token → Result A
parsed m [] = err out_of_range
parsed m (t ∷ ts) = m (record { current = t; ahead = ts }) >>= λ r. ok r.0

module _ (stod : Str → Result ℕ) (fpu : Fpu) where
  -- A lexer and a parser on a text.
  unfoldable pub parse_text : {A : Type 0} → Parse A → Str → Result A
  parse_text m text = tokenize stod text >>= parsed m

  -- The unit of a text with the blocks of a library.
  unfoldable pub load_unit : Str → Str → Result CompilationUnit
  load_unit library source = do
    unit ← parse_text (parse_compilation_unit fpu) source
    pous ← parse_text (parse_pou_library fpu) library
    ok (record unit { pous = unit.pous ++ pous })

  unfoldable pub load : Str → Exec StProgramAst
  load source = then_exec (lift (load_unit standard_library source)) bind_compilation_unit

  -- Nested calls have room for one more frame than there are.
  unfoldable pub execute : StProgramAst → Exec (Unit {0})
  execute ast = exec_block fpu ast.frames (suc (length ast.frames)) ast.body
