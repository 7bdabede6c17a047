-- ===== src/St/Binder/Unit.antt =====
-- The binder on a whole compilation unit (st/pou_binder.cpp): the registry, the data blocks and the program.
use soft_plc.Base.{
  List, [], ◌∷◌, ◌++◌, Str, Str-eq, codes, if◌then◌else◌, Result, ok, err, none, some,
  duplicate_pou, data_block_member,
}
use soft_plc.Base.Int.{pos}
use soft_plc.Base.Assoc.{contains, emplace}
use soft_plc.Tags.Value.{TypeId, Value}
use soft_plc.Tags.Store.{TagStore, declare}
use soft_plc.St.Ast.{VarDecl, PouAst, DataBlockAst, StProgramAst, CompilationUnit}
use soft_plc.St.Exec.{Exec, ◌>>=◌, ◌>>◌, pure, throw, lift}
use soft_plc.St.Scope.{BinderContext, dot, initial}
use soft_plc.St.Binder.{bind_program}

-- The loop that builds the registry.
unfoldable pub register : List PouAst → List (Str × PouAst) → Result (List (Str × PouAst))
register [] m = ok m
register (p ∷ ps) m =
    let rest = register ps (emplace p.name p m) in
    if contains p.name m then err duplicate_pou else rest

unfoldable pub declare_members : Str → List VarDecl → Exec (Unit {0})
declare_members db [] = pure tt
declare_members db (d ∷ ds) = elim d.elementary_type [
  | none ↦ throw data_block_member
  | some t ↦
      declare (db ++ (dot ++ d.name)) t (initial d t) d.address >>= λ _. declare_members db ds
]

unfoldable pub declare_data_blocks : List DataBlockAst → Exec (Unit {0})
declare_data_blocks [] = pure tt
declare_data_blocks (db ∷ dbs) = declare_members db.name db.var_decls >> declare_data_blocks dbs

abbrev pub context : TagStore → BinderContext
context s = record {
  tags = s;
  frames = [];
  expanding_types = [];
  fc_call_counter = 0;
  global_callables = [];
}

-- The program with a context of its own, whose tags are what is left of it.
abbrev pub bind_in_context : List (Str × PouAst) → StProgramAst → Exec StProgramAst
bind_in_context registry program s =
    let (r, ctx) = bind_program registry program (context s) in (r, ctx.tags)

unfoldable pub bind_compilation_unit : CompilationUnit → Exec StProgramAst
bind_compilation_unit unit = do
  _ ← declare (codes "System.CycleTime") TypeId.time (Value.time (pos 0)) none
  registry ← lift (register unit.pous [])
  declare_data_blocks unit.data_blocks
  bind_in_context registry unit.program
