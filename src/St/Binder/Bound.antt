-- ===== src/St/Binder/Bound.antt =====
-- What the binder gives to the interpreter (bindCompilationUnit of st/pou_binder.cpp).
use soft_plc.Base.{
  suc, ◌≡◌, ◌≢◌, refl, ap, inl, inr, none, List, [], ◌∷◌, ◌++◌, arith, Option-cases, Str, Str-eq,
  codes, Result, ok, err, out_of_fuel, length,
}
use soft_plc.Base.Assoc.{emplace}
use soft_plc.Base.Int.{pos}
use mathlib.Core.Path.{subst}
use soft_plc.Tags.Value.{TypeId, Value}
use soft_plc.Tags.Store.{TagStore, declare}
use soft_plc.St.Ast.{PouAst, VarDecl, DataBlockAst, StProgramAst, CompilationUnit, Frame}
use soft_plc.St.Fpu.{Fpu}
use soft_plc.St.Exec.{Exec, lift, ◌>>=◌, ◌>>◌}
use soft_plc.St.Interp.{exec_block}
use soft_plc.St.Interp.Fuel.{HasFuel}
use soft_plc.St.Interp.Depth.{BlockBelow, AreOrdered, Ends, Ends-bind, exec_block-ne-out_of_fuel}
use soft_plc.St.Scope.{BinderContext, no_decls, initial, dot}
use soft_plc.St.Binder.{bind_program, expand_pou}
use soft_plc.St.Binder.Unit.{
  register, declare_members, declare_data_blocks, context, bind_in_context, bind_compilation_unit,
}
use soft_plc.St.Binder.Rules.{Outcome, Binds, Binds-bind, Binds-pure}
use soft_plc.St.Binder.Below.{declare-HasFuel, BlockBelow-higher}
use soft_plc.St.Binder.Copies.{Copies, Declared, declare_vars-Binds}
use soft_plc.St.Binder.Bodies.{bind_block-Binds}
use soft_plc.St.Binder.Termination.{expand_pou-Copies}

-- Each frame calls frames before it only, and the program calls frames it has.
abbrev pub IsBound : StProgramAst → Type 0
IsBound p = AreOrdered p.frames × BlockBelow (length p.frames) p.body

bind_program-Binds :
    (registry : List (Str × PouAst)) (program : StProgramAst)
    → Binds [] 0 (λ _ p. IsBound p) (bind_program registry program)
unfolding bind_program
bind_program-Binds registry program =
    let expand = expand_pou registry (length registry) in
    let copies : Copies registry expand [] =
      expand_pou-Copies registry (length registry) [] tt (omega arith) in
    Binds-bind [] 0 Declared (λ _ p. IsBound p) _ _
      (declare_vars-Binds registry expand [] copies 0 program.var_decls [] no_decls tt)
      λ k decls le below.
        Binds-bind [] k BlockBelow (λ _ p. IsBound p) _ _
          (bind_block-Binds registry expand [] copies k decls.local_scope decls.instance_callables
            program.body below)
          λ k2 body le2 hb.
            Binds-bind [] k2 (λ n (fs : List Frame). AreOrdered fs × (length fs ≡ n))
              (λ _ p. IsBound p) _ _ (record { run = λ ctx o le e. (o, le, e, (o.ordered, refl)) })
              λ k3 fs le3 (ordered, n).
                Binds-pure [] k3 (λ _ p. IsBound p) _
                  λ k4 le4. (ordered, BlockBelow-higher k2 (length fs) body (omega arith) hb)

register-HasFuel : (ps : List PouAst) (m : List (Str × PouAst)) → HasFuel (register ps m)
unfolding register
register-HasFuel [] m q = cc
register-HasFuel (p ∷ ps) m q = ground (arith, register-HasFuel ps (emplace p.name p m))

declare_members-Ends : (db : Str) (ds : List VarDecl) → Ends (declare_members db ds)
unfolding declare_members
declare_members-Ends db [] = λ s q. cc
declare_members-Ends db (d ∷ ds) = elim (Option-cases d.elementary_type) [
  | inl e ↦ rw (e, declare_members) (λ s q. cc)
  | inr (t, e) ↦
      rw (e, declare_members)
        (Ends-bind (declare (db ++ (dot ++ d.name)) t (initial d t) d.address)
          (λ _. declare_members db ds)
          (declare-HasFuel (db ++ (dot ++ d.name)) t (initial d t) d.address)
          λ _. declare_members-Ends db ds)
]

declare_data_blocks-Ends : (dbs : List DataBlockAst) → Ends (declare_data_blocks dbs)
unfolding declare_data_blocks
declare_data_blocks-Ends [] = λ s q. cc
declare_data_blocks-Ends (db ∷ dbs) =
    Ends-bind (declare_members db.name db.var_decls) (λ _. declare_data_blocks dbs)
      (declare_members-Ends db.name db.var_decls) (λ _. declare_data_blocks-Ends dbs)

-- A step that throws has not run out of depth, and the program of one that returns is bound.
abbrev Bound : Result StProgramAst → Type 0
Bound (ok p) = IsBound p
Bound (err e) = e ≢ out_of_fuel

abbrev Gives : Exec StProgramAst → Type 0
Gives m = (s : TagStore) → Bound (m s).0

Gives-bind :
    {A : Type 0} (m : Exec A) (f : A → Exec StProgramAst)
    → Ends m
    → ((a : A) → Gives (f a))
    → Gives (m >>= f)
Gives-bind {A} m f hm hf s = after (m s).0 (m s).1 (hm s)
  where
    after :
        (r : Result A) (s' : TagStore)
        → HasFuel r
        → let x : Result StProgramAst × TagStore = elim r [ ok a ↦ f a s' | err e ↦ (err e, s') ] in
          Bound x.0
    after (ok a) s' h = hf a s'
    after (err e) s' h = λ q. h (ap err q)

bind_program-Gives :
    (registry : List (Str × PouAst)) (program : StProgramAst) (s : TagStore)
    → Bound (bind_program registry program (context s)).0
bind_program-Gives registry program s =
    let x : Result StProgramAst × BinderContext = bind_program registry program (context s) in
    after x.0 x.1 (
      (bind_program-Binds registry program).run (context s)
        (record { ordered = λ i f p. cc; globals = tt }) (omega arith) refl)
  where
    after :
        (r : Result StProgramAst) (c : BinderContext)
        → Outcome [] 0 (λ _ p. IsBound p) (r, c)
        → Bound r
    after (ok p) c (o, le, e, h) = h
    after (err e) c h = h

bind_compilation_unit-Gives : (unit : CompilationUnit) → Gives (bind_compilation_unit unit)
unfolding bind_compilation_unit
bind_compilation_unit-Gives unit =
    let program : List (Str × PouAst) → Exec StProgramAst =
      λ registry. bind_in_context registry unit.program in
    let blocks : List (Str × PouAst) → Exec StProgramAst =
      λ registry. declare_data_blocks unit.data_blocks >> program registry in
    Gives-bind (declare (codes "System.CycleTime") TypeId.time (Value.time (pos 0)) none)
      (λ _. lift (register unit.pous []) >>= blocks)
      (declare-HasFuel (codes "System.CycleTime") TypeId.time (Value.time (pos 0)) none)
      λ _.
        Gives-bind (lift (register unit.pous [])) blocks (λ s. register-HasFuel unit.pous [])
          λ registry.
            Gives-bind (declare_data_blocks unit.data_blocks) (λ _. program registry)
              (declare_data_blocks-Ends unit.data_blocks)
              λ _. bind_program-Gives registry unit.program

-- Binding a compilation unit ends whatever the declarations say: a copy nests only in copies of other types, so
-- the bound on nested copies, the number of declared types, is never reached.
pub bind_compilation_unit-ne-out_of_fuel :
    (unit : CompilationUnit) (s : TagStore) → (bind_compilation_unit unit s).0 ≢ err out_of_fuel
bind_compilation_unit-ne-out_of_fuel unit s =
    after (bind_compilation_unit unit s).0 (bind_compilation_unit-Gives unit s)
  where
    after : (r : Result StProgramAst) → Bound r → r ≢ err out_of_fuel
    after (ok p) h q = cc
    after (err e) h q = h cc

-- In a program that the binder returns, the body of each frame calls only frames before it and the program's
-- own body calls only frames of the program.
pub bind_compilation_unit-AreOrdered :
    (unit : CompilationUnit) (s : TagStore) (program : StProgramAst)
    → (bind_compilation_unit unit s).0 ≡ ok program
    → AreOrdered program.frames × BlockBelow (length program.frames) program.body
bind_compilation_unit-AreOrdered unit s program e =
    subst Bound e (bind_compilation_unit-Gives unit s)

-- The program that the binder returns runs, from any tags, without its nested calls ever exceeding one more
-- than the number of frames: the binder and the interpreter together end.
pub exec_block-bind_compilation_unit :
    (fpu : Fpu) (unit : CompilationUnit) (s tags : TagStore) (program : StProgramAst)
    → (bind_compilation_unit unit s).0 ≡ ok program
    → (exec_block fpu program.frames (suc (length program.frames)) program.body tags).0
      ≢ err out_of_fuel
exec_block-bind_compilation_unit fpu unit s tags program e =
    let (ordered, below) = bind_compilation_unit-AreOrdered unit s program e in
    exec_block-ne-out_of_fuel fpu program.frames (length program.frames)
      (suc (length program.frames)) program.body tags ordered below (omega arith)
