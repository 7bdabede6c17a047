-- ===== src/St/Scope.antt =====
-- The context of the binder and the parts of it that copy nothing: names, expressions, arguments, coils and
-- resets (st/pou_binder.cpp). The names of std::unordered_map are those of an association list.
use soft_plc.Base.{
  ℕ, Bool, true, false, not, ◌&&◌, ◌||◌, Option, none, some, List, [], ◌∷◌, ◌++◌, Str, Str-eq,
  str_eq, codes, if◌then◌else◌, Result, ok, err, undeclared_identifier, unknown_parameter,
  wrong_direction, unbound_parameter, rung_not_bool, out_of_range,
}
use soft_plc.Base.Assoc.{lookup, contains, insert}
use soft_plc.Tags.Value.{TypeId, Value, type_eq, default_value_for}
use soft_plc.Tags.Store.{TagStore, find, tag_type}
use soft_plc.St.Ast.{
  Expr, literal, identifier, unary, binary, CallArg, input_arg, output_arg, RungOutput, VarKind,
  VarDecl, Frame, PouAst,
}
use soft_plc.St.Exec.{Exec, ExecOn, pure, throw, gets, lift}

-- Names of variables, with the ids of their tags.
abbrev pub Scope : Type 0
Scope = List (Str × ℕ)

pub record CallableInfo : Type 0 where
  pub pou_def : PouAst
  pub frame_index : ℕ
  pub param_scope : Scope

abbrev pub Callables : Type 0
Callables = List (Str × CallableInfo)

-- The newest expanding type is the first.
pub record BinderContext : Type 0 where
  pub tags : TagStore
  pub frames : List Frame
  pub expanding_types : List Str
  pub fc_call_counter : ℕ
  pub global_callables : Callables

abbrev pub Bind : Type 0 → Type 0
Bind A = ExecOn BinderContext A

-- The sequence of two steps of the binder, as that of `Exec`. What is proved of a step goes through the rules
-- of Binder/Rules.antt, which alone unfold it.
infixl 5 ◌>>=◌ ◌>>◌
unfoldable pub ◌>>=◌ : {A B : Type 0} → Bind A → (A → Bind B) → Bind B
◌>>=◌ m f s = let (r, s') = m s in elim r [ ok a ↦ f a s' | err e ↦ (err e, s') ]

abbrev pub ◌>>◌ : {B : Type 0} → Bind (Unit {0}) → Bind B → Bind B
m >> k = m >>= λ _. k

pub record ExpansionResult : Type 0 where
  pub local_scope : Scope
  pub frame_index_of_self : ℕ

pub record DeclResult : Type 0 where
  pub local_scope : Scope
  pub instance_callables : Callables

abbrev pub no_decls : DeclResult
no_decls = record { local_scope = []; instance_callables = [] }

-- An operation of the tag store, on the context's.
abbrev pub on_tags : {A : Type 0} → Exec A → Bind A
on_tags m ctx = let (r, s) = m ctx.tags in (r, record ctx { tags = s })

abbrev pub modify : (BinderContext → BinderContext) → Bind (Unit {0})
modify f ctx = (ok tt, f ctx)

unfoldable pub resolve_name : Str → Scope → Bind ℕ
resolve_name name scope ctx = elim (lookup name scope) [
  | some id ↦ (ok id, ctx)
  | none ↦ elim (find name ctx.tags) [
    | none ↦ (err undeclared_identifier, ctx)
    | some id ↦ (ok id, ctx)
  ]
]

-- std::find over the names.
unfoldable pub mentions : Str → List Str → Bool
mentions s [] = false
mentions s (t ∷ ts) = str_eq t s || mentions s ts

abbrev pub dot : Str
dot = codes "."

abbrev pub is_empty : Str → Bool
is_empty [] = true
is_empty (c ∷ s) = false

abbrev pub tag_name : Str → Str → Str
tag_name prefix name = if is_empty prefix then name else prefix ++ (dot ++ name)

-- The initial value of an elementary variable.
abbrev pub initial : VarDecl → TypeId → Value
initial decl t = elim decl.initial_value [ some v ↦ v | none ↦ default_value_for t ]

-- The loop that enters the members of a nested instance in the scope.
unfoldable pub add_members : Str → Scope → Scope → Scope
add_members name [] scope = scope
add_members name ((key, id) ∷ m) scope = add_members name m (insert (name ++ (dot ++ key)) id scope)

abbrev pub pop : List Str → List Str
pop [] = []
pop (t ∷ ts) = ts

unfoldable pub bind_expr : Scope → Expr → Bind Expr
bind_expr scope (literal v) = pure (literal v)
bind_expr scope (identifier name id) = do id' ← resolve_name name scope; pure (identifier name id')
bind_expr scope (unary op e) = do e' ← bind_expr scope e; pure (unary op e')
bind_expr scope (binary op l r) = do
  l' ← bind_expr scope l
  r' ← bind_expr scope r
  pure (binary op l' r')

abbrev pub is_input : VarKind → Bool
is_input VarKind.var_input = true
is_input _ = false

abbrev pub is_var_output : VarKind → Bool
is_var_output VarKind.var_output = true
is_var_output _ = false

abbrev pub is_temp : VarKind → Bool
is_temp VarKind.var_temp = true
is_temp _ = false

-- The first VAR_INPUT or VAR_OUTPUT of this name.
unfoldable pub find_param : Str → List VarDecl → Option VarDecl
find_param name [] = none
find_param name (d ∷ ds) =
    let rest = find_param name ds in
    if str_eq d.name name && (is_input d.kind || is_var_output d.kind) then some d else rest

-- requiredInputsBound at its start: the inputs of a function, none of them bound.
unfoldable pub required_inputs : List VarDecl → List (Str × Bool) → List (Str × Bool)
required_inputs [] m = m
required_inputs (d ∷ ds) m =
    required_inputs ds (if is_input d.kind then insert d.name false m else m)

abbrev pub mark_bound : Str → List (Str × Bool) → List (Str × Bool)
mark_bound name m = if contains name m then insert name true m else m

unfoldable pub all_bound : List (Str × Bool) → Bool
all_bound [] = true
all_bound ((name, b) ∷ m) = b && all_bound m

-- The check of one argument's name and direction.
unfoldable pub check_param : PouAst → Str → Bool → Result (Unit {0})
unfolding find_param
check_param pou name output = elim (find_param name pou.var_decls) [
  | none ↦ err unknown_parameter
  | some d ↦
      if output && not (is_var_output d.kind)
      then err wrong_direction
      else if not output && not (is_input d.kind)
      then err wrong_direction
      else ok tt
]

abbrev pub param_tag : CallableInfo → Str → Result ℕ
param_tag info name = elim (lookup name info.param_scope) [
  | none ↦ err unbound_parameter
  | some id ↦ ok id
]

-- The loop over the arguments, with the required inputs that are bound so far.
unfoldable pub bind_args :
    Scope
    → CallableInfo
    → List CallArg
    → List (Str × Bool)
    → Bind (List CallArg × List (Str × Bool))
bind_args scope info [] m = pure ([], m)
bind_args scope info (input_arg name e id ∷ args) m = do
  lift (check_param info.pou_def name false)
  id' ← lift (param_tag info name)
  e' ← bind_expr scope e
  (args', m') ← bind_args scope info args (mark_bound name m)
  pure (input_arg name e' id' ∷ args', m')
bind_args scope info (output_arg name target id tid ∷ args) m = do
  lift (check_param info.pou_def name true)
  id' ← lift (param_tag info name)
  tid' ← resolve_name target scope
  (args', m') ← bind_args scope info args m
  pure (output_arg name target id' tid' ∷ args', m')

unfoldable pub bind_rung_output : Scope → RungOutput → Bind RungOutput
bind_rung_output scope out = do
  id ← resolve_name out.target_name scope
  t ← on_tags (gets (tag_type id))
  if type_eq t TypeId.bool then pure (record out { target_id = id }) else throw rung_not_bool

unfoldable pub bind_rung_outputs : Scope → List RungOutput → Bind (List RungOutput)
bind_rung_outputs scope [] = pure []
bind_rung_outputs scope (out ∷ outs) = do
  out' ← bind_rung_output scope out
  outs' ← bind_rung_outputs scope outs
  pure (out' ∷ outs')

-- scope.at(name)
abbrev pub scope_at : Scope → Str → Result ℕ
scope_at scope name = elim (lookup name scope) [ none ↦ err out_of_range | some id ↦ ok id ]

-- A variable that is reset before each call.
abbrev pub is_reset : PouAst → VarDecl → Bool
is_reset pou d = is_temp d.kind || (pou.is_function && is_var_output d.kind)

-- The loop that collects tempResets.
unfoldable pub temp_resets : PouAst → Scope → List VarDecl → Result (List (ℕ × Value))
temp_resets pou scope [] = ok []
temp_resets pou scope (d ∷ ds) = elim d.elementary_type [
  | none ↦ temp_resets pou scope ds
  | some t ↦
      let rest = temp_resets pou scope ds in
      if is_reset pou d
      then elim (scope_at scope d.name) [
        | err e ↦ err e
        | ok id ↦ elim rest [ err e ↦ err e | ok rs ↦ ok ((id, initial d t) ∷ rs) ]
      ]
      else rest
]
