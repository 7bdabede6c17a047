-- ===== src/St/Binder.antt =====
-- The binder (st/pou_binder.cpp): it declares the tags of a compilation unit, copies the body of a block for
-- each instance and of a function for each call, and resolves names to ids. Nested copies run on a depth, at
-- 0 the model throws `out_of_fuel`.
pub mod Rules
pub mod Below
pub mod Frames
pub mod Copies
pub mod Bodies
pub mod Termination
pub mod Unit
pub mod Bound
use soft_plc.Base.{
  ℕ, zero, suc, ◌+◌, Bool, true, false, not, ◌&&◌, ◌||◌, Option, none, some, List, [], ◌∷◌, ◌++◌,
  Str, Str-eq, str_eq, codes, decimal, if◌then◌else◌, length, Result, ok, err, Error,
  undeclared_identifier, undeclared_type, circular, untyped_declaration, undeclared_callee,
  block_not_instance, unknown_parameter, wrong_direction, unbound_parameter, missing_input,
  rung_not_bool, duplicate_pou, data_block_member, out_of_range, out_of_fuel,
}
use soft_plc.Base.Int.{pos}
use soft_plc.Base.Assoc.{lookup, contains, insert, emplace}
use soft_plc.Tags.Value.{TypeId, Value, type_eq, default_value_for}
use soft_plc.Tags.Store.{TagStore, declare, find, tag_type}
use soft_plc.St.Ast.{
  Expr, literal, identifier, unary, binary, CallArg, input_arg, output_arg, RungOutput, Stmt,
  assign, if_stmt, while_stmt, call, rung, Block, nil, cons, Branches, no_branch, branch, VarKind,
  VarDecl, Frame, PouAst, DataBlockAst, StProgramAst, CompilationUnit, clone_block,
}
use soft_plc.St.Exec.{pure, throw, gets, lift}
use soft_plc.St.Scope.{
  Scope, CallableInfo, Callables, BinderContext, Bind, ◌>>=◌, ◌>>◌, ExpansionResult, DeclResult,
  no_decls, on_tags, modify, resolve_name, mentions, dot, is_empty, tag_name, initial, add_members,
  pop, bind_expr, is_input, is_var_output, is_temp, find_param, required_inputs, mark_bound,
  all_bound, check_param, param_tag, bind_args, bind_rung_output, bind_rung_outputs, scope_at,
  is_reset, temp_resets,
}

module _ (registry : List (Str × PouAst)) where
  module _ (expand : PouAst → Str → Bind ExpansionResult) where
    -- expandPou between push_back and pop_back of its type.
    unfoldable pub expand_type : Str → PouAst → Str → Bind ExpansionResult
    expand_type type pou prefix = do
      modify (λ ctx. record ctx { expanding_types = type ∷ ctx.expanding_types })
      r ← expand pou prefix
      modify (λ ctx. record ctx { expanding_types = pop ctx.expanding_types })
      pure r

    abbrev pub is_expanding : Str → BinderContext → Result Bool
    is_expanding type ctx = ok (mentions type ctx.expanding_types)

    -- The case of an instance in declareVars.
    unfoldable pub declare_instance : VarDecl → Str → Str → DeclResult → Bind DeclResult
    declare_instance decl type prefix acc = elim (lookup type registry) [
      | none ↦ throw undeclared_type
      | some pou ↦ do
        busy ← gets (is_expanding type)
        if busy then throw circular else do
          nested ← expand_type type pou (tag_name prefix decl.name)
          let info : CallableInfo = record {
            pou_def = pou;
            frame_index = nested.frame_index_of_self;
            param_scope = nested.local_scope;
          }
          modify (λ ctx.
              if is_empty prefix
              then record ctx { global_callables = insert decl.name info ctx.global_callables }
              else ctx)
          pure (record {
            local_scope = add_members decl.name nested.local_scope acc.local_scope;
            instance_callables = insert decl.name info acc.instance_callables;
          })
    ]

    unfoldable pub declare_var : VarDecl → Str → DeclResult → Bind DeclResult
    declare_var decl prefix acc = elim decl.elementary_type [
      | some t ↦ do
        id ← on_tags (declare (tag_name prefix decl.name) t (initial decl t) decl.address)
        pure (record acc { local_scope = insert decl.name id acc.local_scope })
      | none ↦ elim decl.instance_of_type [
        | some type ↦ declare_instance decl type prefix acc
        | none ↦ throw untyped_declaration
      ]
    ]

    unfoldable pub declare_vars : List VarDecl → Str → DeclResult → Bind DeclResult
    declare_vars [] prefix acc = pure acc
    declare_vars (d ∷ ds) prefix acc = declare_var d prefix acc >>= declare_vars ds prefix

    -- The prefix of the tags of a function call.
    abbrev pub call_prefix : Str → ℕ → Str
    call_prefix name k = codes "$fc_" ++ (name ++ (codes "_" ++ decimal k))

    -- fcCallCounter++, an int that does not reach its greatest value.
    abbrev pub take_counter : Bind ℕ
    take_counter ctx =
        (ok ctx.fc_call_counter, record ctx { fc_call_counter = ctx.fc_call_counter + 1 })

    -- A call of a function: a copy of its own.
    unfoldable pub expand_function : Str → Bind CallableInfo
    expand_function name = elim (lookup name registry) [
      | none ↦ throw undeclared_callee
      | some pou ↦ if not pou.is_function then throw block_not_instance else do
        busy ← gets (is_expanding name)
        if busy then throw circular else do
          k ← take_counter
          r ← expand_type name pou (call_prefix name k)
          pure (record {
            pou_def = pou;
            frame_index = r.frame_index_of_self;
            param_scope = r.local_scope;
          })
    ]

    -- The first part of bindCallStmt: the instance, the instance of the program or the function.
    unfoldable pub resolve_callee : Str → Callables → Bind CallableInfo
    resolve_callee name callables = elim (lookup name callables) [
      | some info ↦ pure info
      | none ↦ λ ctx. elim (lookup name ctx.global_callables) [
        | some info ↦ (ok info, ctx)
        | none ↦ expand_function name ctx
      ]
    ]

    unfoldable pub bind_call : Str → List CallArg → Scope → Callables → Bind Stmt
    bind_call name args scope callables = do
      info ← resolve_callee name callables
      (args', bound) ←
          bind_args scope info args
            (if info.pou_def.is_function then required_inputs info.pou_def.var_decls [] else [])
      if info.pou_def.is_function && not (all_bound bound)
          then throw missing_input
          else pure (call name args' info.frame_index)

    unfoldable mutual
      pub bind_stmt : Scope → Callables → Stmt → Bind Stmt
      bind_stmt scope callables (assign target id e) = do
        id' ← resolve_name target scope
        e' ← bind_expr scope e
        pure (assign target id' e')
      bind_stmt scope callables (if_stmt bs els) = do
        bs' ← bind_branches scope callables bs
        els' ← bind_block scope callables els
        pure (if_stmt bs' els')
      bind_stmt scope callables (while_stmt c b) = do
        c' ← bind_expr scope c
        b' ← bind_block scope callables b
        pure (while_stmt c' b')
      bind_stmt scope callables (call name args index) = bind_call name args scope callables
      bind_stmt scope callables (rung c outs) = do
        c' ← bind_expr scope c
        outs' ← bind_rung_outputs scope outs
        pure (rung c' outs')

      -- bindStmtListInto
      pub bind_block : Scope → Callables → Block → Bind Block
      bind_block scope callables nil = pure nil
      bind_block scope callables (cons s b) = do
        s' ← bind_stmt scope callables s
        b' ← bind_block scope callables b
        pure (cons s' b')

      pub bind_branches : Scope → Callables → Branches → Bind Branches
      bind_branches scope callables no_branch = pure no_branch
      bind_branches scope callables (branch c b bs) = do
        c' ← bind_expr scope c
        b' ← bind_block scope callables b
        bs' ← bind_branches scope callables bs
        pure (branch c' b' bs')

    abbrev pub push_frame : Frame → Bind ℕ
    push_frame f ctx = (ok (length ctx.frames), record ctx { frames = ctx.frames ++ f ∷ [] })

    -- expandPou, with `expand` for the copies inside.
    unfoldable pub expand_body : PouAst → Str → Bind ExpansionResult
    expand_body pou prefix = do
      decls ← declare_vars pou.var_decls prefix no_decls
      body ← bind_block decls.local_scope decls.instance_callables (clone_block pou.body)
      resets ← lift (temp_resets pou decls.local_scope pou.var_decls)
      index ← push_frame (record { scope_name = prefix; body = body; temp_resets = resets })
      pure (record { local_scope = decls.local_scope; frame_index_of_self = index })

  -- expandPou with room for `depth` nested copies.
  unfoldable pub expand_pou : ℕ → PouAst → Str → Bind ExpansionResult
  expand_pou zero pou prefix = throw out_of_fuel
  expand_pou (suc depth) pou prefix = expand_body (expand_pou depth) pou prefix

  -- bindProgram. A copy expands another type each time, so no more copies nest than there are types.
  unfoldable pub bind_program : StProgramAst → Bind StProgramAst
  bind_program program = do
    let expand = expand_pou (length registry)
    decls ← declare_vars expand program.var_decls [] no_decls
    body ← bind_block expand decls.local_scope decls.instance_callables program.body
    frames ← gets (λ ctx. ok ctx.frames)
    pure (record program { body = body; frames = frames })
