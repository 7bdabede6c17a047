-- ===== src/St/Binder/Frames.antt =====
-- The binder's steps that copy nothing keep the frames in order: names, arguments and coils
-- (st/pou_binder.cpp).
use soft_plc.Base.{ℕ, Bool, true, false, List, [], ◌∷◌, Str, Str-eq, rung_not_bool}
use soft_plc.Tags.Value.{TypeId, type_eq}
use soft_plc.Tags.Store.{tag_type}
use soft_plc.St.Ast.{
  Expr, literal, identifier, unary, binary, CallArg, input_arg, output_arg, RungOutput,
}
use soft_plc.St.Exec.{gets, lift}
use soft_plc.St.Interp.Fuel.{tag_type-HasFuel}
use soft_plc.St.Scope.{
  Scope, CallableInfo, on_tags, resolve_name, bind_expr, mark_bound, check_param, param_tag,
  bind_args, bind_rung_output, bind_rung_outputs,
}
use soft_plc.St.Binder.Below.{check_param-HasFuel, param_tag-HasFuel}
use soft_plc.St.Binder.Rules.{
  Binds, Always, Binds-seq, Binds-done, Binds-throw, Binds-lift, Binds-if, on_tags-Binds,
  resolve_name-Binds,
}

module _ (types : List Str) where
  pub bind_expr-Binds :
      (n : ℕ) (scope : Scope) (e : Expr) → Binds types n Always (bind_expr scope e)
  unfolding bind_expr
  bind_expr-Binds n scope (literal v) = Binds-done types n _
  bind_expr-Binds n scope (identifier name id) =
      Binds-seq types n Always (resolve_name name scope) _ (resolve_name-Binds types n name scope)
        λ k a h. Binds-done types k _
  bind_expr-Binds n scope (unary op e) =
      Binds-seq types n Always (bind_expr scope e) _ (bind_expr-Binds n scope e)
        λ k a h. Binds-done types k _
  bind_expr-Binds n scope (binary op l r) =
      Binds-seq types n Always (bind_expr scope l) _ (bind_expr-Binds n scope l) λ k a h.
        Binds-seq types k Always (bind_expr scope r) _ (bind_expr-Binds k scope r)
          λ k' b h'. Binds-done types k' _

  pub bind_args-Binds :
      (n : ℕ) (scope : Scope) (info : CallableInfo) (args : List CallArg) (m : List (Str × Bool))
      → Binds types n Always (bind_args scope info args m)
  unfolding bind_args
  bind_args-Binds n scope info [] m = Binds-done types n _
  bind_args-Binds n scope info (input_arg name e id ∷ args) m =
      Binds-seq types n Always (lift (check_param info.pou_def name false)) _
        (Binds-lift types n _ (check_param-HasFuel info.pou_def name false))
        λ k1 _ _.
          Binds-seq types k1 Always (lift (param_tag info name)) _
            (Binds-lift types k1 _ (param_tag-HasFuel info name))
            λ k2 _ _.
              Binds-seq types k2 Always (bind_expr scope e) _ (bind_expr-Binds k2 scope e) λ k3 _ _.
                Binds-seq types k3 Always (bind_args scope info args (mark_bound name m)) _
                  (bind_args-Binds k3 scope info args (mark_bound name m))
                  λ k4 _ _. Binds-done types k4 _
  bind_args-Binds n scope info (output_arg name target id tid ∷ args) m =
      Binds-seq types n Always (lift (check_param info.pou_def name true)) _
        (Binds-lift types n _ (check_param-HasFuel info.pou_def name true))
        λ k1 _ _.
          Binds-seq types k1 Always (lift (param_tag info name)) _
            (Binds-lift types k1 _ (param_tag-HasFuel info name))
            λ k2 _ _.
              Binds-seq types k2 Always (resolve_name target scope) _
                (resolve_name-Binds types k2 target scope)
                λ k3 _ _.
                  Binds-seq types k3 Always (bind_args scope info args m) _
                    (bind_args-Binds k3 scope info args m) λ k4 _ _. Binds-done types k4 _

  pub bind_rung_output-Binds :
      (n : ℕ) (scope : Scope) (out : RungOutput) → Binds types n Always (bind_rung_output scope out)
  unfolding bind_rung_output
  bind_rung_output-Binds n scope out =
      Binds-seq types n Always (resolve_name out.target_name scope) _
        (resolve_name-Binds types n out.target_name scope)
        λ k id _.
          Binds-seq types k Always (on_tags (gets (tag_type id))) _
            (on_tags-Binds types k (gets (tag_type id)) (λ s. tag_type-HasFuel id s))
            λ k2 t _.
              Binds-if types k2 Always (type_eq t TypeId.bool) _ _ (λ _. Binds-done types k2 _)
                (λ _. Binds-throw types k2 Always rung_not_bool (λ q. cc))

  pub bind_rung_outputs-Binds :
      (n : ℕ) (scope : Scope) (outs : List RungOutput)
      → Binds types n Always (bind_rung_outputs scope outs)
  unfolding bind_rung_outputs
  bind_rung_outputs-Binds n scope [] = Binds-done types n _
  bind_rung_outputs-Binds n scope (out ∷ outs) =
      Binds-seq types n Always (bind_rung_output scope out) _ (bind_rung_output-Binds n scope out)
        λ k _ _.
          Binds-seq types k Always (bind_rung_outputs scope outs) _
            (bind_rung_outputs-Binds k scope outs) λ k2 _ _. Binds-done types k2 _
