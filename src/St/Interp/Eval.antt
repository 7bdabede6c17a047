-- ===== src/St/Interp/Eval.antt =====
-- The values of expressions (Interpreter::evaluate of st/interpreter.cpp).
use soft_plc.Base.{
  ℕ, ◌≡◌, Bool, false, Result, ok, err, All, if◌then◌else◌, ◌==◌, get_elem?, Option-cases, inl, inr,
  All-get_elem?, arith, ◌&&◌, ◌^◌, ◌>>=◌ as bind_result, minus_operand,
}
use soft_plc.Tags.Value.{TypeId, Value, InRange, Tag, type_of}
use soft_plc.Base.Int.{ℤ, neg_ℤ, neg_ℤ_parts, InSigned, beq_ℤ}
use soft_plc.Tags.Store.{TagStore, read, invalid_id}
use soft_plc.Tags.Store.Valid.{read-some, read-none}
use soft_plc.St.Fpu.{Fpu, FpuLaws}
use soft_plc.St.Ops.{
  BinaryOp, UnaryOp, eval_comparison, eval_logical, eval_unary, compare_with, bool_comparison,
  numeric_comparison, as_double, is_numeric, from_double, time_min,
}
use soft_plc.St.Ops.Types.{
  Returns, Returns-bind, Returns-if, HasType, eval_arithmetic-InRange, from_double-HasType,
  as_double-lt,
}
use soft_plc.St.Ast.{Expr, literal, identifier, unary, binary}
use soft_plc.St.Interp.{evaluate, eval_binary}

-- Every literal lies in the range of its type.
abbrev pub LiteralsOk : Expr → Type 0
LiteralsOk (literal v) = InRange v
LiteralsOk (identifier name id) = Unit
LiteralsOk (unary op e) = LiteralsOk e
LiteralsOk (binary op l r) = LiteralsOk l × LiteralsOk r

abbrev pub TagOk : Tag → Type 0
TagOk t = HasType t.type t.value

compare_with-InRange :
    {A : Type 0} (same less at_most : A → A → Bool) (op : BinaryOp) (a b : A)
    → Returns InRange (compare_with same less at_most op a b)
unfolding compare_with
compare_with-InRange same less at_most BinaryOp.eq a b = tt
compare_with-InRange same less at_most BinaryOp.ne a b = tt
compare_with-InRange same less at_most BinaryOp.lt a b = tt
compare_with-InRange same less at_most BinaryOp.gt a b = tt
compare_with-InRange same less at_most BinaryOp.le a b = tt
compare_with-InRange same less at_most BinaryOp.ge a b = tt
compare_with-InRange same less at_most _ a b = tt

bool_comparison-InRange : (op : BinaryOp) (a b : Bool) → Returns InRange (bool_comparison op a b)
unfolding bool_comparison
bool_comparison-InRange BinaryOp.eq a b = tt
bool_comparison-InRange BinaryOp.ne a b = tt
bool_comparison-InRange _ a b = tt

eval_logical-InRange : (op : BinaryOp) (l r : Value) → Returns InRange (eval_logical op l r)
unfolding eval_logical
eval_logical-InRange BinaryOp.and (Value.bool a) (Value.bool b) = tt
eval_logical-InRange BinaryOp.or (Value.bool a) (Value.bool b) = tt
eval_logical-InRange BinaryOp.xor (Value.bool a) (Value.bool b) = tt
eval_logical-InRange _ (Value.bool a) (Value.bool b) = tt
eval_logical-InRange _ _ _ = tt

neg_ℤ-InSigned :
    (t : ℤ) → InSigned (2 ^ 63) t → beq_ℤ t time_min ≡ false → InSigned (2 ^ 63) (neg_ℤ t)
neg_ℤ-InSigned t h p = ground (arith, neg_ℤ_parts t)

module _ (fpu : Fpu) (laws : FpuLaws fpu) where
  numeric_comparison-InRange :
      (op : BinaryOp) (l r : Value)
      → InRange l
      → InRange r
      → Returns InRange (numeric_comparison fpu op l r)
  unfolding numeric_comparison
  numeric_comparison-InRange op l r hl hr =
      Returns-if InRange (is_numeric (type_of l) && is_numeric (type_of r)) _ _
        (λ _. Returns-bind _ InRange (as_double fpu l) _ (as_double-lt fpu laws l hl) λ a _.
          Returns-bind _ InRange (as_double fpu r) _ (as_double-lt fpu laws r hr)
            λ b _. compare_with-InRange fpu.eq fpu.lt fpu.le op a b)
        (λ _. tt)

  eval_comparison-InRange :
      (op : BinaryOp) (l r : Value)
      → InRange l
      → InRange r
      → Returns InRange (eval_comparison fpu op l r)
  unfolding eval_comparison
  eval_comparison-InRange op (Value.bool a) (Value.bool b) hl hr = bool_comparison-InRange op a b
  eval_comparison-InRange op (Value.string a) (Value.string b) hl hr =
      compare_with-InRange _ _ _ op a b
  eval_comparison-InRange op (Value.time a) (Value.time b) hl hr = compare_with-InRange _ _ _ op a b
  eval_comparison-InRange op l r hl hr = numeric_comparison-InRange op l r hl hr

  eval_binary-InRange :
      (op : BinaryOp) (l r : Value)
      → InRange l
      → InRange r
      → Returns InRange (eval_binary fpu op l r)
  unfolding eval_binary
  eval_binary-InRange BinaryOp.add l r hl hr = eval_arithmetic-InRange fpu laws _ l r hl hr
  eval_binary-InRange BinaryOp.sub l r hl hr = eval_arithmetic-InRange fpu laws _ l r hl hr
  eval_binary-InRange BinaryOp.mul l r hl hr = eval_arithmetic-InRange fpu laws _ l r hl hr
  eval_binary-InRange BinaryOp.div l r hl hr = eval_arithmetic-InRange fpu laws _ l r hl hr
  eval_binary-InRange BinaryOp.and l r hl hr = eval_logical-InRange _ l r
  eval_binary-InRange BinaryOp.or l r hl hr = eval_logical-InRange _ l r
  eval_binary-InRange BinaryOp.xor l r hl hr = eval_logical-InRange _ l r
  eval_binary-InRange op l r hl hr = eval_comparison-InRange op l r hl hr

  HasType-InRange : (t : TypeId) (r : Result Value) → Returns (HasType t) r → Returns InRange r
  HasType-InRange t (ok v) h = h.1
  HasType-InRange t (err e) h = tt

  negated :
      (v : Value)
      → InRange v
      → Returns InRange (
          if is_numeric (type_of v)
          then bind_result (as_double fpu v) (λ d. from_double fpu (fpu.neg d) (type_of v))
          else err minus_operand)
  negated v h =
      Returns-if InRange (is_numeric (type_of v)) _ _
        (λ _. Returns-bind _ InRange (as_double fpu v) _ (as_double-lt fpu laws v h) λ d lt.
          HasType-InRange (type_of v) _
            (from_double-HasType fpu laws (fpu.neg d) (type_of v) (laws.neg-lt d lt)))
        (λ _. tt)

  eval_unary-InRange :
      (op : UnaryOp) (v : Value) → InRange v → Returns InRange (eval_unary fpu op v)
  unfolding eval_unary
  eval_unary-InRange UnaryOp.logical_not (Value.bool b) h = tt
  eval_unary-InRange UnaryOp.logical_not _ h = tt
  eval_unary-InRange UnaryOp.neg (Value.time t) h =
      Returns-if InRange (beq_ℤ t time_min) _ _ (λ _. tt) (neg_ℤ-InSigned t h)
  eval_unary-InRange UnaryOp.neg v h = negated v h

  pub read-InRange : (id : ℕ) (s : TagStore) → All TagOk s.tags → Returns InRange (read id s)
  read-InRange id s h = elim (Option-cases (get_elem? s.tags id)) [
    | inl p ↦ rw (read-none id s p) tt
    | inr (t, p) ↦ rw (read-some id s p) (All-get_elem? TagOk s.tags id h p).1
  ]

  -- Where the literals of an expression and the values of all tags lie in the ranges of their types, the
  -- expression throws or evaluates to a value in the range of its type.
  pub evaluate-InRange :
      (e : Expr) (s : TagStore)
      → LiteralsOk e
      → All TagOk s.tags
      → Returns InRange (evaluate fpu e s)
  unfolding evaluate
  evaluate-InRange (literal v) s l h = l
  evaluate-InRange (identifier name id) s l h =
      Returns-if InRange (id == invalid_id) _ _ (λ _. tt) (λ _. read-InRange id s h)
  evaluate-InRange (unary op e) s l h =
      Returns-bind InRange InRange (evaluate fpu e s) _ (evaluate-InRange e s l h)
        (eval_unary-InRange op)
  evaluate-InRange (binary op a b) s l h =
      Returns-bind InRange InRange (evaluate fpu a s) _ (evaluate-InRange a s l.0 h) λ v hv.
        Returns-bind InRange InRange (evaluate fpu b s) _ (evaluate-InRange b s l.1 h)
          λ w hw. eval_binary-InRange op v w hv hw
