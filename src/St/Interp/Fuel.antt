-- ===== src/St/Interp/Fuel.antt =====
-- Where the model throws `out_of_fuel` (st/interpreter.cpp and the operators it calls).
use soft_plc.Base.{
  ℕ, ◌≢◌, minus_operand, Bool, true, false, not, ◌&&◌, ◌||◌, Result, ok, err, out_of_fuel,
  if◌then◌else◌, ◌==◌, ◌>>=◌ as bind_result, arith,
}
use soft_plc.Base.Int.{ℤ, beq_ℤ}
use soft_plc.Tags.Value.{TypeId, Value, type_of, type_eq}
use soft_plc.Tags.Store.{TagStore, read, write, tag_type, invalid_id}
use soft_plc.St.Fpu.{Fpu}
use soft_plc.St.Ops.{
  BinaryOp, UnaryOp, is_numeric, numeric_result_type, as_double, from_double, coerce_to_type,
  time_min, time_arithmetic, double_arithmetic, numeric_arithmetic, eval_arithmetic, compare_with,
  bool_comparison, numeric_comparison, eval_comparison, eval_logical, eval_unary,
}
use soft_plc.St.Ast.{Expr, literal, identifier, unary, binary}
use soft_plc.St.Interp.{evaluate, eval_binary, as_condition}

abbrev pub HasFuel : {A : Type 0} → Result A → Type 0
HasFuel r = r ≢ err out_of_fuel

pub HasFuel-bind :
    {A B : Type 0} (m : Result A) (f : A → Result B)
    → HasFuel m
    → ((a : A) → HasFuel (f a))
    → HasFuel (bind_result m f)
HasFuel-bind (ok a) f h k = k a
HasFuel-bind (err e) f h k = λ q. h (cc q)

HasFuel-if :
    {A : Type 0} (b : Bool) (x y : Result A) → HasFuel x → HasFuel y → HasFuel (if b then x else y)
HasFuel-if true x y h k = h
HasFuel-if false x y h k = k

numeric_result_type-HasFuel : (s t : TypeId) → HasFuel (numeric_result_type s t)
unfolding numeric_result_type
numeric_result_type-HasFuel s t q = ground arith

time_arithmetic-HasFuel : (op : BinaryOp) (a b : ℤ) → HasFuel (time_arithmetic op a b)
unfolding time_arithmetic
time_arithmetic-HasFuel op a b q = ground arith

compare_with-HasFuel :
    {A : Type 0} (same less at_most : A → A → Bool) (op : BinaryOp) (a b : A)
    → HasFuel (compare_with same less at_most op a b)
unfolding compare_with
compare_with-HasFuel same less at_most op a b q = ground arith

bool_comparison-HasFuel : (op : BinaryOp) (a b : Bool) → HasFuel (bool_comparison op a b)
unfolding bool_comparison
bool_comparison-HasFuel op a b q = ground arith

eval_logical-HasFuel : (op : BinaryOp) (l r : Value) → HasFuel (eval_logical op l r)
unfolding eval_logical
eval_logical-HasFuel op l r q = ground arith

pub read-HasFuel : (id : ℕ) (s : TagStore) → HasFuel (read id s)
unfolding read
read-HasFuel id s q = ground arith

pub tag_type-HasFuel : (id : ℕ) (s : TagStore) → HasFuel (tag_type id s)
unfolding tag_type
tag_type-HasFuel id s q = ground arith

pub write-HasFuel : (id : ℕ) (v : Value) (s : TagStore) → HasFuel (write id v s).0
unfolding write
write-HasFuel id v s q = ground arith

module _ (fpu : Fpu) where
  as_double-HasFuel : (v : Value) → HasFuel (as_double fpu v)
  unfolding as_double
  as_double-HasFuel v q = ground arith

  from_double-HasFuel : (d : ℕ) (t : TypeId) → HasFuel (from_double fpu d t)
  unfolding from_double
  from_double-HasFuel d t q = ground arith

  double_arithmetic-HasFuel : (op : BinaryOp) (a b : ℕ) → HasFuel (double_arithmetic fpu op a b)
  unfolding double_arithmetic
  double_arithmetic-HasFuel op a b q = ground arith

  pub coerce_to_type-HasFuel : (v : Value) (t : TypeId) → HasFuel (coerce_to_type fpu v t)
  unfolding coerce_to_type
  coerce_to_type-HasFuel v t =
      HasFuel-if (type_eq (type_of v) t) _ _ (λ q. cc)
        (HasFuel-if (is_numeric (type_of v) && is_numeric t) _ _
          (HasFuel-bind (as_double fpu v) _ (as_double-HasFuel v) (λ d. from_double-HasFuel d t))
          (λ q. cc))

  numeric_arithmetic-HasFuel :
      (op : BinaryOp) (l r : Value) → HasFuel (numeric_arithmetic fpu op l r)
  unfolding numeric_arithmetic
  numeric_arithmetic-HasFuel op l r =
      HasFuel-if (not (is_numeric (type_of l)) || not (is_numeric (type_of r))) _ _ (λ q. cc)
        (HasFuel-bind (as_double fpu l) _ (as_double-HasFuel l) λ a.
          HasFuel-bind (as_double fpu r) _ (as_double-HasFuel r) λ b.
            HasFuel-bind (double_arithmetic fpu op a b) _ (double_arithmetic-HasFuel op a b) λ d.
              HasFuel-bind (numeric_result_type (type_of l) (type_of r)) _
                (numeric_result_type-HasFuel (type_of l) (type_of r)) (from_double-HasFuel d))

  eval_arithmetic-HasFuel : (op : BinaryOp) (l r : Value) → HasFuel (eval_arithmetic fpu op l r)
  unfolding eval_arithmetic
  eval_arithmetic-HasFuel op (Value.time a) (Value.time b) = time_arithmetic-HasFuel op a b
  eval_arithmetic-HasFuel op (Value.time a) r = numeric_arithmetic-HasFuel op (Value.time a) r
  eval_arithmetic-HasFuel op l r = numeric_arithmetic-HasFuel op l r

  numeric_comparison-HasFuel :
      (op : BinaryOp) (l r : Value) → HasFuel (numeric_comparison fpu op l r)
  unfolding numeric_comparison
  numeric_comparison-HasFuel op l r =
      HasFuel-if (is_numeric (type_of l) && is_numeric (type_of r)) _ _
        (HasFuel-bind (as_double fpu l) _ (as_double-HasFuel l) λ a.
          HasFuel-bind (as_double fpu r) _ (as_double-HasFuel r)
            λ b. compare_with-HasFuel fpu.eq fpu.lt fpu.le op a b)
        (λ q. cc)

  eval_comparison-HasFuel : (op : BinaryOp) (l r : Value) → HasFuel (eval_comparison fpu op l r)
  unfolding eval_comparison
  eval_comparison-HasFuel op (Value.bool a) (Value.bool b) = bool_comparison-HasFuel op a b
  eval_comparison-HasFuel op (Value.string a) (Value.string b) = compare_with-HasFuel _ _ _ op a b
  eval_comparison-HasFuel op (Value.time a) (Value.time b) = compare_with-HasFuel _ _ _ op a b
  eval_comparison-HasFuel op l r = numeric_comparison-HasFuel op l r

  eval_unary-HasFuel : (op : UnaryOp) (v : Value) → HasFuel (eval_unary fpu op v)
  unfolding eval_unary
  eval_unary-HasFuel UnaryOp.logical_not (Value.bool b) = λ q. cc
  eval_unary-HasFuel UnaryOp.logical_not _ = λ q. cc
  eval_unary-HasFuel UnaryOp.neg (Value.time t) =
      HasFuel-if (beq_ℤ t time_min) _ _ (λ q. cc) (λ q. cc)
  eval_unary-HasFuel UnaryOp.neg v = negated v
    where
      negated :
          (v : Value)
          → HasFuel (
              if is_numeric (type_of v)
              then bind_result (as_double fpu v) (λ d. from_double fpu (fpu.neg d) (type_of v))
              else err minus_operand)
      negated v =
          HasFuel-if (is_numeric (type_of v)) _ _
            (HasFuel-bind (as_double fpu v) _ (as_double-HasFuel v)
              (λ d. from_double-HasFuel (fpu.neg d) (type_of v)))
            (λ q. cc)

  eval_binary-HasFuel : (op : BinaryOp) (l r : Value) → HasFuel (eval_binary fpu op l r)
  unfolding eval_binary
  eval_binary-HasFuel BinaryOp.add l r = eval_arithmetic-HasFuel _ l r
  eval_binary-HasFuel BinaryOp.sub l r = eval_arithmetic-HasFuel _ l r
  eval_binary-HasFuel BinaryOp.mul l r = eval_arithmetic-HasFuel _ l r
  eval_binary-HasFuel BinaryOp.div l r = eval_arithmetic-HasFuel _ l r
  eval_binary-HasFuel BinaryOp.and l r = eval_logical-HasFuel _ l r
  eval_binary-HasFuel BinaryOp.or l r = eval_logical-HasFuel _ l r
  eval_binary-HasFuel BinaryOp.xor l r = eval_logical-HasFuel _ l r
  eval_binary-HasFuel op l r = eval_comparison-HasFuel op l r

  pub evaluate-HasFuel : (e : Expr) (s : TagStore) → HasFuel (evaluate fpu e s)
  unfolding evaluate
  evaluate-HasFuel (literal v) s = λ q. cc
  evaluate-HasFuel (identifier name id) s =
      HasFuel-if (id == invalid_id) _ _ (λ q. cc) (read-HasFuel id s)
  evaluate-HasFuel (unary op e) s =
      HasFuel-bind (evaluate fpu e s) _ (evaluate-HasFuel e s) (eval_unary-HasFuel op)
  evaluate-HasFuel (binary op a b) s =
      HasFuel-bind (evaluate fpu a s) _ (evaluate-HasFuel a s)
        λ v. HasFuel-bind (evaluate fpu b s) _ (evaluate-HasFuel b s) (eval_binary-HasFuel op v)

  pub as_condition-HasFuel : (v : Value) → HasFuel (as_condition fpu v)
  as_condition-HasFuel v q = ground arith
