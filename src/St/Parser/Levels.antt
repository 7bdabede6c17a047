-- ===== src/St/Parser/Levels.antt =====
-- The levels of operators, from the one that binds most to OR, as one fold (parseOr to parseMultiplicative of
-- st/parser.cpp).
use soft_plc.Base.{
  ℕ, suc, ◌≡◌, refl, ◌∙◌, ap, inl, inr, Option, none, some, List, [], ◌∷◌, length, ok, err,
  Option-cases, some_inj,
}
use soft_plc.St.Ops.{BinaryOp}
use soft_plc.St.Ast.{Expr, binary}
use soft_plc.St.Token.{TokenType, Token}
use soft_plc.St.Parsing.{Parser, Parse, ◌>>=◌, pure, peek, advance, remaining}
use soft_plc.St.Parser.{
  or_op, xor_op, and_op, equality_op, relational_op, additive_op, multiplicative_op, operands,
  level,
}
use soft_plc.St.Parser.Print.{binary_token}

abbrev pub Ops : Type 0
Ops = TokenType → Option BinaryOp

abbrev pub on : Token → List Token → Parser
on t ts = record { current = t; ahead = ts }

-- The levels, from the one that binds most.
unfoldable pub levels : List Ops
levels =
    multiplicative_op ∷ additive_op ∷ relational_op ∷ equality_op ∷ and_op ∷ xor_op ∷ or_op ∷ []

abbrev pub climb : List Ops → Parse Expr → Parse Expr
climb [] next = next
climb (op ∷ ops) next = climb ops (level op next)

-- The operator that a token is on one of the levels.
abbrev pub operator_in : List Ops → TokenType → Option BinaryOp
operator_in [] t = none
operator_in (op ∷ ops) t = elim (op t) [ some o ↦ some o | none ↦ operator_in ops t ]

pub bind-ok :
    {A B : Type 0} (m : Parse A) (f : A → Parse B) (s s' : Parser) (a : A)
    → m s ≡ ok (a, s')
    → (m >>= f) s ≡ f a s'
unfolding ◌>>=◌
bind-ok m f s s' a h = ap (λ r. elim r [ ok x ↦ f x.0 x.1 | err e ↦ err e ]) h

operands-none :
    (op : Ops) (next : Parse Expr) (n : ℕ) (s : Parser) (l : Expr)
    → op s.current.type ≡ none
    → operands op next (suc n) l s ≡ ok (l, s)
unfolding operands ◌>>=◌ peek pure
operands-none op next n s l e = rw (e, operands) refl

operands-some :
    (op : Ops) (next : Parse Expr) (n : ℕ) (u v : Token) (vs : List Token) (l : Expr) (o : BinaryOp)
    → op u.type ≡ some o
    → operands op next (suc n) l (on u (v ∷ vs))
      ≡ (next >>= λ r. operands op next n (binary o l r)) (on v vs)
unfolding operands ◌>>=◌ peek pure advance
operands-some op next n u v vs l o e = rw (e, operands) refl

level-none :
    (op : Ops) (next : Parse Expr) (s s' : Parser) (l : Expr)
    → next s ≡ ok (l, s')
    → op s'.current.type ≡ none
    → level op next s ≡ ok (l, s')
unfolding level ◌>>=◌ remaining
level-none op next s s' l h e =
    bind-ok next (λ l'. remaining >>= λ n. operands op next (suc n) l') s s' l h
    ∙ operands-none op next (length s'.ahead) s' l e

level-one :
    (op : Ops) (next : Parse Expr) (s s' : Parser) (l r : Expr) (u v : Token) (vs : List Token)
    (o : BinaryOp)
    → next s ≡ ok (l, on u (v ∷ vs))
    → op u.type ≡ some o
    → next (on v vs) ≡ ok (r, s')
    → op s'.current.type ≡ none
    → level op next s ≡ ok (binary o l r, s')
unfolding level ◌>>=◌ remaining
level-one op next s s' l r u v vs o h e k z =
    bind-ok next (λ l'. remaining >>= λ n. operands op next (suc n) l') s (on u (v ∷ vs)) l h
    ∙ operands-some op next (suc (length vs)) u v vs l o e
    ∙ bind-ok next (λ x. operands op next (suc (length vs)) (binary o l x)) (on v vs) s' r k
    ∙ operands-none op next (length vs) s' (binary o l r) z

pub climb-none :
    (ops : List Ops) (next : Parse Expr) (s s' : Parser) (l : Expr)
    → next s ≡ ok (l, s')
    → operator_in ops s'.current.type ≡ none
    → climb ops next s ≡ ok (l, s')
climb-none [] next s s' l h e = h
climb-none (op ∷ ops) next s s' l h e = elim (Option-cases (op s'.current.type)) [
  | inl q ↦ climb-none ops (level op next) s s' l (level-none op next s s' l h q) (rw q at e)
  | inr (o, q) ↦ let no : some o ≡ none = rw q at e in absurd (cc no)
]

pub climb-one :
    (ops : List Ops) (next : Parse Expr) (s s' : Parser) (l r : Expr) (u v : Token)
    (vs : List Token) (o : BinaryOp)
    → operator_in ops u.type ≡ some o
    → operator_in ops s'.current.type ≡ none
    → next s ≡ ok (l, on u (v ∷ vs))
    → next (on v vs) ≡ ok (r, s')
    → climb ops next s ≡ ok (binary o l r, s')
climb-one [] next s s' l r u v vs o a b h k = cc
climb-one (op ∷ ops) next s s' l r u v vs o a b h k = elim (Option-cases (op s'.current.type)) [
  | inr (x, q) ↦ let no : some x ≡ none = rw q at b in absurd (cc no)
  | inl q ↦ elim (Option-cases (op u.type)) [
    | inl z ↦
        climb-one ops (level op next) s s' l r u v vs o (rw z at a) (rw q at b)
          (level-none op next s (on u (v ∷ vs)) l h z) (level-none op next (on v vs) s' r k q)
    | inr (x, z) ↦
        let same : x ≡ o = some_inj (rw z at a) in
        climb-none ops (level op next) s s' (binary o l r)
          (level-one op next s s' l r u v vs o h (z ∙ ap some same) k q) (rw q at b)
  ]
]

pub binary_token-operator : (op : BinaryOp) → operator_in levels (binary_token op) ≡ some op
unfolding levels multiplicative_op additive_op relational_op equality_op and_op xor_op or_op
binary_token-operator BinaryOp.add = refl
binary_token-operator BinaryOp.sub = refl
binary_token-operator BinaryOp.mul = refl
binary_token-operator BinaryOp.div = refl
binary_token-operator BinaryOp.eq = refl
binary_token-operator BinaryOp.ne = refl
binary_token-operator BinaryOp.lt = refl
binary_token-operator BinaryOp.gt = refl
binary_token-operator BinaryOp.le = refl
binary_token-operator BinaryOp.ge = refl
binary_token-operator BinaryOp.and = refl
binary_token-operator BinaryOp.or = refl
binary_token-operator BinaryOp.xor = refl

pub paren-operator : operator_in levels TokenType.r_paren ≡ none
unfolding levels multiplicative_op additive_op relational_op equality_op and_op xor_op or_op
paren-operator = refl
