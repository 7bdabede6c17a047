-- ===== src/St/Parsing/Rules.antt =====
-- Steps of the parser that take tokens and do not run out of fuel, and the rules to compose them (st/parser.cpp).
use soft_plc.Base.{
  ℕ, ◌+◌, ◌<◌, ◌≤◌, ◌≡◌, ◌≢◌, refl, ◌∙◌, ap, arith, inl, inr, Bool, true, false, List, [], ◌∷◌,
  ◌==◌, length, if◌then◌else◌, Result, ok, err, Error, out_of_fuel, Bool-cases,
}
use soft_plc.St.Token.{TokenType, Token, type_eq, is_end}
use soft_plc.St.Lexer.Ends.{ends_once}
use soft_plc.St.Parsing.{
  Parser, Parse, ◌>>=◌, ◌>>◌, pure, fail, peek, advance, of_result, remaining, check, matches,
  expect,
}

-- From tokens with a single end, at most `n` of them ahead, the step leaves such tokens, and takes `k` at least.
abbrev pub Left : {A : Type 0} → ℕ → ℕ → Result (A × Parser) → Type 0
Left m k (ok (a, s)) = (ends_once (s.current ∷ s.ahead) ≡ true) × (length s.ahead + k ≤ m)
Left m k (err e) = e ≢ out_of_fuel

pub record Runs {A : Type 0} (n k : ℕ) (m : Parse A) : Type 0 where
  pub run :
      (s : Parser)
      → ends_once (s.current ∷ s.ahead) ≡ true
      → length s.ahead ≤ n
      → Left (length s.ahead) k (m s)

-- The step, from states at this token.
pub record RunsAt {A : Type 0} (tok : Token) (n k : ℕ) (m : Parse A) : Type 0 where
  pub run :
      (s : Parser)
      → s.current ≡ tok
      → ends_once (s.current ∷ s.ahead) ≡ true
      → length s.ahead ≤ n
      → Left (length s.ahead) k (m s)

Left-lower :
    {A : Type 0} (m m' k k' : ℕ) (r : Result (A × Parser))
    → m + k' ≤ m' + k
    → Left m k r
    → Left m' k' r
Left-lower m m' k k' (ok (a, s)) le (e, h) = (e, omega arith)
Left-lower m m' k k' (err e) le h = h

-- Behind a token that is not the end there are others, the end among them.
behind :
    (t : Token) (ts : List Token)
    → is_end t.type ≡ false
    → ends_once (t ∷ ts) ≡ true
    → ends_once ts ≡ true
unfolding ends_once
behind t ts h e = rw h at e

pub ends-ahead :
    (s : Parser)
    → is_end s.current.type ≡ false
    → ends_once (s.current ∷ s.ahead) ≡ true
    → Left (length s.ahead) 1 (advance s)
unfolding advance ends_once
ends-ahead s h e = at s.ahead (behind s.current s.ahead h e)
  where
    at :
        (ts : List Token)
        → ends_once ts ≡ true
        → Left (length ts) 1 (advance (record s { ahead = ts }))
    at [] e = cc
    at (t ∷ ts) e = (e, omega arith)

pub type_eq-not_end : (t u : TokenType) → type_eq t u ≡ true → is_end u ≡ false → is_end t ≡ false
unfolding is_end
type_eq-not_end t u e h = ground arith

Left-bind :
    {A B : Type 0} (n m j k i : ℕ) (f : A → Parse B) (r : Result (A × Parser))
    → i ≤ j + k
    → m ≤ n
    → Left m j r
    → ((n' : ℕ) (a : A) → n' + j ≤ n → Runs n' k (f a))
    → let x : Result (B × Parser) = elim r [ ok q ↦ f q.0 q.1 | err z ↦ err z ] in Left m i x
Left-bind n m j k i f (ok (a, s)) le le' (e, h) hf =
    Left-lower (length s.ahead) m k i (f a s) (omega arith)
      ((hf (length s.ahead) a (omega arith)).run s e (omega arith))
Left-bind n m j k i f (err z) le le' h hf = h

module _ (n : ℕ) where
  pub Runs-lower : {A : Type 0} (k : ℕ) (m : Parse A) → Runs n k m → Runs n 0 m
  Runs-lower k m h = record {
    run = λ s e le.
        Left-lower (length s.ahead) (length s.ahead) k 0 (m s) (omega arith) (h.run s e le);
  }

  pub Runs-fewer : {A : Type 0} (n' k : ℕ) (m : Parse A) → n' ≤ n → Runs n k m → Runs n' k m
  Runs-fewer n' k m le h = record { run = λ s e le'. h.run s e (omega arith) }

  -- A step that takes `j` and another one that takes `k`.
  bind :
      {A B : Type 0} (j k i : ℕ) (m : Parse A) (f : A → Parse B)
      → i ≤ j + k
      → Runs n j m
      → ((n' : ℕ) (a : A) → n' + j ≤ n → Runs n' k (f a))
      → Runs n i (m >>= f)
  unfolding ◌>>=◌
  bind j k i m f le hm hf = record {
    run = λ s e le'. Left-bind n (length s.ahead) j k i f (m s) le le' (hm.run s e le') hf;
  }

  -- The first step may take nothing.
  pub Runs-seq :
      {A B : Type 0} (k : ℕ) (m : Parse A) (f : A → Parse B)
      → Runs n 0 m
      → ((n' : ℕ) (a : A) → n' ≤ n → Runs n' k (f a))
      → Runs n k (m >>= f)
  Runs-seq k m f hm hf = bind 0 k k m f (omega arith) hm (λ n' a le. hf n' a (omega arith))

  -- The first step takes a token.
  pub Runs-take :
      {A B : Type 0} (m : Parse A) (f : A → Parse B)
      → Runs n 1 m
      → ((n' : ℕ) (a : A) → n' < n → Runs n' 0 (f a))
      → Runs n 1 (m >>= f)
  Runs-take m f hm hf = bind 1 0 1 m f (omega arith) hm (λ n' a le. hf n' a (omega arith))

  pub Runs-pure : {A : Type 0} (a : A) → Runs n 0 (pure a)
  unfolding pure
  Runs-pure a = record { run = λ s e le. (e, omega arith) }

  pub Runs-fail : {A : Type 0} (k : ℕ) (z : Error) → z ≢ out_of_fuel → Runs {A = A} n k (fail z)
  unfolding fail
  Runs-fail k z h = record { run = λ s e le. h }

  pub Runs-of_result : {A : Type 0} (r : Result A) → r ≢ err out_of_fuel → Runs n 0 (of_result r)
  unfolding of_result
  Runs-of_result (ok a) h = record { run = λ s e le. (e, omega arith) }
  Runs-of_result (err z) h = record { run = λ s e le. λ q. h (ap err q) }

  pub Runs-remaining :
      {A : Type 0} (k : ℕ) (f : ℕ → Parse A)
      → ((n' : ℕ) → n' ≤ n → Runs n' k (f n'))
      → Runs n k (remaining >>= f)
  unfolding ◌>>=◌ remaining
  Runs-remaining k f h = record { run = λ s e le. (h (length s.ahead) le).run s e (omega arith) }

  pub Runs-if :
      {A : Type 0} (k : ℕ) (b : Bool) (x y : Parse A)
      → (b ≡ true → Runs n k x)
      → (b ≡ false → Runs n k y)
      → Runs n k (if b then x else y)
  Runs-if k true x y hx hy = hx refl
  Runs-if k false x y hx hy = hy refl

  pub RunsAt-if :
      {A : Type 0} (tok : Token) (k : ℕ) (b : Bool) (x y : Parse A)
      → (b ≡ true → RunsAt tok n k x)
      → (b ≡ false → RunsAt tok n k y)
      → RunsAt tok n k (if b then x else y)
  RunsAt-if tok k true x y hx hy = hx refl
  RunsAt-if tok k false x y hx hy = hy refl

  pub RunsAt-lower :
      {A : Type 0} (tok : Token) (k : ℕ) (m : Parse A) → RunsAt tok n k m → RunsAt tok n 0 m
  RunsAt-lower tok k m h = record {
    run = λ s q e le.
        Left-lower (length s.ahead) (length s.ahead) k 0 (m s) (omega arith) (h.run s q e le);
  }

  pub RunsAt-any : {A : Type 0} (tok : Token) (k : ℕ) (m : Parse A) → Runs n k m → RunsAt tok n k m
  RunsAt-any tok k m h = record { run = λ s _ e le. h.run s e le }

  pub Runs-peek :
      {A : Type 0} (k : ℕ) (f : Token → Parse A)
      → ((tok : Token) → RunsAt tok n k (f tok))
      → Runs n k (peek >>= f)
  unfolding ◌>>=◌ peek
  Runs-peek k f h = record { run = λ s e le. (h s.current).run s refl e le }

  -- At a token that is not the end, advance takes it.
  pub RunsAt-advance :
      {A : Type 0} (tok : Token) (f : Token → Parse A)
      → is_end tok.type ≡ false
      → ((n' : ℕ) (a : Token) → n' < n → Runs n' 0 (f a))
      → RunsAt tok n 1 (advance >>= f)
  unfolding ◌>>=◌
  RunsAt-advance tok f h hf = record {
    run = λ s q e le.
        let open_end : is_end s.current.type ≡ false = ap (λ (x : Token). is_end x.type) q ∙ h in
        Left-bind n (length s.ahead) 1 0 1 f (advance s) (omega arith) le (ends-ahead s open_end e)
          (λ n' a lt. hf n' a (omega arith));
  }

  pub advance-Runs : Runs n 0 advance
  unfolding advance ends_once
  advance-Runs = record {
    run = λ s e le. elim (Bool-cases (is_end s.current.type)) [
      | inr h ↦
          Left-lower (length s.ahead) (length s.ahead) 1 0 (advance s) (omega arith)
            (ends-ahead s h e)
      | inl h ↦ at_end s.current h s.ahead e
    ];
  }
    where
      at_end :
          (c : Token)
          → is_end c.type ≡ true
          → (ts : List Token) → ends_once (c ∷ ts) ≡ true
          → Left (length ts) 0 (advance (record { current = c; ahead = ts }))
      at_end c h [] e = (e, omega arith)
      at_end c h (t ∷ ts) e =
          let no_more : (length (t ∷ ts) == 0) ≡ true = rw h at e in absurd (ground arith)

  pub check-Runs :
      {A : Type 0} (k : ℕ) (type : TokenType) (f : Bool → Parse A)
      → ((b : Bool) → Runs n k (f b))
      → Runs n k (check type >>= f)
  unfolding ◌>>=◌ peek pure
  check-Runs k type f h = record { run = λ s e le. (h (type_eq s.current.type type)).run s e le }

  pub expect-Runs : (type : TokenType) → is_end type ≡ false → Runs n 1 (expect type)
  unfolding ◌>>=◌ peek pure fail
  expect-Runs type h = record {
    run = λ s e le. elim (Bool-cases (type_eq s.current.type type)) [
      | inl q ↦ rw q (ends-ahead s (type_eq-not_end s.current.type type q h) e)
      | inr q ↦ rw q (λ z. cc)
    ];
  }

  -- A token that may follow, with what is done if it does.
  pub Runs-matches :
      {A : Type 0} (type : TokenType) (f : Bool → Parse A)
      → is_end type ≡ false
      → ((n' : ℕ) → n' < n → Runs n' 0 (f true))
      → Runs n 0 (f false)
      → Runs n 0 (matches type >>= f)
  unfolding ◌>>=◌ peek pure
  Runs-matches {A} type f h ht hf = record {
    run = λ s e le. at s e le (type_eq s.current.type type) refl;
  }
    where
      taken :
          (m : ℕ)
          → m ≤ n
          → (r : Result (Token × Parser)) → Left m 1 r
          → let yes : Result (Bool × Parser) = elim r [ ok x ↦ ok (true, x.1) | err z ↦ err z ] in
            let x : Result (A × Parser) = elim yes [ ok y ↦ f y.0 y.1 | err z ↦ err z ] in
            Left m 0 x
      taken m le (ok (a, s)) (e, lt) =
          Left-lower (length s.ahead) m 0 0 (f true s) (omega arith)
            ((ht (length s.ahead) (omega arith)).run s e (omega arith))
      taken m le (err z) k = k

      at :
          (s : Parser)
          → ends_once (s.current ∷ s.ahead) ≡ true
          → length s.ahead ≤ n
          → (b : Bool) → type_eq s.current.type type ≡ b
          → Left (length s.ahead) 0 (((if b then advance >> pure true else pure false) >>= f) s)
      at s e le true q =
          taken (length s.ahead) le (advance s)
            (ends-ahead s (type_eq-not_end s.current.type type q h) e)
      at s e le false q = hf.run s e le

pub matches-Runs : (n : ℕ) (type : TokenType) → Runs n 0 (matches type)
matches-Runs n type =
    check-Runs n 0 type (λ here. if here then advance >> pure true else pure false)
      λ b.
        Runs-if n 0 b _ _
          (λ _.
            Runs-seq n 0 advance (λ _. pure true) (advance-Runs n) (λ n' a le. Runs-pure n' true))
          (λ _. Runs-pure n false)
