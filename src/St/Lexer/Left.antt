-- ===== src/St/Lexer/Left.antt =====
-- How much text the steps of the lexer leave: each takes some, none runs out of fuel (st/lexer.cpp).
use soft_plc.Base.{
  ℕ, zero, suc, ◌-◌, ◌<◌, ◌≤◌, ◌≡◌, ◌≢◌, refl, arith, Bool, true, false, not, ◌&&◌, [], ◌∷◌, ◌==◌,
  Str, length, ltb, if◌then◌else◌, Result, Error, out_of_fuel, out_of_range, unterminated_comment,
  Bool-cases, inl, inr, throw_if, invalid_time_unit,
}
use soft_plc.Base.Int.{ℤ, pos, ltb_ℤ}
use soft_plc.St.Scan.{
  Lexer, is_digit, is_alpha, is_space, peek, behind, advance, drop_prefix, take_while, matches,
  close_comment, skip_gap,
}
use soft_plc.St.Literals.{stox, digits_from, time_unit_to_millis, int64_limit, time_parts}
use soft_plc.St.Lexer.Rules.{
  Ensures, Ensures-bind, Ensures-if, Ensures-weaken, Ensures-done, Ensures-fail,
}

abbrev pub left : Lexer → ℕ
left s = length s.rest

pub left-behind : (c : ℕ) (cs : Str) (line column : ℕ) → left (behind c cs line column) ≡ length cs
left-behind c cs line column = ground arith

pub left-advance : (s : Lexer) → left (advance s) ≡ left s - 1
unfolding advance
left-advance s = at s.rest
  where
    at : (r : Str) → left (advance (record s { rest = r })) ≡ length r - 1
    at [] = refl
    at (c ∷ cs) = omega (arith, left-behind c cs s.line s.column)

left-drop_prefix :
    (p : ℕ → Bool) (cs : Str) (line column : ℕ) → left (drop_prefix p cs line column) ≤ length cs
unfolding drop_prefix
left-drop_prefix p [] line column = omega arith
left-drop_prefix p (c ∷ cs) line column =
    let s = behind c cs line column in
    elim (Bool-cases (p c)) [
      | inl e ↦ rw e (omega (arith, left-drop_prefix p cs s.line s.column))
      | inr e ↦ rw e (omega arith)
    ]

pub left-take_while : (p : ℕ → Bool) (s : Lexer) → left (take_while p s).1 ≤ left s
left-take_while p s = left-drop_prefix p s.rest s.line s.column

-- A collecting loop whose first test holds takes something.
pub left-take_while_lt :
    (p : ℕ → Bool) (s : Lexer) → p (peek 0 s) ≡ true → 0 < left s → left (take_while p s).1 < left s
unfolding drop_prefix
left-take_while_lt p s h lt = at s.rest h lt
  where
    at :
        (r : Str)
        → let u : Lexer = record s { rest = r } in
          p (peek 0 u) ≡ true → 0 < length r → left (take_while p u).1 < length r
    at [] h lt = absurd (omega arith)
    at (c ∷ cs) h lt =
        let t = behind c cs s.line s.column in
        rw h (omega (arith, left-drop_prefix p cs t.line t.column))

pub peek-lt : (s : Lexer) → 0 < peek 0 s → 0 < left s
peek-lt s = at s.rest
  where
    at : (r : Str) → 0 < peek 0 (record s { rest = r }) → 0 < length r
    at [] h = absurd (omega arith)
    at (c ∷ cs) h = omega arith

pub digit-lt : (c : ℕ) → is_digit c ≡ true → 0 < c
digit-lt c h = ground arith

close_comment-Ensures :
    (cs : Str) (line column : ℕ) → Ensures (λ s. left s ≤ length cs) (close_comment cs line column)
unfolding close_comment
close_comment-Ensures [] line column = Ensures-fail _ unterminated_comment (λ q. cc)
close_comment-Ensures (c ∷ cs) line column =
    let here : Lexer = record { rest = c ∷ cs; line = line; column = column } in
    let s = behind c cs line column in
    Ensures-if (λ s. left s ≤ suc (length cs)) ((c == b'*') && (peek 1 here == b')')) _ _
      (λ _.
        Ensures-done (λ s. left s ≤ suc (length cs)) (advance (advance here))
          (omega (arith, left-advance here, left-advance (advance here))))
      (λ _.
        Ensures-weaken (λ s. left s ≤ length cs) _ _ (close_comment-Ensures cs s.line s.column)
          (λ t h. omega arith))

pub space-lt : (c : ℕ) → is_space c ≡ true → 0 < c
space-lt c h = ground arith

is-lt : (c k : ℕ) → 0 < k → (c == k) ≡ true → 0 < c
is-lt c k lt h = ground arith

pub both : (a b : Bool) → (a && b) ≡ true → (a ≡ true) × (b ≡ true)
both a b h = ground arith

left-Ensures_lower :
    (m k : ℕ) (r : Result Lexer) → m ≤ k → Ensures (λ t. left t ≤ m) r → Ensures (λ t. left t ≤ k) r
left-Ensures_lower m k r le h =
    Ensures-weaken (λ t. left t ≤ m) (λ t. left t ≤ k) r h (λ t lt. omega arith)

pub skip_gap-Ensures :
    (fuel : ℕ) (s : Lexer) → left s < fuel → Ensures (λ t. left t ≤ left s) (skip_gap fuel s)
unfolding skip_gap
skip_gap-Ensures zero s lt = absurd (omega arith)
skip_gap-Ensures (suc fuel) s lt =
    let n = left s in
    let P : Lexer → Type 0 = λ t. left t ≤ left s in
    let next : (u : Lexer) → left u < n → Ensures P (skip_gap fuel u) = λ u lt'.
      left-Ensures_lower (left u) n _ (omega arith) (skip_gap-Ensures fuel u (omega arith)) in
    Ensures-if P (is_space (peek 0 s)) _ _
      (λ h. next (advance s) (omega (arith, left-advance s, peek-lt s (space-lt (peek 0 s) h))))
      λ _.
        Ensures-if P ((peek 0 s == b'/') && (peek 1 s == b'/')) _ _
          (λ h.
            let (slash, _) = both (peek 0 s == b'/') (peek 1 s == b'/') h in
            next (take_while (λ c. not (c == 10)) s).1 (
              left-take_while_lt _ s (slash-line (peek 0 s) slash)
                (peek-lt s (is-lt (peek 0 s) b'/' (omega arith) slash))))
          λ _.
            Ensures-if P ((peek 0 s == b'(') && (peek 1 s == b'*')) _ _
              (λ h.
                let (paren, _) = both (peek 0 s == b'(') (peek 1 s == b'*') h in
                let t = advance (advance s) in
                Ensures-bind (λ u. left u ≤ left t) P (close_comment t.rest t.line t.column) _
                  (close_comment-Ensures t.rest t.line t.column)
                  λ u le. next u (
                    omega (
                      arith,
                      left-advance s,
                      left-advance (advance s),
                      peek-lt s (is-lt (peek 0 s) b'(' (omega arith) paren),
                    )))
              (λ _. Ensures-done P s (omega arith))
  where
    slash-line : (c : ℕ) → (c == b'/') ≡ true → not (c == 10) ≡ true
    slash-line c h = ground arith

-- The loop over the parts of a TIME literal.
pub stox-Ensures : (limit : ℕ) (s : Str) → Ensures (λ _. Unit) (stox limit s)
stox-Ensures limit s =
    Ensures-if (λ _. Unit) (ltb (digits_from 0 s) limit) _ _ (λ _. Ensures-done (λ _. Unit) _ tt)
      (λ _. Ensures-fail (λ _. Unit) out_of_range (λ q. cc))

pub throw_if-Ensures : (b : Bool) (e : Error) → e ≢ out_of_fuel → Ensures (λ _. Unit) (throw_if b e)
throw_if-Ensures true e h = Ensures-fail (λ _. Unit) e h
throw_if-Ensures false e h = Ensures-done (λ _. Unit) tt tt

pub time_parts-Ensures :
    (fuel : ℕ) (total : ℤ) (s : Lexer)
    → left s < fuel
    → Ensures (λ (r : ℤ × Lexer). left r.1 ≤ left s) (time_parts fuel total s)
unfolding time_parts
time_parts-Ensures zero total s lt = absurd (omega arith)
time_parts-Ensures (suc fuel) total s lt =
    let P : ℤ × Lexer → Type 0 = λ r. left r.1 ≤ left s in
    elim (Bool-cases (is_digit (peek 0 s))) [
      | inr e ↦ rw e (Ensures-done P (total, s) (omega arith))
      | inl e ↦
          let (digits, s1) = take_while is_digit s in
          let (unit, s2) = take_while is_alpha s1 in
          let negative = ltb_ℤ (time_unit_to_millis unit) (pos 0) in
          let s3 = if matches b'_' s2 then advance s2 else s2 in
          let fewer : left s3 < left s = omega (
            arith,
            left-take_while_lt is_digit s e (peek-lt s (digit-lt (peek 0 s) e)),
            left-take_while is_alpha s1,
            optional s2,
          ) in
          rw e (
            Ensures-bind (λ _. Unit) P (throw_if negative invalid_time_unit) _
              (throw_if-Ensures negative invalid_time_unit (λ q. cc))
              λ _ _.
                Ensures-bind (λ _. Unit) P (stox int64_limit digits) _
                  (stox-Ensures int64_limit digits)
                  λ n _.
                    Ensures-weaken (λ r. left r.1 ≤ left s3) P _
                      (time_parts-Ensures fuel _ s3 (omega arith)) (λ r le. omega arith))
    ]
  where
    optional : (t : Lexer) → left (if matches b'_' t then advance t else t) ≤ left t
    optional t = elim (Bool-cases (matches b'_' t)) [
      | inl e ↦ rw e (omega (arith, left-advance t))
      | inr e ↦ rw e (omega arith)
    ]
