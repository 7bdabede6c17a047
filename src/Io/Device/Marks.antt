-- ===== src/Io/Device/Marks.antt =====
-- The marks of the points of a batch that was sent (pollOnce of io/modbus_tcp_driver.cpp).
use std.Path.{subst}
use soft_plc.Base.{
  ℕ, zero, suc, ◌+◌, ◌<◌, ◌≡◌, ◌≢◌, refl, sym, ◌∙◌, ap, arith, Bool, false, ◌||◌, none, some, List,
  [], ◌∷◌, ◌==◌, get_elem?, set, Bool-cases, inl, inr, Option-cases, some_inj, get_elem?-set_ne,
}
use soft_plc.Tags.Value.{Value}
use soft_plc.Io.Mapping.{ModbusPointMapping, PointRef}
use soft_plc.Io.Device.{CachedPoint, is_due, needs_write, mark, mark_written}

pub get_elem?-set_present :
    {A : Type 0} (xs : List A) (i : ℕ) (x v : A)
    → get_elem? xs i ≡ some x
    → get_elem? (set xs i v) i ≡ some v
get_elem?-set_present [] i x v h = cc
get_elem?-set_present (y ∷ ys) zero x v h = refl
get_elem?-set_present (y ∷ ys) (suc i) x v h = get_elem?-set_present ys i x v h

-- The point at `i` is not due.
abbrev pub NotDue : ℕ → ℕ → List CachedPoint → ℕ → Type 0
NotDue now interval cache i =
    elim (get_elem? cache i) [ none ↦ false | some c ↦ is_due now interval c ] ≡ false

pub mark_due :
    (sent now interval : ℕ) (c : CachedPoint)
    → now < sent + interval
    → is_due now interval (mark sent c) ≡ false
mark_due sent now interval c h = ground arith

pub mark_written-NotDue :
    (sent now interval : ℕ) (ps : List PointRef) (cache : List CachedPoint) (j : ℕ)
    → now < sent + interval
    → NotDue now interval cache j
    → NotDue now interval (mark_written sent ps cache) j
unfolding mark_written
mark_written-NotDue sent now interval [] cache j lt h = h
mark_written-NotDue sent now interval ((i, p) ∷ ps) cache j lt h =
    elim (Option-cases (get_elem? cache i)) [
      | inl e ↦ rw e (mark_written-NotDue sent now interval ps cache j lt h)
      | inr (c, e) ↦ rw e (
          mark_written-NotDue sent now interval ps (set cache i (mark sent c)) j lt
            (elim (Bool-cases (i == j)) [
              | inl g ↦
                  let same : i ≡ j = ground arith in
                  rw (← same, get_elem?-set_present cache i c (mark sent c) e)
                    (mark_due sent now interval c lt)
              | inr g ↦
                  let other : i ≢ j = ground arith in
                  rw (get_elem?-set_ne cache i j (mark sent c) other) h
            ]))
    ]

pub mark_written-none :
    (sent i : ℕ) (p : ModbusPointMapping) (ps : List PointRef) (cache : List CachedPoint)
    → get_elem? cache i ≡ none
    → mark_written sent ((i, p) ∷ ps) cache ≡ mark_written sent ps cache
unfolding mark_written
mark_written-none sent i p ps cache e = rw (mark_written, e) refl

pub mark_written-some :
    (sent i : ℕ) (p : ModbusPointMapping) (ps : List PointRef) (cache : List CachedPoint)
    (c : CachedPoint)
    → get_elem? cache i ≡ some c
    → mark_written sent ((i, p) ∷ ps) cache ≡ mark_written sent ps (set cache i (mark sent c))
unfolding mark_written
mark_written-some sent i p ps cache c e = rw (mark_written, e) refl

pub mark_written-needs_write :
    (sent now interval : ℕ) (ps : List PointRef) (cache : List CachedPoint)
    → now < sent + interval
    → needs_write now interval ps (mark_written sent ps cache) ≡ false
unfolding needs_write
mark_written-needs_write sent now interval [] cache lt = refl
mark_written-needs_write sent now interval ((i, p) ∷ ps) cache lt =
    elim (Option-cases (get_elem? cache i)) [
      | inl e ↦
          let first = mark_written-NotDue sent now interval ps cache i lt (rw e refl) in
          rw (mark_written-none sent i p ps cache e)
            (or_false first (mark_written-needs_write sent now interval ps cache lt))
      | inr (c, e) ↦
          let cache1 = set cache i (mark sent c) in
          let first = mark_written-NotDue sent now interval ps cache1 i lt (
            rw (get_elem?-set_present cache i c (mark sent c) e)
              (mark_due sent now interval c lt)) in
          rw (mark_written-some sent i p ps cache c e)
            (or_false first (mark_written-needs_write sent now interval ps cache1 lt))
    ]
  where
    or_false : {a b : Bool} → a ≡ false → b ≡ false → (a || b) ≡ false
    or_false h k = ground arith

-- The entry at `j` has this value.
abbrev pub HasValue : List CachedPoint → ℕ → Value → Type 0
HasValue cache j v = (c : CachedPoint) × (get_elem? cache j ≡ some c) × (c.value ≡ v)

pub mark_written-HasValue :
    (sent : ℕ) (ps : List PointRef) (cache : List CachedPoint) (j : ℕ) (v : Value)
    → HasValue cache j v
    → HasValue (mark_written sent ps cache) j v
unfolding mark_written
mark_written-HasValue sent [] cache j v h = h
mark_written-HasValue sent ((i, p) ∷ ps) cache j v (x, f, q) =
    elim (Option-cases (get_elem? cache i)) [
      | inl e ↦
          subst (λ y. HasValue y j v) (sym (mark_written-none sent i p ps cache e))
            (mark_written-HasValue sent ps cache j v (x, f, q))
      | inr (c, e) ↦
          subst (λ y. HasValue y j v) (sym (mark_written-some sent i p ps cache c e))
            (mark_written-HasValue sent ps (set cache i (mark sent c)) j v
              (elim (Bool-cases (i == j)) [
                | inl g ↦
                    let same : i ≡ j = ground arith in
                    let f' = rw (← same) at f in
                    (
                      mark sent c,
                      rw (← same) (get_elem?-set_present cache i c (mark sent c) e),
                      ap (λ y. y.value) (some_inj (sym e ∙ f')) ∙ q,
                    )
                | inr g ↦
                    let other : i ≢ j = ground arith in
                    (x, get_elem?-set_ne cache i j (mark sent c) other ∙ f, q)
              ]))
    ]
