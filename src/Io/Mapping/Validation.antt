-- ===== src/Io/Mapping/Validation.antt =====
-- validatePoints: what it establishes of the points that it accepts.
use soft_plc.Base.{
  ℕ, ◌+◌, ◌%◌, ◌<◌, ◌≤◌, ◌≡◌, ◌≢◌, refl, Bool, true, false, List, [], ◌∷◌, arith, ltb, ◌==◌, All,
  Bool-cases, ◌⊎◌, inl, inr, Result, ok, err, Error, throw_if, ◌>>◌, overlap,
}
use soft_plc.Tags.Value.{TypeId, MemoryArea}
use soft_plc.Io.Mapping.{
  RegisterType, coil, discrete_input, holding_register, input_register, ModbusPointMapping,
  PointRef, table_index, enumerate, group, register_count, is_bit_table, is_read_only_table,
  is_register_type, validate_point, validate_each, end_of, check_overlaps, validate_points,
  insert_point, sort_points, of_table, precedes,
}
use soft_plc.Io.Mapping.Groups.{IsSorted, AllFrom, group-IsSorted, All-group, All-enumerate}
use soft_plc.Io.Mapping.Batches.{InSpace}

-- The demands on a single point.
pub record PointOk (p : ModbusPointMapping) : Type 0 where
  pub in_space : InSpace p
  pub bit_type : is_bit_table p.register_type ≡ true → p.type ≡ TypeId.bool
  pub word_type : is_bit_table p.register_type ≡ false → is_register_type p.type ≡ true
  pub no_output : is_read_only_table p.register_type ≡ true → p.iec_address.area ≢ MemoryArea.output

validate_point-PointOk : (p : ModbusPointMapping) → validate_point p ≡ ok tt → PointOk p
unfolding validate_point
validate_point-PointOk p e = record {
  in_space = (ground arith, ground arith, ground arith);
  bit_type = λ h. ground arith;
  word_type = λ h. ground arith;
  no_output = λ h k. ground arith;
}

pub throw_if-ok : (b : Bool) (e : Error) → throw_if b e ≡ ok tt → b ≡ false
throw_if-ok b e h = ground arith

pub seq-ok :
    {A : Type 0} (r : Result (Unit {0})) (k : Result A) (a : A)
    → (r >> k) ≡ ok a
    → (r ≡ ok tt) × (k ≡ ok a)
seq-ok (ok u) k a h = (refl, h)
seq-ok (err e) k a h = cc

validate_each-All : (ps : List ModbusPointMapping) → validate_each ps ≡ ok tt → All PointOk ps
unfolding validate_each
validate_each-All [] e = tt
validate_each-All (p ∷ ps) e =
    let (h, k) = seq-ok (validate_point p) (validate_each ps) tt e in
    (validate_point-PointOk p h, validate_each-All ps k)

-- The registers of one point lie before those of the other.
abbrev pub Apart : PointRef → PointRef → Type 0
Apart p q =
    (p.1.register_address + register_count p.1 ≤ q.1.register_address)
    ⊎ (q.1.register_address + register_count q.1 ≤ p.1.register_address)

abbrev pub Pairwise : (PointRef → PointRef → Type 0) → List PointRef → Type 0
Pairwise R [] = Unit
Pairwise R (p ∷ ps) = All (R p) ps × Pairwise R ps

-- The point ends below the last address of the space, where prevEnd does not wrap to 0.
abbrev pub EndsBelow : ModbusPointMapping → Type 0
EndsBelow p = p.register_address + register_count p < 65536

All-Apart :
    (p : PointRef) (lo : ℕ) (qs : List PointRef)
    → p.1.register_address + register_count p.1 ≤ lo
    → AllFrom lo qs
    → All (Apart p) qs
All-Apart p lo [] h k = tt
All-Apart p lo (q ∷ qs) h k = (inl (omega arith), All-Apart p lo qs h k.1)

after_end :
    (p q : PointRef)
    → EndsBelow p.1
    → throw_if (ltb q.1.register_address (end_of p.1)) overlap ≡ ok tt
    → p.1.register_address + register_count p.1 ≤ q.1.register_address
after_end p q h e = omega (arith, leb_of (throw_if-ok _ overlap e), small)
  where
    small :
        (p.1.register_address + register_count p.1) % 65536
        ≡ p.1.register_address + register_count p.1
    small = omega arith

    leb_of : ltb q.1.register_address (end_of p.1) ≡ false → end_of p.1 ≤ q.1.register_address
    leb_of x = ground arith

check_overlaps-Pairwise :
    (ps : List PointRef)
    → IsSorted ps
    → All (λ (r : PointRef). EndsBelow r.1) ps
    → check_overlaps ps ≡ ok tt
    → Pairwise Apart ps
unfolding check_overlaps
check_overlaps-Pairwise [] o b e = tt
check_overlaps-Pairwise (p ∷ []) o b e = (tt, tt)
check_overlaps-Pairwise (p ∷ q ∷ qs) o b e =
    let (h, k) = seq-ok _ (check_overlaps (q ∷ qs)) tt e in
    let next = after_end p q b.0 h in
    (
      (inl next, All-Apart p q.1.register_address qs next o.1.0),
      check_overlaps-Pairwise (q ∷ qs) o.1 b.1 k,
    )

module _ (P : PointRef → Type 0) where
  All-insert_point_inv :
      (p : PointRef) (qs : List PointRef) → All P (insert_point p qs) → P p × All P qs
  unfolding insert_point
  All-insert_point_inv p [] h = h
  All-insert_point_inv p (q ∷ qs) h = elim (Bool-cases (precedes q p)) [
    | inl e ↦ let (a, b) = rw e at h in let (x, y) = All-insert_point_inv p qs b in (x, (a, y))
    | inr e ↦ rw e at h
  ]

  All-sort_points_inv : (ps : List PointRef) → All P (sort_points ps) → All P ps
  unfolding sort_points
  All-sort_points_inv [] h = tt
  All-sort_points_inv (p ∷ ps) h =
      let (x, y) = All-insert_point_inv p (sort_points ps) h in (x, All-sort_points_inv ps y)

  All-of_table_inv :
      (t : RegisterType) (ps : List PointRef)
      → All P (of_table t ps)
      → All (λ (q : PointRef). q.1.register_type ≡ t → P q) ps
  unfolding of_table
  All-of_table_inv t [] h = tt
  All-of_table_inv t (p ∷ ps) h =
      elim (Bool-cases (table_index p.1.register_type == table_index t)) [
        | inl e ↦ let (a, b) = rw e at h in (λ _. a, All-of_table_inv t ps b)
        | inr e ↦ let k = rw e at h in ((λ q. absurd (ground arith)), All-of_table_inv t ps k)
      ]

Apart-swap : (p q : PointRef) → Apart p q → Apart q p
Apart-swap p q (inl h) = inr h
Apart-swap p q (inr h) = inl h

All-Apart_swap :
    (q : PointRef) (p : PointRef) (qs : List PointRef)
    → All (Apart q) (insert_point p qs)
    → Apart p q
All-Apart_swap q p qs h = Apart-swap q p (All-insert_point_inv (Apart q) p qs h).0

Pairwise-insert_point :
    (p : PointRef) (qs : List PointRef)
    → Pairwise Apart (insert_point p qs)
    → Pairwise Apart (p ∷ qs)
unfolding insert_point
Pairwise-insert_point p [] h = h
Pairwise-insert_point p (q ∷ qs) h = elim (Bool-cases (precedes q p)) [
  | inl e ↦
      let (a, b) = rw e at h in
      let (x, y) = Pairwise-insert_point p qs b in
      ((All-Apart_swap q p qs a, x), ((All-insert_point_inv (Apart q) p qs a).1, y))
  | inr e ↦ rw e at h
]

Pairwise-sort_points : (ps : List PointRef) → Pairwise Apart (sort_points ps) → Pairwise Apart ps
unfolding sort_points
Pairwise-sort_points [] h = tt
Pairwise-sort_points (p ∷ ps) h =
    let (x, y) = Pairwise-insert_point p (sort_points ps) h in
    (All-sort_points_inv (Apart p) ps x, Pairwise-sort_points ps y)

-- Points of one table share no register.
abbrev pub ApartInTable : PointRef → PointRef → Type 0
ApartInTable p q = q.1.register_type ≡ p.1.register_type → Apart p q

Pairwise-of_table :
    (ps : List PointRef)
    → ((t : RegisterType) → Pairwise Apart (of_table t ps))
    → Pairwise ApartInTable ps
unfolding of_table
Pairwise-of_table [] h = tt
Pairwise-of_table (p ∷ ps) h = (
  All-of_table_inv (Apart p) p.1.register_type ps (own (h p.1.register_type)).0,
  Pairwise-of_table ps rest,
)
  where
    own :
        Pairwise Apart (of_table p.1.register_type (p ∷ ps))
        → Pairwise Apart (p ∷ of_table p.1.register_type ps)
    own k =
        let same : (table_index p.1.register_type == table_index p.1.register_type) ≡ true =
          ground arith in
        rw same at k

    rest : (t : RegisterType) → Pairwise Apart (of_table t ps)
    rest t = elim (Bool-cases (table_index p.1.register_type == table_index t)) [
      | inl e ↦ let ht = h t in let k = rw e at ht in k.1
      | inr e ↦ let ht = h t in rw e at ht
    ]

validate_points-parts :
    (ps : List ModbusPointMapping)
    → validate_points ps ≡ ok tt
    → (validate_each ps ≡ ok tt) × ((t : RegisterType) → check_overlaps (group t ps) ≡ ok tt)
unfolding validate_points
validate_points-parts ps e =
    let (each, e1) = seq-ok (validate_each ps) _ tt e in
    let (c, e2) = seq-ok (check_overlaps (group coil ps)) _ tt e1 in
    let (d, e3) = seq-ok (check_overlaps (group discrete_input ps)) _ tt e2 in
    let (hr, ir) = seq-ok (check_overlaps (group holding_register ps)) _ tt e3 in
    (each, by_table c d hr ir)
  where
    by_table :
        check_overlaps (group coil ps) ≡ ok tt
        → check_overlaps (group discrete_input ps) ≡ ok tt
        → check_overlaps (group holding_register ps) ≡ ok tt
        → check_overlaps (group input_register ps) ≡ ok tt
        → (t : RegisterType) → check_overlaps (group t ps) ≡ ok tt
    by_table c d hr ir coil = c
    by_table c d hr ir discrete_input = d
    by_table c d hr ir holding_register = hr
    by_table c d hr ir input_register = ir

-- Every point of an accepted configuration has one or two registers within the 65536, a BOOL in a
-- bit table or a number in a register table, and no read-only table under an output address.
pub validate_points-PointOk :
    (ps : List ModbusPointMapping) → validate_points ps ≡ ok tt → All PointOk ps
validate_points-PointOk ps e = validate_each-All ps (validate_points-parts ps e).0

-- In an accepted configuration of which no point uses the last register, two points of one table
-- share no register.
pub validate_points-Pairwise :
    (ps : List ModbusPointMapping)
    → All EndsBelow ps
    → validate_points ps ≡ ok tt
    → Pairwise ApartInTable (enumerate 0 ps)
unfolding group
validate_points-Pairwise ps b e = Pairwise-of_table (enumerate 0 ps) apart
  where
    apart : (t : RegisterType) → Pairwise Apart (of_table t (enumerate 0 ps))
    apart t = Pairwise-sort_points (of_table t (enumerate 0 ps)) (
        check_overlaps-Pairwise (group t ps) (group-IsSorted t ps)
          (All-group (λ (r : PointRef). EndsBelow r.1) t ps (All-enumerate EndsBelow 0 ps b))
          ((validate_points-parts ps e).1 t))

-- A point that the tests on a single point accept and that ends with the last register of its table
-- is accepted twice: prevEnd wraps to 0, and the overlap goes unnoticed.
pub validate_points-wraps :
    (p : ModbusPointMapping)
    → validate_point p ≡ ok tt
    → p.register_address + register_count p ≡ 65536
    → validate_points (p ∷ p ∷ []) ≡ ok tt
unfolding validate_points validate_each group insert_point sort_points of_table check_overlaps
validate_points-wraps p v e = twice p.register_type refl
  where
    zero_end : end_of p ≡ 0
    zero_end = rw e refl

    twice : (t : RegisterType) → p.register_type ≡ t → validate_points (p ∷ p ∷ []) ≡ ok tt
    twice t h = ground (arith, v, zero_end, h)
