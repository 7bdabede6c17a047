-- ===== src/Io/Mapping/Groups.antt =====
-- groupByRegisterType (io/modbus_mapping.cpp): the order and the members of its groups.
use soft_plc.Base.{
  ℕ, suc, ◌+◌, ◌≤◌, ◌≡◌, inl, inr, refl, List, [], ◌∷◌, ◌++◌, arith, ltb, ◌==◌, if◌then◌else◌,
  length, All, Bool-cases,
}
use soft_plc.Io.Mapping.{
  RegisterType, coil, discrete_input, holding_register, input_register, ModbusPointMapping,
  PointRef, table_index, enumerate, precedes, insert_point, sort_points, of_table, group,
}

-- Every address in the list is at least `lo`.
abbrev pub AllFrom : ℕ → List PointRef → Type 0
AllFrom lo = All (λ (q : PointRef). lo ≤ q.1.register_address)

pub All-lower : (lo lo' : ℕ) (qs : List PointRef) → lo' ≤ lo → AllFrom lo qs → AllFrom lo' qs
All-lower lo lo' [] h k = tt
All-lower lo lo' (q ∷ qs) h k = (omega arith, All-lower lo lo' qs h k.1)

-- Ascending addresses.
abbrev pub IsSorted : List PointRef → Type 0
IsSorted [] = Unit
IsSorted (p ∷ ps) = AllFrom p.1.register_address ps × IsSorted ps

-- How often the point at position `i` occurs.
abbrev pub occurs : ℕ → List PointRef → ℕ
occurs i [] = 0
occurs i (p ∷ ps) = (if p.0 == i then 1 else 0) + occurs i ps

pub occurs-append :
    (i : ℕ) (ps qs : List PointRef) → occurs i (ps ++ qs) ≡ occurs i ps + occurs i qs
occurs-append i [] qs = omega arith
occurs-append i (p ∷ ps) qs = omega (arith, occurs-append i ps qs)

module _ (P : PointRef → Type 0) where
  All-insert_point :
      (p : PointRef) (qs : List PointRef) → P p → All P qs → All P (insert_point p qs)
  unfolding insert_point
  All-insert_point p [] h k = (h, tt)
  All-insert_point p (q ∷ qs) h k = elim (Bool-cases (precedes q p)) [
    | inl e ↦ rw e (k.0, All-insert_point p qs h k.1)
    | inr e ↦ rw e (h, k)
  ]

  pub All-sort_points : (ps : List PointRef) → All P ps → All P (sort_points ps)
  unfolding sort_points
  All-sort_points [] h = tt
  All-sort_points (p ∷ ps) h = All-insert_point p (sort_points ps) h.0 (All-sort_points ps h.1)

  All-of_table : (t : RegisterType) (ps : List PointRef) → All P ps → All P (of_table t ps)
  unfolding of_table
  All-of_table t [] h = tt
  All-of_table t (p ∷ ps) h = elim (Bool-cases (table_index p.1.register_type == table_index t)) [
    | inl e ↦ rw e (h.0, All-of_table t ps h.1)
    | inr e ↦ rw e (All-of_table t ps h.1)
  ]

  pub All-group :
      (t : RegisterType) (ps : List ModbusPointMapping)
      → All P (enumerate 0 ps)
      → All P (group t ps)
  unfolding group
  All-group t ps h = All-sort_points _ (All-of_table t _ h)

insert_point-IsSorted :
    (p : PointRef) (qs : List PointRef) → IsSorted qs → IsSorted (insert_point p qs)
unfolding insert_point
insert_point-IsSorted p [] h = (tt, tt)
insert_point-IsSorted p (q ∷ qs) h = elim (Bool-cases (precedes q p)) [
  | inl e ↦ rw e (
    All-insert_point (λ (r : PointRef). q.1.register_address ≤ r.1.register_address) p qs
        (ground arith) h.0,
    insert_point-IsSorted p qs h.1,
  )
  | inr e ↦
      rw e (
        (ground arith, All-lower q.1.register_address p.1.register_address qs (ground arith) h.0),
        h,
      )
]

occurs-insert_point :
    (i : ℕ) (p : PointRef) (qs : List PointRef) → occurs i (insert_point p qs) ≡ occurs i (p ∷ qs)
unfolding insert_point
occurs-insert_point i p [] = refl
occurs-insert_point i p (q ∷ qs) = elim (Bool-cases (precedes q p)) [
  | inl e ↦ rw e (omega (arith, occurs-insert_point i p qs))
  | inr e ↦ rw e
]

occurs-sort_points : (i : ℕ) (ps : List PointRef) → occurs i (sort_points ps) ≡ occurs i ps
unfolding sort_points
occurs-sort_points i [] = refl
occurs-sort_points i (p ∷ ps) =
    omega (arith, occurs-insert_point i p (sort_points ps), occurs-sort_points i ps)

sort_points-IsSorted : (ps : List PointRef) → IsSorted (sort_points ps)
unfolding sort_points
sort_points-IsSorted [] = tt
sort_points-IsSorted (p ∷ ps) = insert_point-IsSorted p (sort_points ps) (sort_points-IsSorted ps)

-- Each group ascends by address.
pub group-IsSorted : (t : RegisterType) (ps : List ModbusPointMapping) → IsSorted (group t ps)
unfolding group
group-IsSorted t ps = sort_points-IsSorted (of_table t (enumerate 0 ps))

occurs-of_table :
    (i : ℕ) (ps : List PointRef)
    → occurs i (of_table coil ps)
        + occurs i (of_table discrete_input ps)
        + occurs i (of_table holding_register ps)
        + occurs i (of_table input_register ps)
      ≡ occurs i ps
unfolding of_table
occurs-of_table i [] = omega arith
occurs-of_table i (p ∷ ps) = ground (arith, occurs-of_table i ps)

-- The four groups together hold each point as often as the vector does.
pub occurs-group :
    (i : ℕ) (ps : List ModbusPointMapping)
    → occurs i (group coil ps)
        + occurs i (group discrete_input ps)
        + occurs i (group holding_register ps)
        + occurs i (group input_register ps)
      ≡ occurs i (enumerate 0 ps)
unfolding group
occurs-group i ps = omega (arith, occurs-sort_points, occurs-of_table i (enumerate 0 ps))

-- Each position of the vector occurs once in its enumeration, and no other number occurs.
pub occurs-enumerate :
    (i k : ℕ) (ps : List ModbusPointMapping)
    → occurs i (enumerate k ps) ≡ (if ltb i k then 0 else if ltb i (k + length ps) then 1 else 0)
occurs-enumerate i k [] = ground arith
occurs-enumerate i k (p ∷ ps) = ground (arith, occurs-enumerate i (suc k) ps)

-- The references of the enumeration are those of the vector.
pub All-enumerate :
    (Q : ModbusPointMapping → Type 0) (k : ℕ) (ps : List ModbusPointMapping)
    → All Q ps
    → All (λ (r : PointRef). Q r.1) (enumerate k ps)
All-enumerate Q k [] h = tt
All-enumerate Q k (p ∷ ps) h = (h.0, All-enumerate Q (suc k) ps h.1)
