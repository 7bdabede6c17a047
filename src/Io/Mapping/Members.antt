-- ===== src/Io/Mapping/Members.antt =====
-- The members of the batches of buildBatches (io/modbus_mapping.cpp): their properties and tables.
use soft_plc.Base.{
  ℕ, suc, ◌+◌, ◌<◌, ◌≤◌, ◌≡◌, List, [], ◌∷◌, arith, ◌==◌, length, All, All-append, Bool-cases, inl,
  inr,
}
use soft_plc.Io.Mapping.{
  RegisterType, coil, discrete_input, holding_register, input_register, ModbusPointMapping,
  PointRef, table_index, enumerate, group, ReadBatch, single, extends, extend, build_from,
  build_group, build_batches, of_table,
}
use soft_plc.Io.Mapping.Groups.{All-sort_points}

-- The positions in an enumeration are below its end.
pub enumerate-lt :
    (k n : ℕ) (ps : List ModbusPointMapping)
    → k + length ps ≤ n
    → All (λ (r : PointRef). r.0 < n) (enumerate k ps)
enumerate-lt k n [] h = tt
enumerate-lt k n (p ∷ ps) h = (omega arith, enumerate-lt (suc k) n ps (omega arith))

module _ (P : PointRef → Type 0) where
  abbrev pub Member : RegisterType → PointRef → Type 0
  Member t r = P r × (r.1.register_type ≡ t)

  -- The points of the batch have the property and are of the batch's table.
  abbrev pub Holds : ReadBatch → Type 0
  Holds b = All (Member b.register_type) b.points

  of_table-Member :
      (t : RegisterType) (ps : List PointRef) → All P ps → All (Member t) (of_table t ps)
  unfolding of_table
  of_table-Member t [] h = tt
  of_table-Member t (p ∷ ps) h =
      elim (Bool-cases (table_index p.1.register_type == table_index t)) [
        | inl e ↦ rw e ((h.0, ground arith), of_table-Member t ps h.1)
        | inr e ↦ rw e (of_table-Member t ps h.1)
      ]

  build_from-Holds :
      (b : ReadBatch) (ps : List PointRef)
      → Holds b
      → All (Member b.register_type) ps
      → All Holds (build_from b ps)
  unfolding build_from
  build_from-Holds b [] h k = (h, tt)
  build_from-Holds b (p ∷ ps) h k = elim (Bool-cases (extends b p)) [
    | inl e ↦ rw e (
        build_from-Holds (extend b p) ps
          (All-append (Member b.register_type) b.points (p ∷ []) h (k.0, tt)) k.1)
    | inr e ↦ rw e (h, build_from-Holds (single b.register_type p) ps (k.0, tt) k.1)
  ]

  build_group-Holds :
      (t : RegisterType) (ps : List PointRef) → All (Member t) ps → All Holds (build_group t ps)
  unfolding build_group
  build_group-Holds t [] h = tt
  build_group-Holds t (p ∷ ps) h = build_from-Holds (single t p) ps (h.0, tt) h.1

  pub build_batches-Holds :
      (ps : List ModbusPointMapping) → All P (enumerate 0 ps) → All Holds (build_batches ps)
  unfolding build_batches group
  build_batches-Holds ps h = All-append Holds _ _ (of coil) (
      All-append Holds _ _ (of discrete_input)
        (All-append Holds _ _ (of holding_register) (of input_register)))
    where
      of : (t : RegisterType) → All Holds (build_group t (group t ps))
      of t = build_group-Holds t (group t ps) (
          All-sort_points (Member t) (of_table t (enumerate 0 ps))
            (of_table-Member t (enumerate 0 ps) h))
