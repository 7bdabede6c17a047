-- ===== src/Io/Mapping/Batches.antt =====
-- buildBatches (io/modbus_mapping.cpp): the limits of its batches, and the points in them.
use soft_plc.Base.{
  ℕ, ◌+◌, ◌%◌, ◌<◌, ◌≤◌, ◌≡◌, refl, true, List, [], ◌∷◌, ◌++◌, ◌&&◌, arith, ltb, leb, ◌==◌,
  if◌then◌else◌, length, All, All-append, Bool-cases,
}
use soft_plc.Base.{inl, inr}
use soft_plc.Io.Mapping.{
  RegisterType, coil, discrete_input, holding_register, input_register, ModbusPointMapping,
  PointRef, enumerate, group, register_count, ReadBatch, max_quantity, single, extends, extend,
  build_from, build_group, build_batches,
}
use soft_plc.Io.Mapping.Groups.{
  IsSorted, AllFrom, occurs, occurs-append, All-group, group-IsSorted, occurs-group,
  occurs-enumerate, All-enumerate,
}

-- What validation establishes of each point: it has one or two registers, within the 65536.
abbrev pub InSpace : ModbusPointMapping → Type 0
InSpace p =
    (0 < register_count p)
    × (register_count p ≤ 2)
    × (p.register_address + register_count p ≤ 65536)

abbrev RefInSpace : PointRef → Type 0
RefInSpace r = InSpace r.1

-- The registers of the point lie among those of the batch.
abbrev pub Within : ReadBatch → PointRef → Type 0
Within b r =
    (b.start_address ≤ r.1.register_address)
    × (r.1.register_address + register_count r.1 ≤ b.start_address + b.quantity)

-- A request that the protocol allows, for points that it covers.
pub record BatchOk (b : ReadBatch) : Type 0 where
  pub asks : 0 < b.quantity
  pub allowed : b.quantity ≤ max_quantity b.register_type
  pub in_space : b.start_address + b.quantity ≤ 65536
  pub covers : All (Within b) b.points

Within-extend :
    (b : ReadBatch) (p : PointRef) (qs : List PointRef)
    → b.quantity ≤ (extend b p).quantity
    → All (Within b) qs
    → All (Within (extend b p)) qs
Within-extend b p [] h k = tt
Within-extend b p (q ∷ qs) h k = ((k.0.0, omega arith), Within-extend b p qs h k.1)

max_quantity_bounds : (t : RegisterType) → (125 ≤ max_quantity t) × (max_quantity t ≤ 2000)
max_quantity_bounds coil = omega arith
max_quantity_bounds discrete_input = omega arith
max_quantity_bounds holding_register = omega arith
max_quantity_bounds input_register = omega arith

single-BatchOk : (t : RegisterType) (p : PointRef) → InSpace p.1 → BatchOk (single t p)
single-BatchOk t p h = record {
  asks = h.0;
  allowed = omega (arith, max_quantity_bounds t);
  in_space = h.2;
  covers = ((omega arith, omega arith), tt);
}

-- Where the test of buildBatches passes for a point that is not below the batch, the point is next
-- to the batch and nothing wraps.
grows :
    (start q c addr m : ℕ)
    → 0 < q
    → q ≤ m
    → m ≤ 2000
    → start + q ≤ 65536
    → c ≤ 2
    → addr + c ≤ 65536
    → 0 < c
    → start ≤ addr
    → ((addr == (start + q) % 65536) && leb ((q + c) % 65536) m) ≡ true
    → (addr ≡ start + q) × ((q + c) % 65536 ≡ q + c) × (q + c ≤ m)
grows start q c addr m h1 h2 h3 h4 h5 h6 h7 h8 e = ground arith

extend-BatchOk :
    (b : ReadBatch) (p : PointRef)
    → BatchOk b
    → InSpace p.1
    → b.start_address ≤ p.1.register_address
    → extends b p ≡ true
    → BatchOk (extend b p)
extend-BatchOk b p h i lo e =
    let (next, exact, small) =
      grows b.start_address b.quantity (register_count p.1) p.1.register_address
        (max_quantity b.register_type) h.asks h.allowed (max_quantity_bounds b.register_type).1
        h.in_space i.1 i.2 i.0 lo e in
    record {
      asks = rw exact (omega arith);
      allowed = rw exact small;
      in_space = rw exact (omega arith);
      covers =
          All-append (Within (extend b p)) b.points (p ∷ [])
            (Within-extend b p b.points (rw exact (omega arith)) h.covers)
            ((omega arith, rw exact (omega arith)), tt);
    }

build_from-BatchOk :
    (b : ReadBatch) (ps : List PointRef)
    → BatchOk b
    → All RefInSpace ps
    → IsSorted ps
    → AllFrom b.start_address ps
    → All BatchOk (build_from b ps)
unfolding build_from
build_from-BatchOk b [] h k o lo = (h, tt)
build_from-BatchOk b (p ∷ ps) h k o lo = elim (Bool-cases (extends b p)) [
  | inl e ↦ rw e (build_from-BatchOk (extend b p) ps (extend-BatchOk b p h k.0 lo.0 e) k.1 o.1 lo.1)
  | inr e ↦ rw e (
    h,
    build_from-BatchOk (single b.register_type p) ps (single-BatchOk b.register_type p k.0) k.1 o.1
        o.0,
  )
]

build_group-BatchOk :
    (t : RegisterType) (ps : List PointRef)
    → All RefInSpace ps
    → IsSorted ps
    → All BatchOk (build_group t ps)
unfolding build_group
build_group-BatchOk t [] k o = tt
build_group-BatchOk t (p ∷ ps) k o =
    build_from-BatchOk (single t p) ps (single-BatchOk t p k.0) k.1 o.1 o.0

pub build_batches-BatchOk :
    (ps : List ModbusPointMapping) → All InSpace ps → All BatchOk (build_batches ps)
unfolding build_batches
build_batches-BatchOk ps h = All-append BatchOk _ _ (ok coil) (
    All-append BatchOk _ _ (ok discrete_input)
      (All-append BatchOk _ _ (ok holding_register) (ok input_register)))
  where
    ok : (t : RegisterType) → All BatchOk (build_group t (group t ps))
    ok t =
        build_group-BatchOk t (group t ps)
          (All-group RefInSpace t ps (All-enumerate InSpace 0 ps h)) (group-IsSorted t ps)

-- The points of all the batches.
abbrev pub batched : List ReadBatch → List PointRef
batched [] = []
batched (b ∷ bs) = b.points ++ batched bs

batched-append :
    (i : ℕ) (bs cs : List ReadBatch)
    → occurs i (batched (bs ++ cs)) ≡ occurs i (batched bs) + occurs i (batched cs)
batched-append i [] cs = omega arith
batched-append i (b ∷ bs) cs = omega (
  arith,
  occurs-append i b.points (batched (bs ++ cs)),
  occurs-append i b.points (batched bs),
  batched-append i bs cs,
)

occurs-build_from :
    (i : ℕ) (b : ReadBatch) (ps : List PointRef)
    → occurs i (batched (build_from b ps)) ≡ occurs i b.points + occurs i ps
unfolding build_from
occurs-build_from i b [] = omega (arith, occurs-append i b.points [])
occurs-build_from i b (p ∷ ps) = elim (Bool-cases (extends b p)) [
  | inl e ↦
      rw e (omega (arith, occurs-build_from i (extend b p) ps, occurs-append i b.points (p ∷ [])))
  | inr e ↦ rw e (
      omega (
        arith,
        occurs-append i b.points (batched (build_from (single b.register_type p) ps)),
        occurs-build_from i (single b.register_type p) ps,
      ))
]

occurs-build_group :
    (i : ℕ) (t : RegisterType) (ps : List PointRef)
    → occurs i (batched (build_group t ps)) ≡ occurs i ps
unfolding build_group
occurs-build_group i t [] = refl
occurs-build_group i t (p ∷ ps) = omega (arith, occurs-build_from i (single t p) ps)

-- The batches hold every point of the vector exactly once, and nothing else.
pub occurs-build_batches :
    (i : ℕ) (ps : List ModbusPointMapping)
    → occurs i (batched (build_batches ps)) ≡ (if ltb i (length ps) then 1 else 0)
unfolding build_batches
occurs-build_batches i ps =
    omega (arith, batched-append i, occurs-build_group i, occurs-group i ps, count)
  where
    count : occurs i (enumerate 0 ps) ≡ (if ltb i (length ps) then 1 else 0)
    count = ground (arith, occurs-enumerate i 0 ps)
