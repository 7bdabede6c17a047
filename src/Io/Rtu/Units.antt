-- ===== src/Io/Rtu/Units.antt =====
-- The unit ids of a bus that validateRtuBusConfig accepts (io/modbus_mapping.cpp).
use soft_plc.Base.{
  ℕ, ◌<◌, ◌≤◌, ◌≡◌, ◌≢◌, false, List, [], ◌∷◌, arith, ltb, ◌==◌, All, Bool-cases, inl, inr, ok,
  throw_if, length, empty_device_path, shared_unit_id,
}
use soft_plc.Io.Rtu.{
  insert_id, sort_ids, has_adjacent, unit_ids, validate_devices, validate_rtu_bus_config,
  RtuBusConfig,
}
use soft_plc.Io.Mapping.Validation.{seq-ok, throw_if-ok}

abbrev pub AreDistinct : List ℕ → Type 0
AreDistinct [] = Unit
AreDistinct (u ∷ us) = All (λ (v : ℕ). u ≢ v) us × AreDistinct us

abbrev Ascends : List ℕ → Type 0
Ascends [] = Unit
Ascends (u ∷ us) = All (λ (v : ℕ). u ≤ v) us × Ascends us

module _ (P : ℕ → Type 0) where
  All-insert_id : (u : ℕ) (us : List ℕ) → P u → All P us → All P (insert_id u us)
  unfolding insert_id
  All-insert_id u [] h k = (h, tt)
  All-insert_id u (v ∷ vs) h k = elim (Bool-cases (ltb v u)) [
    | inl e ↦ rw e (k.0, All-insert_id u vs h k.1)
    | inr e ↦ rw e (h, k)
  ]

  All-insert_id_inv : (u : ℕ) (us : List ℕ) → All P (insert_id u us) → P u × All P us
  unfolding insert_id
  All-insert_id_inv u [] h = h
  All-insert_id_inv u (v ∷ vs) h = elim (Bool-cases (ltb v u)) [
    | inl e ↦ let (a, b) = rw e at h in let (x, y) = All-insert_id_inv u vs b in (x, (a, y))
    | inr e ↦ rw e at h
  ]

  All-sort_ids_inv : (us : List ℕ) → All P (sort_ids us) → All P us
  unfolding sort_ids
  All-sort_ids_inv [] h = tt
  All-sort_ids_inv (u ∷ us) h =
      let (x, y) = All-insert_id_inv u (sort_ids us) h in (x, All-sort_ids_inv us y)

All-lower_id :
    (u v : ℕ) (vs : List ℕ) → u ≤ v → All (λ (w : ℕ). v ≤ w) vs → All (λ (w : ℕ). u ≤ w) vs
All-lower_id u v [] h k = tt
All-lower_id u v (w ∷ ws) h k = (omega arith, All-lower_id u v ws h k.1)

All-higher_id :
    (u v : ℕ) (vs : List ℕ) → u < v → All (λ (w : ℕ). v ≤ w) vs → All (λ (w : ℕ). u ≢ w) vs
All-higher_id u v [] h k = tt
All-higher_id u v (w ∷ ws) h k = ((λ e. omega arith), All-higher_id u v ws h k.1)

insert_id-Ascends : (u : ℕ) (us : List ℕ) → Ascends us → Ascends (insert_id u us)
unfolding insert_id
insert_id-Ascends u [] h = (tt, tt)
insert_id-Ascends u (v ∷ vs) h = elim (Bool-cases (ltb v u)) [
  | inl e ↦
      rw e (All-insert_id (λ (w : ℕ). v ≤ w) u vs (ground arith) h.0, insert_id-Ascends u vs h.1)
  | inr e ↦ rw e ((ground arith, All-lower_id u v vs (ground arith) h.0), h)
]

sort_ids-Ascends : (us : List ℕ) → Ascends (sort_ids us)
unfolding sort_ids
sort_ids-Ascends [] = tt
sort_ids-Ascends (u ∷ us) = insert_id-Ascends u (sort_ids us) (sort_ids-Ascends us)

has_adjacent-AreDistinct : (us : List ℕ) → Ascends us → has_adjacent us ≡ false → AreDistinct us
unfolding has_adjacent
has_adjacent-AreDistinct [] h e = tt
has_adjacent-AreDistinct (u ∷ []) h e = (tt, tt)
has_adjacent-AreDistinct (u ∷ v ∷ vs) h e =
    let lt : u < v = ground arith in
    (
      ((λ p. omega arith), All-higher_id u v vs lt h.1.0),
      has_adjacent-AreDistinct (v ∷ vs) h.1 (ground arith),
    )

AreDistinct-insert_id : (u : ℕ) (us : List ℕ) → AreDistinct (insert_id u us) → AreDistinct (u ∷ us)
unfolding insert_id
AreDistinct-insert_id u [] h = h
AreDistinct-insert_id u (v ∷ vs) h = elim (Bool-cases (ltb v u)) [
  | inl e ↦
      let (a, b) = rw e at h in
      let (x, y) = AreDistinct-insert_id u vs b in
      let (v_ne, rest) = All-insert_id_inv (λ (w : ℕ). v ≢ w) u vs a in
      (((λ p. v_ne (omega arith)), x), (rest, y))
  | inr e ↦ rw e at h
]

AreDistinct-sort_ids : (us : List ℕ) → AreDistinct (sort_ids us) → AreDistinct us
unfolding sort_ids
AreDistinct-sort_ids [] h = tt
AreDistinct-sort_ids (u ∷ us) h =
    let (x, y) = AreDistinct-insert_id u (sort_ids us) h in
    (All-sort_ids_inv (λ (w : ℕ). u ≢ w) us x, AreDistinct-sort_ids us y)

-- In an accepted bus no two devices have the same unit id.
pub validate_rtu_bus_config-AreDistinct :
    (bus : RtuBusConfig) → validate_rtu_bus_config bus ≡ ok tt → AreDistinct (unit_ids bus.devices)
unfolding validate_rtu_bus_config
validate_rtu_bus_config-AreDistinct bus e =
    let (path, e1) = seq-ok (throw_if (length bus.device_path == 0) empty_device_path) _ tt e in
    let (each, e2) = seq-ok (validate_devices bus.devices) _ tt e1 in
    let none_adjacent =
      throw_if-ok (has_adjacent (sort_ids (unit_ids bus.devices))) shared_unit_id e2 in
    AreDistinct-sort_ids (unit_ids bus.devices) (
      has_adjacent-AreDistinct (sort_ids (unit_ids bus.devices))
        (sort_ids-Ascends (unit_ids bus.devices)) none_adjacent)
