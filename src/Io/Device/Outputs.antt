-- ===== src/Io/Device/Outputs.antt =====
-- What writeOutputs leaves in the cache of the outputs, and the snapshot of a batch
-- (io/modbus_tcp_driver.cpp).
use std.Path.{subst}
use soft_plc.Base.{
  ℕ, zero, suc, ◌≡◌, refl, sym, ◌∙◌, ap, arith, Bool, true, not, ◌||◌, some, List, [], ◌∷◌,
  get_elem?, All, map, inl, inr, Result-cases, Result, ok, err, ◌>>=◌, ok_inj, some_inj,
  bad_variant_access,
}
use soft_plc.Tags.Value.{TypeId, Value, type_eq}
use soft_plc.Tags.Store.{TagStore, find_address, read, tag_type}
use soft_plc.St.Fpu.{Fpu}
use soft_plc.Io.Mapping.{ModbusPointMapping, PointRef}
use soft_plc.Io.Device.{
  CachedPoint, Device, value_eq, observe, write_output_point, write_output_points, write_outputs,
  is_due, needs_write, snapshot_value, coil_image,
}

-- The tag of this point has the type of the point and this value.
abbrev pub Shows : TagStore → ModbusPointMapping → Value → Type 0
Shows s p v =
    (id : ℕ) × (t : TypeId) × (find_address p.iec_address s ≡ some id)
    × (tag_type id s ≡ ok t)
    × (type_eq t p.type ≡ true)
    × (read id s ≡ ok v)

pub write_output_point-Shows :
    (fpu : Fpu) (s : TagStore) (p : ModbusPointMapping) (c : CachedPoint) (v : Value)
    → Shows s p v
    → write_output_point fpu s p c ≡ ok (observe fpu v c)
unfolding write_output_point
write_output_point-Shows fpu s p c v (id, t, e, f, g, h) = rw (write_output_point, e, f, g, h) refl

pub write_output_points_at :
    (fpu : Fpu) (s : TagStore) (ps : List ModbusPointMapping) (cs cs' : List CachedPoint) (i : ℕ)
    (p : ModbusPointMapping) (c : CachedPoint) (v : Value)
    → write_output_points fpu s ps cs ≡ ok cs'
    → get_elem? ps i ≡ some p
    → get_elem? cs i ≡ some c
    → Shows s p v
    → get_elem? cs' i ≡ some (observe fpu v c)
unfolding write_output_points
write_output_points_at fpu s [] cs cs' i p c v e h k shows = cc
write_output_points_at fpu s (q ∷ ps) [] cs' i p c v e h k shows = cc
write_output_points_at fpu s (q ∷ ps) (x ∷ cs) cs' i p c v e h k shows =
    elim (Result-cases (write_output_point fpu s q x)) [
      | inr (y, z) ↦ let bad : Result.err y ≡ ok cs' = rw z at e in absurd (cc bad)
      | inl (x', z) ↦ elim (Result-cases (write_output_points fpu s ps cs)) [
        | inr (y, w) ↦ let bad : Result.err y ≡ ok cs' = rw (z, w) at e in absurd (cc bad)
        | inl (xs', w) ↦
            let made = ok_inj (rw (z, w) at e) in
            rw (← made) (
              by_position i h k x' xs' z
                (λ j a b. write_output_points_at fpu s ps cs xs' j p c v w a b shows))
      ]
    ]
  where
    by_position :
        (i : ℕ)
        → get_elem? (q ∷ ps) i ≡ some p
        → get_elem? (x ∷ cs) i ≡ some c
        → (x' : CachedPoint) (xs' : List CachedPoint) → write_output_point fpu s q x ≡ ok x'
        → ((j : ℕ)
            → get_elem? ps j ≡ some p
            → get_elem? cs j ≡ some c
            → get_elem? xs' j ≡ some (observe fpu v c))
        → get_elem? (x' ∷ xs') i ≡ some (observe fpu v c)
    by_position zero h k x' xs' z rest =
        let z' = rw (some_inj h, some_inj k) at z in
        ap some (ok_inj (sym z' ∙ write_output_point-Shows fpu s p c v shows))
    by_position (suc i) h k x' xs' z rest = rest i h k

-- The bits of a snapshot, where they are.
abbrev pub AreBits : List CachedPoint → List PointRef → Type 0
AreBits cache ps = All (λ (r : PointRef). (x : Bool) × (snapshot_value cache r ≡ Value.bool x)) ps

pub coil_image-bits :
    (ps : List PointRef) (cache : List CachedPoint)
    → AreBits cache ps
    → (bits : List Bool) × (coil_image ps cache ≡ ok bits)
      × (map (λ r. snapshot_value cache r) ps ≡ map Value.bool bits)
unfolding coil_image
coil_image-bits [] cache h = ([], refl, refl)
coil_image-bits (r ∷ ps) cache ((x, e), h) =
    let (bits, f, g) = coil_image-bits ps cache h in
    (
      x ∷ bits,
      subst
          (λ v.
            (elim v [
              | Value.bool b ↦ coil_image ps cache >>= λ bs. ok (b ∷ bs)
              | _ ↦ err bad_variant_access
            ])
            ≡ ok (x ∷ bits))
          (sym e) (rw f refl),
      ap (λ v. v ∷ map (λ r. snapshot_value cache r) ps) e ∙ ap (λ vs. Value.bool x ∷ vs) g,
    )

-- The tag's value is new to the cached point.
abbrev pub IsNews : Fpu → Value → CachedPoint → Type 0
IsNews fpu v c = (not c.valid || not (value_eq fpu c.value v)) ≡ true

pub observe-news :
    (fpu : Fpu) (v : Value) (c : CachedPoint)
    → IsNews fpu v c
    → observe fpu v c ≡ (record c { value = v; valid = true; dirty = true })
unfolding observe
observe-news fpu v c h = rw h refl

pub write_outputs_at :
    (fpu : Fpu) (s : TagStore) (d d1 : Device) (i : ℕ) (p : ModbusPointMapping) (c : CachedPoint)
    (v : Value)
    → write_outputs fpu s d ≡ ok d1
    → get_elem? d.output_points i ≡ some p
    → get_elem? d.output_cache i ≡ some c
    → Shows s p v
    → IsNews fpu v c
    → get_elem? d1.output_cache i ≡ some (record c { value = v; valid = true; dirty = true })
unfolding write_outputs
write_outputs_at fpu s d d1 i p c v e at entry shows news =
    elim (Result-cases (write_output_points fpu s d.output_points d.output_cache)) [
      | inr (y, z) ↦ let bad : Result.err y ≡ ok d1 = rw z at e in absurd (cc bad)
      | inl (cs, z) ↦
          let made = ok_inj (rw z at e) in
          ap (λ x. get_elem? x.output_cache i) (sym made)
          ∙ write_output_points_at fpu s d.output_points d.output_cache cs i p c v z at entry shows
          ∙ ap some (observe-news fpu v c news)
    ]

pub needs_write_at :
    (now interval : ℕ) (ps : List PointRef) (cache : List CachedPoint) (k i : ℕ)
    (p : ModbusPointMapping) (c : CachedPoint)
    → get_elem? ps k ≡ some (i, p)
    → get_elem? cache i ≡ some c
    → is_due now interval c ≡ true
    → needs_write now interval ps cache ≡ true
unfolding needs_write
needs_write_at now interval [] cache k i p c h e due = cc
needs_write_at now interval (r ∷ ps) cache zero i p c h e due =
    let same = ap (λ x. x.0) (some_inj h) in rw (same, e, due) refl
needs_write_at now interval (r ∷ ps) cache (suc k) i p c h e due =
    rw (needs_write_at now interval ps cache k i p c h e due) (ground arith)

pub image_at :
    (f : PointRef → Value) (rs : List PointRef) (bits : List Bool) (k : ℕ) (r : PointRef) (x : Bool)
    → map f rs ≡ map Value.bool bits
    → get_elem? rs k ≡ some r
    → f r ≡ Value.bool x
    → get_elem? bits k ≡ some x
image_at f [] bits k r x e h g = cc
image_at f (q ∷ rs) [] k r x e h g = cc
image_at f (q ∷ rs) (y ∷ bits) zero r x e h g = cc
image_at f (q ∷ rs) (y ∷ bits) (suc k) r x e h g =
    let rest : map f rs ≡ map Value.bool bits = cc in image_at f rs bits k r x rest h g
