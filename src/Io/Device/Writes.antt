-- ===== src/Io/Device/Writes.antt =====
-- The snapshot of a batch of outputs, and the values that it lacks (pollOnce of io/modbus_tcp_driver.cpp).
use soft_plc.Base.{
  ℕ, ◌≡◌, ◌≢◌, refl, Bool, true, false, some, List, [], ◌∷◌, arith, get_elem?, Result, ok, err,
  bad_variant_access, ◌>>=◌, replicate, some_inj, zero, suc,
}
use soft_plc.Tags.Value.{TypeId, Value}
use soft_plc.Io.Mapping.{
  PointRef, ReadBatch, WordOrder, is_bit_table, is_register_type, encode_modbus_point_value,
  encode_value, offset_in, coil, RegisterType, discrete_input,
}
use soft_plc.Io.Client.{Requests, RequestResult}
use soft_plc.Io.Device.{CachedPoint, snapshot_value, register_image, coil_image, send}

encode_bool :
    (t : TypeId) (order : WordOrder) (b : Bool) (i : ℕ) (rs : List ℕ)
    → is_register_type t ≡ true
    → encode_value t order (Value.bool b) i rs ≡ err bad_variant_access
unfolding encode_value
encode_bool TypeId.byte order b i rs h = refl
encode_bool TypeId.int order b i rs h = refl
encode_bool TypeId.dint order b i rs h = refl
encode_bool TypeId.real order b i rs h = refl
encode_bool TypeId.bool order b i rs h = cc
encode_bool TypeId.lreal order b i rs h = cc
encode_bool TypeId.time order b i rs h = cc
encode_bool TypeId.string order b i rs h = cc

-- The snapshot of a point whose cache entry is not valid.
gap_value :
    (cache : List CachedPoint) (r : PointRef) (c : CachedPoint)
    → get_elem? cache r.0 ≡ some c
    → c.valid ≡ false
    → snapshot_value cache r ≡ Value.bool false
gap_value cache r c p q = ground arith

ne_ok_of_err :
    {A B : Type 0} (m : Result A) (f : A → Result B) (y : B)
    → ((a : A) → f a ≢ ok y)
    → (m >>= f) ≢ ok y
ne_ok_of_err (ok a) f y h = h a
ne_ok_of_err (err e) f y h = λ q. cc

ne_ok_of_ne :
    {A B : Type 0} (m : Result A) (f : A → Result B) (y : B)
    → ((a : A) → m ≢ ok a)
    → (m >>= f) ≢ ok y
ne_ok_of_ne (ok a) f y h = absurd (h a refl)
ne_ok_of_ne (err e) f y h = λ q. cc

register_image-gap :
    (b : ReadBatch) (ps : List PointRef) (k : ℕ) (r : PointRef) (cache : List CachedPoint)
    (rs ys : List ℕ)
    → get_elem? ps k ≡ some r
    → is_register_type r.1.type ≡ true
    → snapshot_value cache r ≡ Value.bool false
    → register_image b ps cache rs ≢ ok ys
unfolding register_image encode_modbus_point_value
register_image-gap b [] k r cache rs ys p t g = λ _. cc
register_image-gap b (q ∷ ps) zero r cache rs ys p t g =
    rw (some_inj p, g, encode_bool r.1.type r.1.word_order false (offset_in r.1 b) rs t) (λ e. cc)
register_image-gap b (q ∷ ps) (suc k) r cache rs ys p t g =
    ne_ok_of_err (encode_modbus_point_value q.1 (snapshot_value cache q) (offset_in q.1 b) rs) _ ys
      (λ rs'. register_image-gap b ps k r cache rs' ys p t g)

-- A batch of registers with a point that has never had a value, such as an output whose tag is not
-- declared or has another type, cannot be sent: building the request throws.
pub send-gap :
    {C : Type 0} (req : Requests C) (b : ReadBatch) (cache : List CachedPoint) (s : C) (k : ℕ)
    (r : PointRef) (c : CachedPoint) (x : RequestResult × C)
    → is_bit_table b.register_type ≡ false
    → get_elem? b.points k ≡ some r
    → is_register_type r.1.type ≡ true
    → get_elem? cache r.0 ≡ some c
    → c.valid ≡ false
    → send req b cache s ≢ ok x
unfolding send
send-gap {C} req b cache s k r c x table p t e v = by_table b.register_type table
  where
    image : (ys : List ℕ) → register_image b b.points cache (replicate b.quantity 0) ≢ ok ys
    image ys = register_image-gap b b.points k r cache _ ys p t (gap_value cache r c e v)

    by_table :
        (u : RegisterType)
        → is_bit_table u ≡ false
        → let sent : Result (RequestResult × C) = elim u [
          | coil ↦ coil_image b.points cache >>= λ bits. ok (req.write_coils b.start_address bits s)
          | _ ↦ register_image b b.points cache (replicate b.quantity 0) >>= λ registers.
              ok (req.write_registers b.start_address registers s)
        ] in
          sent ≢ ok x
    by_table coil h = cc
    by_table discrete_input h = cc
    by_table u h = ne_ok_of_ne (register_image b b.points cache (replicate b.quantity 0)) _ x image
