-- ===== src/Io/Device/Meanwhile.antt =====
-- writeOutputs of the scan thread and the poller (io/modbus_tcp_driver.cpp): what is sent after a tag has
-- changed, and what becomes of a change that falls between a request and the marks of its points.
use soft_plc.Base.{
  ℕ, ◌+◌, ◌<◌, ◌≡◌, refl, Bool, true, some, List, if◌then◌else◌, get_elem?, map, ok,
}
use soft_plc.Tags.Value.{Value}
use soft_plc.Tags.Store.{TagStore}
use soft_plc.St.Fpu.{Fpu}
use soft_plc.Io.Mapping.{ModbusPointMapping, ReadBatch, coil}
use soft_plc.Io.Client.{Requests, RequestResult, is_ok}
use soft_plc.Io.Device.{
  CachedPoint, Device, write_outputs, needs_write, mark_written, snapshot_value, send, poll_write,
  poll_write_while, record_outcome,
}
use soft_plc.Io.Device.Marks.{HasValue, mark_written-needs_write, mark_written-HasValue}
use soft_plc.Io.Device.Outputs.{
  Shows, IsNews, AreBits, write_outputs_at, needs_write_at, coil_image-bits, image_at,
}

-- A BOOL output whose tag has a value that is new to the cache is sent by the next write of its coil
-- batch, whenever that is: the request carries the snapshot of the whole batch, the new value in the place
-- of the output. The points are marked as sent only if the request succeeds, so that a failed one is
-- repeated. The condition is that the snapshot of the batch holds BOOL values.
pub poll_write-write_outputs :
    {C : Type 0} (req : Requests C) (fpu : Fpu) (s : TagStore) (now : ℕ) (b : ReadBatch)
    (d d1 : Device) (c : C) (i k : ℕ) (p : ModbusPointMapping) (entry : CachedPoint) (x : Bool)
    → write_outputs fpu s d ≡ ok d1
    → get_elem? d.output_points i ≡ some p
    → get_elem? d.output_cache i ≡ some entry
    → Shows s p (Value.bool x)
    → IsNews fpu (Value.bool x) entry
    → b.register_type ≡ coil
    → get_elem? b.points k ≡ some (i, p)
    → AreBits d1.output_cache b.points
    → (bits : List Bool) × (map (λ r. snapshot_value d1.output_cache r) b.points
        ≡ map Value.bool bits)
      × (get_elem? bits k ≡ some x)
      × (let (r, c1) = req.write_coils b.start_address bits c in
          let (time, c2) = req.clock c1 in
          poll_write req now b d1 c
          ≡ ok (
            record d1 {
              diag = record_outcome r time d1.diag;
              output_cache =
                  if is_ok r then mark_written now b.points d1.output_cache else d1.output_cache;
            },
            c2,
          ))
unfolding poll_write_while send
poll_write-write_outputs req fpu s now b d d1 c i k p entry x e at cached shows news table place
      bools =
    let stored = write_outputs_at fpu s d d1 i p entry (Value.bool x) e at cached shows news in
    let due =
      needs_write_at now d1.config.output_refresh_interval b.points d1.output_cache k i p _ place
        stored refl in
    let (bits, image, same) = coil_image-bits b.points d1.output_cache bools in
    (
      bits,
      same,
      image_at (λ r. snapshot_value d1.output_cache r) b.points bits k (i, p) x same place
          (rw (snapshot_value, stored) refl),
      rw (due, table, image) refl,
    )

-- What the cache gets from writeOutputs while the request of a batch is on the way is marked as sent when the
-- request succeeds. So the new value of an output of the batch is in the cache and makes the batch due, but
-- then, until the refresh interval ends, polling sends nothing for it, although the request held the
-- values from before.
pub poll_write-poll_write_while :
    {C : Type 0} (req : Requests C) (fpu : Fpu) (s : TagStore) (now later : ℕ) (b : ReadBatch)
    (d d1 : Device) (c c1 c2 : C) (r : RequestResult) (i k : ℕ) (p : ModbusPointMapping)
    (entry : CachedPoint) (v : Value)
    → write_outputs fpu s d ≡ ok d1
    → get_elem? d.output_points i ≡ some p
    → get_elem? d.output_cache i ≡ some entry
    → Shows s p v
    → IsNews fpu v entry
    → needs_write now d.config.output_refresh_interval b.points d.output_cache ≡ true
    → send req b d.output_cache c ≡ ok (r, c1)
    → is_ok r ≡ true
    → get_elem? b.points k ≡ some (i, p)
    → later < now + d.config.output_refresh_interval
    → (needs_write later d.config.output_refresh_interval b.points d1.output_cache ≡ true)
      × (d2 : Device) × (poll_write_while req (λ _. d1.output_cache) now b d c
          ≡ ok (d2, (req.clock c1).1))
      × HasValue d2.output_cache i v
      × (poll_write req later b d2 c2 ≡ ok (d2, c2))
unfolding poll_write_while
poll_write-poll_write_while req fpu s now later b d d1 c c1 c2 r i k p entry v e at cached shows
      news due sent fine place lt =
    let stored = write_outputs_at fpu s d d1 i p entry v e at cached shows news in
    let rest =
      mark_written-needs_write now later d.config.output_refresh_interval b.points d1.output_cache
        lt in
    (
      needs_write_at later d.config.output_refresh_interval b.points d1.output_cache k i p _ place
          stored refl,
      record d {
        diag = record_outcome r (req.clock c1).0 d.diag;
        output_cache = mark_written now b.points d1.output_cache;
      },
      rw (due, sent, fine) refl,
      mark_written-HasValue now b.points d1.output_cache i v (_, stored, refl),
      rw rest refl,
    )
