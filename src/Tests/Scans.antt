-- ===== src/Tests/Scans.antt =====
-- The theorems on the scan cycle at concrete times.
use soft_plc.Base.{ℕ, ◌+◌, ◌%◌, ◌^◌, ◌<◌, ◌≤◌, ◌≡◌, true, false, List, [], ◌∷◌, arith, length}
use soft_plc.Core.Scan.{initial_diagnostics, reschedule}
use soft_plc.Core.Scan.Diagnostics.{after, overruns, Bounded, housekeeping_exact, reschedule-lt}

abbrev durations : List ℕ
durations = 9000 ∷ 12000 ∷ []

housekeeping_exact_example :
    let d = after 10000 durations in
    (d.cycle_count ≡ length durations % 2 ^ 64)
    × (d.overrun_count ≡ overruns 10000 durations % 2 ^ 64)
    × Bounded d.min_cycle_duration d.max_cycle_duration durations
housekeeping_exact_example = housekeeping_exact 10000 durations

reschedule-lt_example :
    let ((next, sleeps), d') = reschedule 10000 50000 61000 61005 initial_diagnostics in
    (61000 < next)
    × (sleeps ≡ true → (next ≡ 50000 + 10000) × (d' ≡ initial_diagnostics))
    × (sleeps ≡ false
        → (50000 + 10000 ≤ 61000)
          × (d'.resync_count ≡ (initial_diagnostics.resync_count + 1) % 2 ^ 64))
reschedule-lt_example =
    reschedule-lt 10000 50000 61000 61005 initial_diagnostics (omega arith) (omega arith)
