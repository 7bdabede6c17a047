-- ===== src/Core/Scan/Diagnostics.antt =====
-- The diagnostics after a series of scans, and the schedule of the scan thread.
use soft_plc.Base.{
  ℕ, ◌+◌, ◌%◌, ◌^◌, ◌<◌, ◌≤◌, ◌≡◌, refl, true, false, List, [], ◌∷◌, arith, ltb, leb, if◌then◌else◌,
  length, All, Bool-cases, inl, inr,
}
use soft_plc.Core.Scan.{ScanDiagnostics, initial_diagnostics, housekeeping, reschedule}

-- The diagnostics after scans of these durations, the last one first.
abbrev pub after : ℕ → List ℕ → ScanDiagnostics
after cycle_time [] = initial_diagnostics
after cycle_time (t ∷ ts) = housekeeping cycle_time t (after cycle_time ts)

-- The number of durations beyond the cycle time.
abbrev pub overruns : ℕ → List ℕ → ℕ
overruns cycle_time [] = 0
overruns cycle_time (t ∷ ts) = (if ltb cycle_time t then 1 else 0) + overruns cycle_time ts

abbrev pub Bounded : ℕ → ℕ → List ℕ → Type 0
Bounded lo hi = All (λ (t : ℕ). (lo ≤ t) × (t ≤ hi))

Bounded-widen :
    (lo hi lo' hi' : ℕ) (ts : List ℕ) → lo' ≤ lo → hi ≤ hi' → Bounded lo hi ts → Bounded lo' hi' ts
Bounded-widen lo hi lo' hi' [] h k b = tt
Bounded-widen lo hi lo' hi' (t ∷ ts) h k b =
    ((omega arith, omega arith), Bounded-widen lo hi lo' hi' ts h k b.1)

bounded :
    (cycle_time : ℕ) (ts : List ℕ)
    → Bounded (after cycle_time ts).min_cycle_duration (after cycle_time ts).max_cycle_duration ts
unfolding housekeeping
bounded cycle_time [] = tt
bounded cycle_time (t ∷ ts) = (
  (ground arith, ground arith),
  Bounded-widen (after cycle_time ts).min_cycle_duration (after cycle_time ts).max_cycle_duration _
      _ ts (ground arith) (ground arith) (bounded cycle_time ts),
)

count : (cycle_time : ℕ) (ts : List ℕ) → (after cycle_time ts).cycle_count ≡ length ts % 2 ^ 64
unfolding housekeeping
count cycle_time [] = omega arith
count cycle_time (t ∷ ts) = rw (count cycle_time ts) (omega arith)

over :
    (cycle_time : ℕ) (ts : List ℕ)
    → (after cycle_time ts).overrun_count ≡ overruns cycle_time ts % 2 ^ 64
unfolding housekeeping
over cycle_time [] = omega arith
over cycle_time (t ∷ ts) = elim (Bool-cases (ltb cycle_time t)) [
  | inl e ↦ rw (e, over cycle_time ts) (omega arith)
  | inr e ↦ rw (e, over cycle_time ts) (omega arith)
]

-- After scans of any durations, the counters are the number of scans and of those beyond the cycle
-- time, modulo 2 ^ 64, and every duration lies between the least and the greatest recorded.
pub housekeeping_exact :
    (cycle_time : ℕ) (ts : List ℕ)
    → let d = after cycle_time ts in
      (d.cycle_count ≡ length ts % 2 ^ 64)
      × (d.overrun_count ≡ overruns cycle_time ts % 2 ^ 64)
      × Bounded d.min_cycle_duration d.max_cycle_duration ts
housekeeping_exact cycle_time ts = (count cycle_time ts, over cycle_time ts, bounded cycle_time ts)

-- With a positive cycle time and a clock that does not go back, the next tick lies after the time at
-- which the scan ended. The thread sleeps for it exactly if the old tick plus one cycle is still to
-- come, and then the schedule has not drifted; otherwise one resynchronisation is counted.
pub reschedule-lt :
    (cycle_time tick now later : ℕ) (d : ScanDiagnostics)
    → 0 < cycle_time
    → now ≤ later
    → let ((next, sleeps), d') = reschedule cycle_time tick now later d in
      (now < next)
      × (sleeps ≡ true → (next ≡ tick + cycle_time) × (d' ≡ d))
      × (sleeps ≡ false
          → (tick + cycle_time ≤ now) × (d'.resync_count ≡ (d.resync_count + 1) % 2 ^ 64))
unfolding reschedule
reschedule-lt cycle_time tick now later d p q = elim (Bool-cases (leb (tick + cycle_time) now)) [
  | inl e ↦ rw e (omega arith, (λ x. cc), (λ x. (ground arith, refl)))
  | inr e ↦ rw e (ground arith, (λ x. (refl, refl)), (λ x. cc))
]
