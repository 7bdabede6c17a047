-- ===== src/Core/Scan.antt =====
-- The scan engine (core/scan_engine.hpp, scan_engine.cpp). Times and durations are microseconds; the steady
-- clock does not go back. The I/O driver and the program are parameters, and so is each reading of the clock.
pub mod Diagnostics
use soft_plc.Base.{
  ℕ, ◌+◌, ◌-◌, ◌/◌, ◌%◌, ◌^◌, Bool, true, false, Option, none, some, Str, codes, ltb, leb,
  if◌then◌else◌, Result, ok, err,
}
use soft_plc.Base.Int.{ℤ, pos, sub_ℕ, max_ℤ}
use soft_plc.Tags.Value.{Value}
use soft_plc.Tags.Store.{TagStore, find, write}
use soft_plc.St.Exec.{Exec, ◌>>=◌, ◌>>◌, pure}

pub record ScanDiagnostics : Type 0 where
  pub cycle_count : ℕ
  pub overrun_count : ℕ
  pub last_cycle_duration : ℕ
  pub max_cycle_duration : ℕ
  pub min_cycle_duration : ℕ
  pub last_wake_jitter : ℤ
  pub max_wake_jitter : ℤ
  pub resync_count : ℕ

-- std::chrono::microseconds::max()
abbrev pub max_duration : ℕ
max_duration = 9223372036854775807

abbrev pub initial_diagnostics : ScanDiagnostics
initial_diagnostics = record {
  cycle_count = 0;
  overrun_count = 0;
  last_cycle_duration = 0;
  max_cycle_duration = 0;
  min_cycle_duration = max_duration;
  last_wake_jitter = pos 0;
  max_wake_jitter = pos 0;
  resync_count = 0;
}

-- IIoDriver and IProgram, on their own state `W`.
pub record Environment (W : Type 0) : Type 0 where
  pub read_inputs : W → Exec W
  pub execute : W → Exec W
  pub write_outputs : W → Exec W

pub record ScanEngine : Type 0 where
  pub cycle_time : ℕ
  pub diagnostics : ScanDiagnostics
  pub cycle_time_tag_id : Option ℕ
  pub last_scan_start : Option ℕ

-- The constructor.
unfoldable pub new_engine : ℕ → TagStore → ScanEngine
new_engine cycle_time s = record {
  cycle_time = cycle_time;
  diagnostics = initial_diagnostics;
  cycle_time_tag_id = find (codes "System.CycleTime") s;
  last_scan_start = none;
}

abbrev pub max : ℕ → ℕ → ℕ
max a b = if ltb a b then b else a

abbrev pub min : ℕ → ℕ → ℕ
min a b = if ltb b a then b else a

-- The elapsed time that runOnce publishes, in milliseconds.
abbrev pub elapsed : ScanEngine → ℕ → ℕ
elapsed e start = elim e.last_scan_start [
  | none ↦ e.cycle_time / 1000
  | some last ↦ (start - last) / 1000
]

unfoldable pub publish_cycle_time : ScanEngine → ℕ → Exec (Unit {0})
publish_cycle_time e start = elim e.cycle_time_tag_id [
  | none ↦ pure tt
  | some id ↦ write id (Value.time (pos (elapsed e start)))
]

-- The end of runOnce, for a scan of this duration.
unfoldable pub housekeeping : ℕ → ℕ → ScanDiagnostics → ScanDiagnostics
housekeeping cycle_time duration d = record d {
  cycle_count = (d.cycle_count + 1) % 2 ^ 64;
  last_cycle_duration = duration;
  max_cycle_duration = max d.max_cycle_duration duration;
  min_cycle_duration = min d.min_cycle_duration duration;
  overrun_count =
      if ltb cycle_time duration then (d.overrun_count + 1) % 2 ^ 64 else d.overrun_count;
}

module _ {W : Type 0} (env : Environment W) where
  -- runOnce, from the time `start` to the time `end`. Where the driver or the program throws, the
  -- housekeeping does not run, and lastScanStart_ is set unless reading the inputs or publishing
  -- the time threw.
  unfoldable pub run_once : ScanEngine → ℕ → ℕ → W → TagStore → (Result W × ScanEngine) × TagStore
  run_once e start end w s =
      let (r1, s1) = (env.read_inputs w >>= λ w1. publish_cycle_time e start >> pure w1) s in
      elim r1 [
        | err x ↦ ((err x, e), s1)
        | ok w1 ↦
            let started = record e { last_scan_start = some start } in
            let (r2, s2) = (env.execute w1 >>= env.write_outputs) s1 in
            elim r2 [
              | err x ↦ ((err x, started), s2)
              | ok w2 ↦ (
                (
                  ok w2,
                  record started {
                    diagnostics = housekeeping e.cycle_time (end - start) e.diagnostics;
                  },
                ),
                s2,
              )
            ]
      ]

-- The jitter part of a round of the loop of run. After a resynchronisation the thread does not sleep, and the
-- jitter is negative.
unfoldable pub record_jitter : ℕ → ℕ → ScanDiagnostics → ScanDiagnostics
record_jitter wake tick d =
    let jitter = sub_ℕ wake tick in
    record d { last_wake_jitter = jitter; max_wake_jitter = max_ℤ d.max_wake_jitter jitter }

-- The schedule part: the next tick, with the clock read twice, and whether the thread sleeps until then.
unfoldable pub reschedule : ℕ → ℕ → ℕ → ℕ → ScanDiagnostics → (ℕ × Bool) × ScanDiagnostics
reschedule cycle_time tick now later d =
    if leb (tick + cycle_time) now
    then ((later + cycle_time, false), record d { resync_count = (d.resync_count + 1) % 2 ^ 64 })
    else ((tick + cycle_time, true), d)
