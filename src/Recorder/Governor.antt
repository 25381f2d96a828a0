-- ===== src/Recorder/Governor.antt =====
-- The two governors of crates/adc-core/src/recorder/ring.rs, which thin out samples and status
-- writes. Times are u64 nanoseconds; `saturating_sub` is the native `-`.
pub mod Spacing
pub mod StatusWrites
use agent_debug_compass.Prelude.{
  ℕ, ◌-◌, ◌*◌, ◌/◌, Bool, true, false, Option, none, some, List, [], ◌∷◌, ltb, ◌==◌, max, u64_max,
  sat_mul, if◌then◌else◌,
}

pub record RecorderSampleRateGovernor : Type 0 where
  pub min_interval_ns : ℕ
  pub last_sample_mono_ns : Option ℕ

unfoldable pub new_sample_governor : ℕ → RecorderSampleRateGovernor
new_sample_governor max_samples_per_second = record {
  min_interval_ns =
      max (if max_samples_per_second == 0 then u64_max else 1000000000 / max_samples_per_second) 1;
  last_sample_mono_ns = none;
}

abbrev record_after : Option ℕ → ℕ → RecorderSampleRateGovernor → RecorderSampleRateGovernor × Bool
record_after none now g = (record g { last_sample_mono_ns = some now }, true)
record_after (some last) now g =
    if ltb (now - last) g.min_interval_ns
    then (g, false)
    else (record g { last_sample_mono_ns = some now }, true)

unfoldable pub should_record : RecorderSampleRateGovernor → ℕ → RecorderSampleRateGovernor × Bool
should_record g now = record_after g.last_sample_mono_ns now g

pub record RecorderStatusWriteGovernor : Type 0 where
  pub interval_ns : ℕ
  pub last_write_mono_ns : Option ℕ

unfoldable pub new_status_governor : ℕ → RecorderStatusWriteGovernor
new_status_governor max_status_write_interval_ms = record {
  interval_ns = sat_mul (max max_status_write_interval_ms 1) 1000000;
  last_write_mono_ns = none;
}

abbrev write_after : Option ℕ → ℕ → RecorderStatusWriteGovernor → RecorderStatusWriteGovernor × Bool
write_after none now g = (record g { last_write_mono_ns = some now }, true)
write_after (some last) now g =
    if ltb (now - last) g.interval_ns
    then (g, false)
    else (record g { last_write_mono_ns = some now }, true)

unfoldable pub should_write :
    RecorderStatusWriteGovernor → ℕ → Bool → RecorderStatusWriteGovernor × Bool
should_write g now force =
    if force
    then (record g { last_write_mono_ns = some now }, true)
    else write_after g.last_write_mono_ns now g

-- The times at which a run of calls says yes.
unfoldable pub accepted : RecorderSampleRateGovernor → List ℕ → List ℕ
unfolding should_record
accepted g [] = []
accepted g (now ∷ later) =
    let (g', yes_now) = should_record g now in
    let rest = accepted g' later in if yes_now then now ∷ rest else rest

-- The status writes of a run of calls, each with its time and whether it was forced.
unfoldable pub writes : RecorderStatusWriteGovernor → List (ℕ × Bool) → List (ℕ × Bool)
unfolding should_write
writes g [] = []
writes g ((now, force) ∷ later) =
    let (g', yes_now) = should_write g now force in
    let rest = writes g' later in if yes_now then (now, force) ∷ rest else rest
