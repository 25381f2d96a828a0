-- ===== src/Tests/Recorder.antt =====
-- The ring and the governors of crates/adc-core/src/recorder/ring.rs at concrete inputs.
use agent_debug_compass.Prelude.{
  ℕ, ◌+◌, ◌≤◌, ◌<◌, ◌≡◌, refl, Bool, true, false, none, some, List, [], ◌∷◌, map, length, All,
  arith,
}
use agent_debug_compass.Prelude.Float.{one}
use agent_debug_compass.Prelude.Text.{contains}
use agent_debug_compass.Prelude.Maps.{get}
use agent_debug_compass.Recorder.Model.{RecorderSample, RecorderSignalSample}
use agent_debug_compass.Recorder.Counts.{occurrences, count_of}
use agent_debug_compass.Recorder.Ring.{
  RecorderRing, with_expected_signal_model, push, push_all, cutoff_for,
}
use agent_debug_compass.Recorder.Ring.Window.{newest, unexpired, push-window}
use agent_debug_compass.Recorder.Ring.Bounds.{IsBounded, push_all-IsBounded, push-within_retention}
use agent_debug_compass.Recorder.Ring.Accounting.{seen, push_all-seen}
use agent_debug_compass.Recorder.Ring.Status.{status}
use agent_debug_compass.Recorder.Ring.Status.Rows.{
  Accounts, IsTrue, status-Accounts, status-reports_all, status-IsTrue,
}
use agent_debug_compass.Recorder.Governor.{
  RecorderSampleRateGovernor, new_sample_governor, new_status_governor, accepted, writes,
}
use agent_debug_compass.Recorder.Governor.Spacing.{
  SpacedFrom, every, accepted-spaced, accepted-le-rate, accepted-exceeds_rate,
}
use agent_debug_compass.Recorder.Governor.StatusWrites.{WritesSpacedFrom, forced, writes_throttled}

abbrev cpu : RecorderSignalSample
cpu = record { signal_id = "cpu.summary"; value = one }

abbrev memory : RecorderSignalSample
memory = record { signal_id = "memory.summary"; value = one }

abbrev cpu_at : ℕ → RecorderSample
cpu_at t = record { time_mono_ns = t; signals = cpu ∷ [] }

abbrev both_at : ℕ → RecorderSample
both_at t = record { time_mono_ns = t; signals = cpu ∷ memory ∷ [] }

-- Two samples in a ring for two, with a retention of one millisecond.
abbrev full_ring : RecorderRing
full_ring = record {
  target_id = "target";
  capacity = 2;
  retention_ms = 1;
  samples = both_at 10 ∷ cpu_at 20 ∷ [];
  dropped_by_signal = [];
  expected_signals = [];
  throttled_sample_count = 0;
  throttle_notes = [];
}

push_run : (push full_ring (cpu_at 1000015)).samples ≡ cpu_at 20 ∷ cpu_at 1000015 ∷ []
unfolding push
push_run = refl

push-window_example :
    (push full_ring (cpu_at 1000025)).samples
    ≡ unexpired (cutoff_for 1000025 1) (newest 2 (both_at 10 ∷ cpu_at 20 ∷ cpu_at 1000025 ∷ []))
push-window_example = push-window full_ring (cpu_at 1000025) (omega arith)

full_ring-IsBounded : IsBounded full_ring
full_ring-IsBounded = record { room = omega arith; within = omega arith }

push_all-IsBounded_example : IsBounded (push_all full_ring (cpu_at 30 ∷ both_at 40 ∷ []))
push_all-IsBounded_example =
    push_all-IsBounded full_ring (cpu_at 30 ∷ both_at 40 ∷ []) full_ring-IsBounded

push-within_retention_example :
    All (λ y. cutoff_for 1000025 1 ≤ y.time_mono_ns) (push full_ring (cpu_at 1000025)).samples
push-within_retention_example =
    push-within_retention full_ring (cpu_at 1000025) (omega arith) (omega arith)

push_all-seen_example :
    seen "cpu.summary" (push_all full_ring (cpu_at 30 ∷ both_at 40 ∷ []))
    ≡ seen "cpu.summary" full_ring + occurrences "cpu.summary" (cpu_at 30 ∷ both_at 40 ∷ [])
unfolding count_of get
push_all-seen_example =
    push_all-seen "cpu.summary" full_ring (cpu_at 30 ∷ both_at 40 ∷ []) (omega arith)

abbrev pushed : List RecorderSample
pushed = both_at 10 ∷ cpu_at 20 ∷ both_at 30 ∷ []

status-Accounts_example :
    All
      (Accounts pushed)
      (status (push_all (with_expected_signal_model "target" 2 1 []) pushed)).signals
status-Accounts_example = status-Accounts "target" 2 1 [] pushed (omega arith)

status-reports_all_example :
    contains
      (map
        (λ s. s.signal_id)
        (status (push_all (with_expected_signal_model "target" 1 1 []) pushed)).signals)
      "memory.summary"
    ≡ true
status-reports_all_example =
    status-reports_all "target" 1 1 [] pushed (omega arith) "memory.summary" (omega arith)

status-IsTrue_example : All (IsTrue full_ring) (status full_ring).signals
status-IsTrue_example = status-IsTrue full_ring (omega arith)

abbrev ten_per_second : RecorderSampleRateGovernor
ten_per_second = record { min_interval_ns = 100000000; last_sample_mono_ns = some 50 }

accepted-spaced_example :
    SpacedFrom 100000000 (some 50) (accepted ten_per_second (60 ∷ 100000050 ∷ 20 ∷ 300000000 ∷ []))
accepted-spaced_example =
    accepted-spaced ten_per_second (60 ∷ 100000050 ∷ 20 ∷ 300000000 ∷ []) (omega arith)

accepted_run :
    accepted ten_per_second (60 ∷ 100000050 ∷ 20 ∷ 300000000 ∷ []) ≡ 100000050 ∷ 300000000 ∷ []
unfolding accepted
accepted_run = refl

accepted-le-rate_example :
    length (
      accepted
        (record (new_sample_governor 2) { last_sample_mono_ns = some 7 })
        (500000010 ∷ 700000000 ∷ 1000000020 ∷ []))
    ≤ 2
accepted-le-rate_example =
    accepted-le-rate 2 500000000 (some 7) (500000010 ∷ 700000000 ∷ 1000000020 ∷ []) (omega arith)
      (omega arith) (omega arith) (omega arith)

accepted-exceeds_rate_example :
    (length (accepted (new_sample_governor 3) (every (new_sample_governor 3).min_interval_ns 0 4))
      ≡ 4)
    × All (λ t. t < 1000000000) (every (new_sample_governor 3).min_interval_ns 0 4)
accepted-exceeds_rate_example = accepted-exceeds_rate 3 (omega arith) (omega arith) (omega arith)

abbrev write_calls : List (ℕ × Bool)
write_calls = (5, false) ∷ (6, true) ∷ (7, false) ∷ []

writes_throttled_example :
    (forced (writes (new_status_governor 5000) write_calls) ≡ forced write_calls)
    × WritesSpacedFrom
        (new_status_governor 5000).interval_ns
        none
        (writes (new_status_governor 5000) write_calls)
    × (1000000 ≤ (new_status_governor 5000).interval_ns)
writes_throttled_example = writes_throttled 5000 write_calls
