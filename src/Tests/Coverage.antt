-- ===== src/Tests/Coverage.antt =====
-- Coverage, power policy and budget (crates/adc-core/src/recorder) at concrete inputs.
use agent_debug_compass.Prelude.{
  ℕ, String, ◌≡◌, refl, true, false, not, none, List, [], ◌∷◌, map, All, arith,
}
use agent_debug_compass.Prelude.Float.{F64, one}
use agent_debug_compass.Quality.{medium_quality}
use agent_debug_compass.Recorder.Model.{RecorderSignalStatus, RecorderExpectedSignal}
use agent_debug_compass.Recorder.Ring.Status.{status}
use agent_debug_compass.Recorder.Loss.{loss_report_for_buffer_with_quality, loss_reasons_for}
use agent_debug_compass.Recorder.Coverage.{CoverageBuildContext, observation_coverage_for_freeze}
use agent_debug_compass.Recorder.Coverage.Rows.{IsHonest, coverage-IsHonest}
use agent_debug_compass.Recorder.Coverage.Bounds.{
  AddsUp, coverage_summary-AddsUp, IsBounded, expected_signal-IsBounded,
}
use agent_debug_compass.Recorder.Coverage.Expected.{
  expected_signal_for_status, recorder_expected_signals_for_collectors, signal_id_for_collector,
}
use agent_debug_compass.Recorder.Resource.Model.{battery_low, battery_critical}
use agent_debug_compass.Recorder.Resource.Policy.{
  collector_enabled_by_power_mode, signal_disabled_by_power_mode,
  resource_policy_loss_reason_for_signal, recorder_degradation_decisions_for_power_mode,
  recorder_budget_for_power_mode,
}
use agent_debug_compass.Recorder.Resource.Agreement.{
  names, has_reason, is_reported, annotated, disabled-agrees,
}
use agent_debug_compass.Recorder.Resource.Limits.{IsNarrowed, budget-IsNarrowed}
use agent_debug_compass.Tests.Freeze.{
  budget, ring, sample_at, nine_bytes, frozen_quality, samples_within_freeze_budget_run,
}

abbrev pub no_percent : ℕ → ℕ → F64
no_percent covered expected = one

abbrev context : CoverageBuildContext
context = record {
  incident_id = "INC-1";
  window_id = "W-1";
  target_id = "target";
  time_range = record { start = 1; end = 5000000000 };
}

abbrev model : List RecorderExpectedSignal
model = recorder_expected_signals_for_collectors ("memory" ∷ "cpu" ∷ "cpu" ∷ "gpu" ∷ []) 500

model_run : map (λ e. e.signal_id) model ≡ "cpu.summary" ∷ "memory.summary" ∷ []
unfolding recorder_expected_signals_for_collectors
model_run = refl

coverage-IsHonest_example :
    (map
        (λ c. c.signal_id)
        (observation_coverage_for_freeze no_percent context
          (status ring)
          model
          (loss_report_for_buffer_with_quality "W-1"
            (status ring)
            (sample_at 2 ∷ sample_at 3 ∷ [])
            frozen_quality)
          budget).signals
      ≡ map (λ s. s.signal_id) (status ring).signals)
    × All
        (IsHonest ring (sample_at 2 ∷ sample_at 3 ∷ []))
        (observation_coverage_for_freeze no_percent context
          (status ring)
          model
          (loss_report_for_buffer_with_quality "W-1"
            (status ring)
            (sample_at 2 ∷ sample_at 3 ∷ [])
            frozen_quality)
          budget).signals
coverage-IsHonest_example =
    coverage-IsHonest no_percent context nine_bytes ring model "W-1"
      (sample_at 2 ∷ sample_at 3 ∷ []) frozen_quality budget (omega arith) (omega arith)
      samples_within_freeze_budget_run

coverage_summary-AddsUp_example :
    AddsUp
      (observation_coverage_for_freeze no_percent context
        (status ring)
        model
        (loss_report_for_buffer_with_quality "W-1" (status ring) [] frozen_quality)
        budget).signals
      (observation_coverage_for_freeze no_percent context
        (status ring)
        model
        (loss_report_for_buffer_with_quality "W-1" (status ring) [] frozen_quality)
        budget).summary
coverage_summary-AddsUp_example =
    coverage_summary-AddsUp no_percent context (status ring) model
      (loss_report_for_buffer_with_quality "W-1" (status ring) [] frozen_quality) budget

abbrev network_row : RecorderSignalStatus
network_row = record {
  signal_id = "network.counters";
  configured_interval_ms = 0;
  expected_samples = none;
  recorded_samples = 0;
  dropped_samples = 0;
  gap_ranges = [];
  degraded = false;
  data_quality = medium_quality;
}

expected_signal-IsBounded_example :
    IsBounded
      (record { start = 1; end = 5000000000 })
      budget
      (expected_signal_for_status network_row (record { start = 1; end = 5000000000 }) budget none)
expected_signal-IsBounded_example =
    expected_signal-IsBounded network_row (record { start = 1; end = 5000000000 }) budget none

abbrev later_texts : List String
later_texts = "expected recorder signal network.counters has no retained samples" ∷ []

disabled-agrees_example :
    (collector_enabled_by_power_mode "network" battery_low
      ≡ not (signal_disabled_by_power_mode "network.counters" battery_low))
    × (names (recorder_degradation_decisions_for_power_mode battery_low) "network.counters"
        ≡ signal_disabled_by_power_mode "network.counters" battery_low)
    × (has_reason (resource_policy_loss_reason_for_signal "network.counters" battery_low)
        ≡ signal_disabled_by_power_mode "network.counters" battery_low)
    × (is_reported
          (resource_policy_loss_reason_for_signal "network.counters" battery_low)
          (loss_reasons_for (annotated network_row battery_low medium_quality later_texts) 0 0)
        ≡ true)
unfolding signal_id_for_collector
disabled-agrees_example =
    disabled-agrees network_row battery_low medium_quality later_texts 0 0 "network" refl

signal_disabled_run : signal_disabled_by_power_mode "network.counters" battery_low ≡ true
unfolding signal_disabled_by_power_mode
signal_disabled_run = refl

budget-IsNarrowed_example :
    IsNarrowed battery_critical budget (recorder_budget_for_power_mode budget battery_critical)
    × ((recorder_budget_for_power_mode
          (recorder_budget_for_power_mode budget battery_critical)
          battery_critical).max_samples_per_second
        ≡ (recorder_budget_for_power_mode budget battery_critical).max_samples_per_second)
    × ((recorder_budget_for_power_mode
          (recorder_budget_for_power_mode budget battery_critical)
          battery_critical).max_retention_ms
        ≡ (recorder_budget_for_power_mode budget battery_critical).max_retention_ms)
budget-IsNarrowed_example = budget-IsNarrowed budget battery_critical
