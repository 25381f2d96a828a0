-- ===== src/Recorder/Coverage.antt =====
-- How much of an incident a freeze covers: observation_coverage_for_freeze of
-- crates/adc-core/src/recorder/coverage.rs. The percentage that f64 division and multiplication
-- give for two counts is a parameter.
pub mod Loop
pub mod Summary
pub mod Expected
pub mod Rows
pub mod Bounds
use agent_debug_compass.Recorder.Coverage.Summary.{
  coverage_summary, is_unusable, coverage_state_for_loss, is_covered, is_missing, is_partial,
  is_unavailable, count,
}
use agent_debug_compass.Prelude.{
  ℕ, suc, String, Bool, true, false, not, ◌&&◌, ◌||◌, Option, none, some, List, [], ◌∷◌, ◌++◌, map,
  length, is_empty, ltb, ◌==◌, sat_add, if◌then◌else◌,
}
use agent_debug_compass.Prelude.Float.{F64}
use agent_debug_compass.Prelude.Text.{format, contains}
use agent_debug_compass.Prelude.Maps.{BTreeMap, get, collect}
use agent_debug_compass.Quality.{DataQuality, medium_quality, push_missing, push_missing_once}
use agent_debug_compass.Recorder.Model.{
  RecorderSignalStatus, RecorderBufferStatus, RecorderBudget, RecorderExpectedSignal,
  CapabilityStatus, requires_privilege, unsafe, supported, TimeRange, CollectorLoss, LossReport,
  RecorderCoverageState, covered, partial, missing, unavailable, not_expected, degraded,
  RecorderCoverageConfidence, medium, budgeted_recorder_interval, RecorderSignalCoverage,
  RecorderCoverageSummary, RecorderObservationCoverage,
}
use Expected.{expected_signal_for_status, expected_samples_for_interval}

pub record CoverageBuildContext : Type 0 where
  pub incident_id : String
  pub window_id : String
  pub target_id : String
  pub time_range : TimeRange

unexported_note : String → String
unfolding format
unexported_note id =
    format (id ∷ " expected by active recorder profile but has no exported samples" ∷ [])

no_entry_note : String → String
unfolding format
no_entry_note id = format ("loss_report has no collector_loss entry for expected signal " ∷ id ∷ [])

-- What the loop does to the quality of a signal, and to that of the whole coverage.
signal_quality_for : RecorderCoverageState → CollectorLoss → RecorderSignalStatus → DataQuality
unfolding is_missing unexported_note
signal_quality_for state loss s =
    let q = s.data_quality in
    let q1 = (if is_missing state then push_missing_once (unexported_note s.signal_id) q else q) in
    let q2 =
      (if ltb 0 loss.truncated_samples_due_to_freeze_budget
        then record q1 { truncated = true }
        else q1) in
    let q3 =
      (if ltb 0 s.dropped_samples
        then record q2 { dropped = true; drop_count = s.dropped_samples }
        else q2) in
    if q.throttled then record q3 { throttled = true } else q3

coverage_quality_after :
    RecorderCoverageState → CollectorLoss → RecorderSignalStatus → DataQuality → DataQuality
unfolding is_missing unexported_note
coverage_quality_after state loss s q =
    let q1 = (if is_missing state then push_missing_once (unexported_note s.signal_id) q else q) in
    let q2 =
      (if ltb 0 loss.truncated_samples_due_to_freeze_budget
        then record q1 { truncated = true }
        else q1) in
    let q3 =
      (if ltb 0 s.dropped_samples
        then record q2 { dropped = true; drop_count = sat_add q2.drop_count s.dropped_samples }
        else q2) in
    if s.data_quality.throttled then record q3 { throttled = true } else q3

loss_reasons_after : RecorderCoverageState → List String → List String
unfolding is_unavailable
loss_reasons_after state reasons =
    if is_unavailable state && not (contains reasons "required_capability_unavailable")
    then reasons ++ "required_capability_unavailable" ∷ []
    else reasons

confidence_for : Option ℕ → RecorderCoverageConfidence
confidence_for none = RecorderCoverageConfidence.unknown
confidence_for (some n) = medium

-- The row of a signal with its loss entry and its expected signal.
unfoldable pub coverage_row :
    TimeRange
    → String
    → RecorderSignalStatus
    → CollectorLoss
    → RecorderExpectedSignal
    → RecorderSignalCoverage
unfolding coverage_state_for_loss signal_quality_for loss_reasons_after confidence_for
    expected_samples_for_interval
coverage_row time_range ref s loss e =
    let state = coverage_state_for_loss loss e.capability_status in
    record {
      signal_id = s.signal_id;
      expected = true;
      coverage_state = state;
      coverage_confidence = confidence_for e.expected_samples;
      configured_interval_ms = e.configured_interval_ms;
      effective_interval_ms = e.effective_interval_ms;
      expected_samples_configured =
          expected_samples_for_interval time_range e.configured_interval_ms;
      expected_samples_budgeted = e.expected_samples;
      expected_samples = e.expected_samples;
      expected_samples_basis = budgeted_recorder_interval;
      retained_samples_before_freeze = loss.retained_samples_before_freeze;
      exported_samples = loss.exported_samples;
      dropped_samples = loss.dropped_samples;
      truncated_samples_due_to_freeze_budget = loss.truncated_samples_due_to_freeze_budget;
      loss_report_ref = ref;
      loss_collector_id = loss.collector_id;
      loss_reasons = loss_reasons_after state loss.loss_reasons;
      capability_status = e.capability_status;
      data_quality = signal_quality_for state loss s;
    }

pub record CoverageLoop : Type 0 where
  pub expected_signals : List RecorderExpectedSignal
  pub signals : List RecorderSignalCoverage
  pub coverage_quality : DataQuality

-- One turn of the loop, with the loss entry that the report has for the signal.
unfoldable pub coverage_step :
    TimeRange
    → String
    → RecorderSignalStatus
    → RecorderExpectedSignal
    → Option CollectorLoss
    → CoverageLoop
    → CoverageLoop
unfolding coverage_row coverage_quality_after coverage_state_for_loss no_entry_note
coverage_step time_range ref s e none l = record l {
  coverage_quality = push_missing (no_entry_note s.signal_id) l.coverage_quality;
}
coverage_step time_range ref s e (some loss) l = record {
  expected_signals = l.expected_signals ++ e ∷ [];
  signals = l.signals ++ coverage_row time_range ref s loss e ∷ [];
  coverage_quality =
      coverage_quality_after (coverage_state_for_loss loss e.capability_status) loss s
        l.coverage_quality;
}

unfoldable pub coverage_loop :
    TimeRange
    → String
    → RecorderBudget
    → BTreeMap RecorderExpectedSignal
    → BTreeMap CollectorLoss
    → List RecorderSignalStatus
    → CoverageLoop
    → CoverageLoop
unfolding coverage_step expected_signal_for_status get
coverage_loop time_range ref budget expected_by loss_by [] l = l
coverage_loop time_range ref budget expected_by loss_by (s ∷ ss) l =
    let e = expected_signal_for_status s time_range budget (get s.signal_id expected_by) in
    coverage_loop time_range ref budget expected_by loss_by ss
      (coverage_step time_range ref s e (get s.signal_id loss_by) l)

pub loss_report_ref_for : String → String
unfolding format
loss_report_ref_for incident_id =
    format ("artifact://recorder/incidents/" ∷ incident_id ∷ "/loss_report.json" ∷ [])

unfoldable pub loss_by_signal : LossReport → BTreeMap CollectorLoss
unfolding collect
loss_by_signal report = collect (map (λ l. (l.collector_id, l)) report.collector_loss)

unfoldable pub expected_by_signal : List RecorderExpectedSignal → BTreeMap RecorderExpectedSignal
unfolding collect
expected_by_signal model = collect (map (λ e. (e.signal_id, e)) model)

module _ (percent : ℕ → ℕ → F64) where
  unfoldable pub observation_coverage_for_freeze :
      CoverageBuildContext
      → RecorderBufferStatus
      → List RecorderExpectedSignal
      → LossReport
      → RecorderBudget
      → RecorderObservationCoverage
  unfolding coverage_loop loss_by_signal expected_by_signal coverage_summary loss_report_ref_for
  observation_coverage_for_freeze context status expected_signal_model loss_report budget =
      let ref = loss_report_ref_for context.incident_id in
      let l =
        coverage_loop context.time_range ref budget (expected_by_signal expected_signal_model)
          (loss_by_signal loss_report) status.signals
          (record { expected_signals = []; signals = []; coverage_quality = medium_quality }) in
      record {
        schema_version = "obs.recorder_observation_coverage.v1";
        target_id = context.target_id;
        incident_id = context.incident_id;
        window_id = context.window_id;
        time_range_mono_ns = context.time_range;
        coverage_scope = "frozen_incident";
        expected_signals = l.expected_signals;
        signals = l.signals;
        summary = coverage_summary percent l.signals;
        loss_report_ref = ref;
        data_quality = l.coverage_quality;
      }
