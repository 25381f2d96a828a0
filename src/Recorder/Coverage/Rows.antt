-- ===== src/Recorder/Coverage/Rows.antt =====
-- The coverage of crates/adc-core/src/recorder/coverage.rs for the status and the loss report of one
-- ring, as a freeze builds it.
use agent_debug_compass.Recorder.Coverage.Loop.{
  coverage_loop-signals, All-of_contains, map-map, row_with,
}
use agent_debug_compass.Prelude.{
  ℕ, ◌+◌, ◌<◌, ◌≡◌, ◌≢◌, ◌↔◌, sym, ap, ◌∙◌, String, Bool, true, false, ◌&&◌, ◌||◌, ◌==◌,
  if◌then◌else◌, none, some, List, [], ◌∷◌, map, All, arith, u64_modulus, u64_max, ltb,
}
use agent_debug_compass.Prelude.Float.{F64}
use agent_debug_compass.Prelude.Text.{contains}
use agent_debug_compass.Prelude.Maps.{BTreeMap, contains_key, get, collect, get-collect}
use agent_debug_compass.Quality.{DataQuality, medium_quality}
use agent_debug_compass.Recorder.Model.{
  RecorderSample, RecorderSignalStatus, RecorderExpectedSignal, RecorderBudget, CollectorLoss,
  LossReport, TimeRange, RecorderSignalCoverage, CapabilityStatus,
}
use agent_debug_compass.Recorder.Counts.{
  count_of, recorded_counts_by_signal, occurrences, signal_count,
}
use agent_debug_compass.Recorder.Ring.{RecorderRing}
use agent_debug_compass.Recorder.Ring.Status.{signal_ids, status, expected_but_absent}
use agent_debug_compass.Recorder.Ring.Status.Rows.{row, All-map, signals-status, row-IsTrue}
use agent_debug_compass.Recorder.Loss.{
  collector_loss_for, loss_report_for_buffer_with_quality, freeze_bytes,
  samples_within_freeze_budget,
}
use agent_debug_compass.Recorder.Loss.Report.{IsExact, losses-report, loss-IsExact}
use mathlib.Core.List.{reverse}
use agent_debug_compass.Error.{AdcResult, ok}
use agent_debug_compass.Recorder.Loss.Selection.{samples_within_freeze_budget-Exported}
use agent_debug_compass.Recorder.Coverage.{
  CoverageBuildContext, CoverageLoop, coverage_row, coverage_loop, loss_by_signal,
  loss_report_ref_for, expected_by_signal, observation_coverage_for_freeze,
}
use agent_debug_compass.Recorder.Coverage.Summary.{is_covered, is_unusable, coverage_state_for_loss}
use agent_debug_compass.Recorder.Coverage.Expected.{expected_signal_for_status}

module _ (percent : ℕ → ℕ → F64) (context : CoverageBuildContext) (r : RecorderRing)
    (model : List RecorderExpectedSignal) (window : String) (exported : List RecorderSample)
    (q : DataQuality) (budget : RecorderBudget) where
  abbrev report : LossReport
  report = loss_report_for_buffer_with_quality window (status r) exported q

  abbrev status_row : String → RecorderSignalStatus
  status_row id = row r (recorded_counts_by_signal r.samples) id

  abbrev loss_of : String → CollectorLoss
  loss_of id = collector_loss_for (recorded_counts_by_signal exported) (status_row id)

  abbrev coverage_of : String → RecorderSignalCoverage
  coverage_of id =
      row_with context.time_range (loss_report_ref_for context.incident_id) budget
        (expected_by_signal model) (status_row id) (loss_of id)

  losses : report.collector_loss ≡ map loss_of (signal_ids r)
  losses =
      losses-report window (status r) exported q
      ∙ ap (map (collector_loss_for (recorded_counts_by_signal exported))) (signals-status r)
      ∙ map-map (collector_loss_for (recorded_counts_by_signal exported)) status_row (signal_ids r)

  abbrev entry_of : CollectorLoss → String × CollectorLoss
  entry_of l = (l.collector_id, l)

  entry :
      (id : String)
      → contains (signal_ids r) id ≡ true
      → get id (loss_by_signal report) ≡ some (loss_of id)
  unfolding loss_by_signal
  entry id h =
      ap (λ ls. get id (collect (map entry_of ls))) losses
      ∙ ap (λ es. get id (collect es)) (map-map entry_of loss_of (signal_ids r))
      ∙ get-collect loss_of (signal_ids r) id
      ∙ ap (λ b. if b then some (loss_of id) else none) h

  abbrev start : CoverageLoop
  start = record { expected_signals = []; signals = []; coverage_quality = medium_quality }

  pub signals-coverage :
      (observation_coverage_for_freeze percent context (status r) model report budget).signals
      ≡ map coverage_of (signal_ids r)
  unfolding observation_coverage_for_freeze
  signals-coverage =
      let range = context.time_range in
      let ref = loss_report_ref_for context.incident_id in
      let expected_by = expected_by_signal model in
      let loss_by = loss_by_signal report in
      ap (λ ss. (coverage_loop range ref budget expected_by loss_by ss start).signals)
        (signals-status r)
      ∙ coverage_loop-signals range ref budget expected_by loss_by status_row loss_of (signal_ids r)
          start (All-of_contains _ (signal_ids r) entry)

  -- The rows are those of the status, in the same order.
  coverage_complete :
      map
        (λ c. c.signal_id)
        (observation_coverage_for_freeze percent context (status r) model report budget).signals
      ≡ map (λ s. s.signal_id) (status r).signals
  unfolding coverage_row
  coverage_complete =
      ap (map (λ c. c.signal_id)) signals-coverage
      ∙ map-map (λ c. c.signal_id) coverage_of (signal_ids r)
      ∙ sym (
          ap (map (λ s. s.signal_id)) (signals-status r)
          ∙ map-map (λ s. s.signal_id) status_row (signal_ids r))

-- What a row of the coverage says of the ring that was frozen and of the samples exported from it.
pub record IsHonest (r : RecorderRing) (exported : List RecorderSample) (c : RecorderSignalCoverage)
    : Type 0 where
  pub exports : c.exported_samples ≡ occurrences c.signal_id exported
  pub adds_up :
      c.exported_samples + c.truncated_samples_due_to_freeze_budget
      ≡ occurrences c.signal_id r.samples
  pub drops : c.dropped_samples ≡ count_of c.signal_id r.dropped_by_signal
  pub covers : (is_covered c.coverage_state ≡ true) ↔ (
      (is_unusable c.capability_status ≡ false)
      × (occurrences c.signal_id exported ≢ 0)
      × (occurrences c.signal_id exported ≡ occurrences c.signal_id r.samples)
      × (count_of c.signal_id r.dropped_by_signal ≡ 0))

-- The state of a loss entry whose signal is degraded only where samples were dropped or absent.
state-covered :
    (l : CollectorLoss) (cap : CapabilityStatus) (absent : Bool)
    → l.collectors_degraded ≡ (
        if ltb 0 l.dropped_samples || (absent && (l.retained_samples_before_freeze == 0))
        then l.collector_id ∷ []
        else [])
    → l.exported_samples + l.truncated_samples_due_to_freeze_budget
      ≡ l.retained_samples_before_freeze
    → (is_covered (coverage_state_for_loss l cap) ≡ true) ↔ (
        (is_unusable cap ≡ false)
        × (l.exported_samples ≢ 0)
        × (l.exported_samples ≡ l.retained_samples_before_freeze)
        × (l.dropped_samples ≡ 0))
unfolding coverage_state_for_loss is_covered
state-covered l cap absent h k = ground arith

row_with-IsHonest :
    (r : RecorderRing) (exported : List RecorderSample) (range : TimeRange) (ref : String)
    (budget : RecorderBudget) (expected_by : BTreeMap RecorderExpectedSignal)
    (s : RecorderSignalStatus) (absent : Bool)
    → s.degraded ≡ (ltb 0 s.dropped_samples || (absent && (s.recorded_samples == 0)))
    → IsExact r exported (collector_loss_for (recorded_counts_by_signal exported) s)
    → IsHonest r exported (
        row_with range ref budget expected_by s
          (collector_loss_for (recorded_counts_by_signal exported) s))
unfolding coverage_row
row_with-IsHonest r exported range ref budget expected_by s absent d x =
    let e = expected_signal_for_status s range budget (get s.signal_id expected_by) in
    let l = collector_loss_for (recorded_counts_by_signal exported) s in
    record {
      exports = x.exports;
      adds_up = x.truncated ∙ x.retained;
      drops = x.dropped;
      covers =
          rw (sym x.exports, sym x.retained, sym x.dropped)
            (state-covered l e.capability_status absent
              (ap (λ b. if b then s.signal_id ∷ [] else []) d) x.truncated);
    }

-- When the selection succeeds, with a byte budget below 2^64 - 1 and fewer than 2^64 signal samples
-- retained, the coverage of a freeze has one row for each signal of the ring's status, in the same
-- order, and every row tells the truth: its exported samples are those of the exported list, with
-- the truncated ones they add up to the retained ones, and it is covered exactly when its capability
-- is usable, samples were exported, none was truncated and none dropped.
pub coverage-IsHonest :
    (percent : ℕ → ℕ → F64) (context : CoverageBuildContext)
    (line_len : RecorderSample → AdcResult ℕ) (r : RecorderRing)
    (model : List RecorderExpectedSignal) (window : String) (exported : List RecorderSample)
    (q : DataQuality) (budget : RecorderBudget)
    → signal_count r.samples < u64_modulus
    → freeze_bytes budget < u64_max
    → samples_within_freeze_budget line_len r.samples budget ≡ ok (exported, q)
    → (map
          (λ c. c.signal_id)
          (observation_coverage_for_freeze percent context
            (status r)
            model
            (loss_report_for_buffer_with_quality window (status r) exported q)
            budget).signals
        ≡ map (λ s. s.signal_id) (status r).signals)
      × All
          (IsHonest r exported)
          (observation_coverage_for_freeze percent context
            (status r)
            model
            (loss_report_for_buffer_with_quality window (status r) exported q)
            budget).signals
unfolding expected_but_absent
coverage-IsHonest percent context line_len r model window exported q budget few m e =
    let x = samples_within_freeze_budget-Exported line_len r.samples exported q budget m e in
    (
      coverage_complete percent context r model window exported q budget,
      rw (signals-coverage percent context r model window exported q budget) (
          All-map (IsHonest r exported)
            (coverage_of percent context r model window exported q budget) (signal_ids r)
            (λ id.
              row_with-IsHonest r exported _ _ _ _ (row r (recorded_counts_by_signal r.samples) id)
                (contains_key id r.expected_signals && (count_of id r.dropped_by_signal == 0))
                (ground arith)
                (loss-IsExact r (reverse x.left_out) exported x.split few
                  (row r (recorded_counts_by_signal r.samples) id) (row-IsTrue r id few)))),
    )
