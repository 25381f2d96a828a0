-- ===== src/Recorder/Loss.antt =====
-- What a freeze exports and what it reports as lost: crates/adc-core/src/recorder/loss.rs.
-- The JSON writer is a parameter: for a sample, the number of bytes of its line, or the error text.
pub mod Selection
pub mod Errors
pub mod Report
use agent_debug_compass.Prelude.{
  ℕ, ◌+◌, ◌-◌, String, Bool, true, false, not, ◌&&◌, ◌||◌, Option, none, some, List, [], ◌∷◌, ◌++◌,
  length, is_empty, ltb, ◌==◌, sat_add, max, min, if◌then◌else◌,
}
use mathlib.Core.List.{reverse}
use agent_debug_compass.Prelude.Text.{format, show, contains, includes}
use agent_debug_compass.Error.{AdcResult, ok, err, ◌>>=◌}
use agent_debug_compass.Quality.{DataQuality, medium_quality, push_missing, push_note}
use agent_debug_compass.Recorder.Model.{
  RecorderSample, RecorderSignalStatus, RecorderBufferStatus, RecorderBudget, CollectorLoss,
  LossReport,
}
use agent_debug_compass.Recorder.Counts.{count_of, recorded_counts_by_signal}
use agent_debug_compass.Prelude.Maps.{BTreeMap, get}

abbrev pub no_samples_text : String
no_samples_text = "no retained recorder samples were available at freeze time"

abbrev pub push_if : Bool → String → List String → List String
push_if test text reasons = if test then reasons ++ text ∷ [] else reasons

abbrev pub add_low : String → List String → List String
add_low m reasons =
    push_if (includes m "battery_low policy" && not (contains reasons "battery_low_policy"))
      "battery_low_policy" reasons

abbrev pub add_critical : String → List String → List String
add_critical m reasons =
    push_if
      (includes m "battery_critical policy" && not (contains reasons "battery_critical_policy"))
      "battery_critical_policy" reasons

-- The loop over the missing notes of a signal, which looks for the battery policies.
unfoldable pub policy_reasons : List String → List String → List String
policy_reasons [] reasons = reasons
policy_reasons (m ∷ ms) reasons = policy_reasons ms (add_critical m (add_low m reasons))

unfoldable pub loss_reasons_for : RecorderSignalStatus → ℕ → ℕ → List String
unfolding policy_reasons
loss_reasons_for signal exported truncated =
    let missing = signal.data_quality.missing in
    policy_reasons missing (
      push_if (not (is_empty missing)) "expected_signal_missing" (
        push_if (signal.data_quality.truncated || ltb 0 truncated) "freeze_byte_budget_truncated" (
          push_if (exported == 0) "collector_absent_or_no_samples"
            (push_if (ltb 0 signal.dropped_samples) "ring_capacity_drop_oldest" []))))

abbrev pub confidence_of : Option ℕ → String
confidence_of none = "unknown"
confidence_of (some n) = "medium"

abbrev pub collector_loss_for : BTreeMap ℕ → RecorderSignalStatus → CollectorLoss
collector_loss_for exported_by signal =
    let retained = signal.recorded_samples in
    let exported = count_of signal.signal_id exported_by in
    let truncated = retained - exported in
    record {
      collector_id = signal.signal_id;
      expected_samples = signal.expected_samples;
      recorded_samples = exported;
      retained_samples_before_freeze = retained;
      exported_samples = exported;
      truncated_samples_due_to_freeze_budget = truncated;
      dropped_samples = signal.dropped_samples;
      gap_ranges = signal.gap_ranges;
      collectors_degraded = if signal.degraded then signal.signal_id ∷ [] else [];
      loss_reasons = loss_reasons_for signal exported truncated;
      loss_confidence = confidence_of signal.expected_samples;
    }

pub record LossLoop : Type 0 where
  pub collector_loss : List CollectorLoss
  pub total_dropped : ℕ
  pub loss_quality : DataQuality

signal_loss_quality : RecorderSignalStatus → ℕ → DataQuality → DataQuality
signal_loss_quality signal truncated q = record q {
  truncated = if signal.data_quality.truncated || ltb 0 truncated then true else q.truncated;
  missing = q.missing ++ signal.data_quality.missing;
}

loss_step : BTreeMap ℕ → RecorderSignalStatus → LossLoop → LossLoop
unfolding loss_reasons_for signal_loss_quality count_of get
loss_step exported_by signal s =
    let loss = collector_loss_for exported_by signal in
    record {
      collector_loss = s.collector_loss ++ loss ∷ [];
      total_dropped = sat_add s.total_dropped signal.dropped_samples;
      loss_quality =
          signal_loss_quality signal loss.truncated_samples_due_to_freeze_budget s.loss_quality;
    }

loss_loop : BTreeMap ℕ → List RecorderSignalStatus → LossLoop → LossLoop
unfolding loss_step
loss_loop exported_by [] s = s
loss_loop exported_by (signal ∷ signals) s =
    loss_loop exported_by signals (loss_step exported_by signal s)

abbrev report_quality : LossLoop → DataQuality
report_quality s =
    let q =
      (if ltb 0 s.total_dropped
        then push_note "memory ring dropped samples before freeze"
            (record s.loss_quality { dropped = true; drop_count = s.total_dropped })
        else s.loss_quality) in
    if is_empty s.collector_loss then push_missing no_samples_text q else q

unfoldable pub loss_report_for_buffer_with_quality :
    String → RecorderBufferStatus → List RecorderSample → DataQuality → LossReport
unfolding loss_loop recorded_counts_by_signal
loss_report_for_buffer_with_quality window_id status exported_samples loss_quality =
    let s =
      loss_loop (recorded_counts_by_signal exported_samples) status.signals
        (record { collector_loss = []; total_dropped = 0; loss_quality = loss_quality }) in
    record {
      schema_version = "obs.loss_report.v1";
      window_id = window_id;
      collector_loss = s.collector_loss;
      data_quality = report_quality s;
    }

abbrev pub freeze_bytes : RecorderBudget → ℕ
freeze_bytes budget = max (min budget.max_freeze_bytes budget.max_disk_bytes) 1

selection_quality : List RecorderSample → List RecorderSample → RecorderBudget → DataQuality
unfolding format show
selection_quality samples selected budget =
    let q =
      (if ltb (length selected) (length samples)
        then push_note
            (format (
              "freeze samples truncated to max_freeze_bytes="
              ∷ show budget.max_freeze_bytes
              ∷ " and max_disk_bytes="
              ∷ show budget.max_disk_bytes
              ∷ []))
            (record medium_quality { truncated = true })
        else medium_quality) in
    if is_empty samples then push_missing no_samples_text q else q

module _ (line_len : RecorderSample → AdcResult ℕ) where
  -- The loop over the samples from the newest on. The source pushes and reverses at the end; here a
  -- selected sample goes to the front.
  unfoldable pub select_newest :
      ℕ → List RecorderSample → List RecorderSample → ℕ → AdcResult (List RecorderSample)
  select_newest max_bytes [] selected total = ok selected
  select_newest max_bytes (x ∷ older) selected total = do
    len ← line_len x
    let more = select_newest max_bytes older (x ∷ selected) (sat_add total (len + 1))
    if not (is_empty selected) && ltb max_bytes (sat_add total (len + 1))
        then ok selected
        else if is_empty selected && ltb max_bytes (len + 1)
        then ok selected
        else more

  unfoldable pub samples_within_freeze_budget :
      List RecorderSample → RecorderBudget → AdcResult (List RecorderSample × DataQuality)
  unfolding select_newest selection_quality
  samples_within_freeze_budget samples budget = do
    selected ← select_newest (freeze_bytes budget) (reverse samples) [] 0
    ok (selected, selection_quality samples selected budget)
