-- ===== src/Recorder/Coverage/Expected.antt =====
-- The signals a recorder is expected to sample and how often:
-- recorder_expected_signal_for_id, recorder_expected_signals_for_collectors and the helpers of
-- expected_signal_for_status in crates/adc-core/src/recorder/coverage.rs.
use Prim.Native.Nat.{Ordering}
use Prim.Native.String.{compare, find, slice}
use agent_debug_compass.Prelude.{
  ℕ, ◌+◌, ◌-◌, ◌/◌, ◌%◌, String, Bool, true, false, ◌||◌, Option, none, some, List, [], ◌∷◌, ◌++◌,
  ◌==◌, sat_add, max, if◌then◌else◌, ◌=ₛ◌,
}
use agent_debug_compass.Prelude.Text.{format, show}
use agent_debug_compass.Quality.{DataQuality, medium_quality, push_missing, push_note}
use agent_debug_compass.Recorder.Model.{
  RecorderBudget, RecorderSignalStatus, RecorderExpectedSignal, RecorderLayer, app, os, kernel,
  hardware, network, CapabilityStatus, TimeRange,
}

pub record Metadata : Type 0 where
  pub collector_id : String
  pub layer : RecorderLayer
  pub capability : Option String

abbrev metadata : String → RecorderLayer → Option String → Metadata
metadata c l p = record { collector_id = c; layer = l; capability = p }

-- `other.split('.').next()`: the text before the first dot.
abbrev before_dot : String → String
before_dot s = slice s 0 (find s ".")

unfoldable pub expected_signal_metadata : String → Metadata
expected_signal_metadata id =
    if id =ₛ "cpu.summary"
    then metadata "cpu" os (some "linux.procfs.cpu")
    else if id =ₛ "memory.summary"
    then metadata "memory" os (some "linux.procfs.meminfo")
    else if id =ₛ "network.counters"
    then metadata "network" network (some "linux.procfs.net_dev")
    else if id =ₛ "kmsg.cursor"
    then metadata "kmsg" kernel (some "linux.kmsg_or_fixture")
    else if id =ₛ "app_log.cursor"
    then metadata "app_log" app (some "linux.regular_file_log")
    else if id =ₛ "thermal.zone"
    then metadata "thermal" hardware (some "linux.sysfs.thermal_zone")
    else if id =ₛ "cpufreq.summary"
    then metadata "cpufreq" hardware (some "linux.sysfs.cpufreq")
    else if id =ₛ "process.topN"
    then metadata "process" os (some "linux.procfs.process")
    else metadata (before_dot id) RecorderLayer.unknown none

unfoldable pub recorder_expected_signal_for_id : String → ℕ → RecorderExpectedSignal
unfolding expected_signal_metadata
recorder_expected_signal_for_id signal_id configured_interval_ms =
    let known = expected_signal_metadata signal_id in
    record {
      schema_version = "obs.recorder_expected_signal.v1";
      signal_id = signal_id;
      collector_id = known.collector_id;
      layer = known.layer;
      configured_interval_ms = max configured_interval_ms 1;
      effective_interval_ms = max configured_interval_ms 1;
      required_capability = known.capability;
      capability_status = CapabilityStatus.unknown;
      required_privilege = "none";
      cost_tier = "always_on_low";
      priority = "medium";
      expected_samples = none;
      expected = true;
      expectation_source = "profile.always_on.collectors";
      data_quality = medium_quality;
    }

unfoldable pub signal_id_for_collector : String → Option String
signal_id_for_collector collector =
    if collector =ₛ "cpu"
    then some "cpu.summary"
    else if collector =ₛ "memory"
    then some "memory.summary"
    else if collector =ₛ "network"
    then some "network.counters"
    else if collector =ₛ "kmsg"
    then some "kmsg.cursor"
    else if collector =ₛ "app_log"
    then some "app_log.cursor"
    else if collector =ₛ "thermal"
    then some "thermal.zone"
    else if collector =ₛ "cpufreq"
    then some "cpufreq.summary"
    else if collector =ₛ "process"
    then some "process.topN"
    else none

abbrev push_known : Option String → ℕ → List RecorderExpectedSignal → List RecorderExpectedSignal
push_known none interval rest = rest
push_known (some id) interval rest = recorder_expected_signal_for_id id interval ∷ rest

-- The loop over the collectors.
unfoldable pub known_signals : List String → ℕ → List RecorderExpectedSignal
unfolding signal_id_for_collector recorder_expected_signal_for_id
known_signals [] interval = []
known_signals (c ∷ cs) interval =
    push_known (signal_id_for_collector c) interval (known_signals cs interval)

abbrev is_before : Ordering → Bool
is_before Ordering.gt = false
is_before _ = true

unfoldable pub insert_by_id :
    RecorderExpectedSignal → List RecorderExpectedSignal → List RecorderExpectedSignal
insert_by_id x [] = x ∷ []
insert_by_id x (y ∷ ys) =
    let rest = insert_by_id x ys in
    if is_before (compare x.signal_id y.signal_id) then x ∷ y ∷ ys else y ∷ rest

-- `signals.sort_by(|left, right| left.signal_id.cmp(&right.signal_id))`, which is stable.
unfoldable pub sort_by_id : List RecorderExpectedSignal → List RecorderExpectedSignal
unfolding insert_by_id
sort_by_id [] = []
sort_by_id (x ∷ xs) = insert_by_id x (sort_by_id xs)

unfoldable pub skip_same :
    RecorderExpectedSignal → List RecorderExpectedSignal → List RecorderExpectedSignal
skip_same x [] = []
skip_same x (y ∷ ys) = if x.signal_id =ₛ y.signal_id then skip_same x ys else y ∷ skip_same y ys

-- `signals.dedup_by(|left, right| left.signal_id == right.signal_id)`
unfoldable pub dedup_by_id : List RecorderExpectedSignal → List RecorderExpectedSignal
unfolding skip_same
dedup_by_id [] = []
dedup_by_id (x ∷ xs) = x ∷ skip_same x xs

unfoldable pub recorder_expected_signals_for_collectors :
    List String → ℕ → List RecorderExpectedSignal
unfolding known_signals sort_by_id dedup_by_id
recorder_expected_signals_for_collectors collectors interval =
    dedup_by_id (sort_by_id (known_signals collectors interval))

-- u64::div_ceil
abbrev pub div_ceil : ℕ → ℕ → ℕ
div_ceil a b = if a % b == 0 then a / b else a / b + 1

unfoldable pub effective_recorder_interval_ms : ℕ → ℕ
effective_recorder_interval_ms max_samples_per_second =
    if max_samples_per_second == 0 then 1000 else max (div_ceil 1000 max_samples_per_second) 1

unfoldable pub expected_samples_for_interval : TimeRange → ℕ → Option ℕ
expected_samples_for_interval time_range interval_ms =
    if interval_ms == 0
    then none
    else some (sat_add ((time_range.end - time_range.start) / 1000000 / interval_ms) 1)

unfoldable pub merge_data_quality : DataQuality → DataQuality → DataQuality
merge_data_quality left right = record left {
  dropped = left.dropped || right.dropped;
  drop_count = sat_add left.drop_count right.drop_count;
  throttled = left.throttled || right.throttled;
  truncated = left.truncated || right.truncated;
  missing = left.missing ++ right.missing;
  notes = left.notes ++ right.notes;
}

rate_note : RecorderBudget → String
unfolding format show
rate_note budget = format (
    "effective_interval_ms uses recorder sample-rate budget max_samples_per_second="
    ∷ show budget.max_samples_per_second
    ∷ [])

abbrev underived : Option ℕ → DataQuality → DataQuality
underived none q = push_missing "expected sample count could not be derived" q
underived (some n) q = q

unfoldable pub model_or_default : Option RecorderExpectedSignal → String → RecorderExpectedSignal
unfolding recorder_expected_signal_for_id
model_or_default none id = recorder_expected_signal_for_id id 1000
model_or_default (some e) id = e

unfoldable pub configured_of : Option RecorderExpectedSignal → RecorderSignalStatus → ℕ
configured_of none s = max s.configured_interval_ms 1
configured_of (some e) s = max e.configured_interval_ms 1

unfoldable pub model_effective_of : Option RecorderExpectedSignal → ℕ → ℕ
model_effective_of none configured = max configured 1
model_effective_of (some e) configured = max e.effective_interval_ms 1

unfoldable pub effective_of :
    Option RecorderExpectedSignal → RecorderSignalStatus → RecorderBudget → ℕ
unfolding configured_of model_effective_of effective_recorder_interval_ms
effective_of model s budget =
    let configured = configured_of model s in
    max (max configured (model_effective_of model configured))
      (effective_recorder_interval_ms budget.max_samples_per_second)

unfoldable pub expected_signal_for_status :
    RecorderSignalStatus
    → TimeRange
    → RecorderBudget
    → Option RecorderExpectedSignal
    → RecorderExpectedSignal
unfolding model_or_default configured_of effective_of expected_samples_for_interval
    merge_data_quality rate_note
expected_signal_for_status s time_range budget model =
    let base = model_or_default model s.signal_id in
    let effective = effective_of model s budget in
    let samples = expected_samples_for_interval time_range effective in
    record base {
      configured_interval_ms = configured_of model s;
      effective_interval_ms = effective;
      expected_samples = samples;
      data_quality =
          underived samples
            (push_note (rate_note budget) (merge_data_quality base.data_quality s.data_quality));
    }
