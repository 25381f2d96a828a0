-- ===== src/Recorder/Resource/Policy.antt =====
-- The power policy and what it disables: crates/adc-core/src/recorder/resource.rs.
use agent_debug_compass.Prelude.{
  ℕ, String, Bool, true, false, not, ◌&&◌, ◌||◌, Option, none, some, List, [], ◌∷◌, ◌++◌, map, ltb,
  ◌==◌, min, max, if◌then◌else◌, ◌=ₛ◌,
}
use agent_debug_compass.Prelude.Text.{format}
use agent_debug_compass.Quality.{DataQuality, medium_quality, push_missing, push_note}
use agent_debug_compass.Recorder.Model.{RecorderBudget}
use agent_debug_compass.Recorder.Resource.Model.{
  RecorderPowerMode, RecorderPowerPolicy, RecorderPowerPolicyMode, RecorderDegradationReason,
  RecorderDegradationAction, RecorderDegradationDecision, battery_normal, battery_low,
  battery_critical, downsample, drop_low_priority_signal, shorten_retention,
}

unfoldable pub policy_mode :
    RecorderPowerMode → ℕ → ℕ → Bool → List String → RecorderPowerPolicyMode
policy_mode mode rate retention low_priority notes = record {
  mode = mode;
  max_samples_per_second = rate;
  max_retention_ms = retention;
  low_priority_signals_enabled = low_priority;
  data_quality = record medium_quality {
    throttled = ltb rate 16 || not low_priority;
    notes = medium_quality.notes ++ notes;
  };
}

unfoldable pub default_recorder_power_policy : RecorderPowerPolicy
unfolding policy_mode
default_recorder_power_policy = record {
  schema_version = "obs.recorder_power_policy.v1";
  policy_id = "default-battery-safe-recorder-policy";
  modes =
      policy_mode RecorderPowerMode.unknown 16 60000 true []
      ∷ policy_mode RecorderPowerMode.ac_power 16 60000 true []
      ∷ policy_mode battery_normal 4 30000 true
          ("battery_normal reduces recorder sampling rate" ∷ [])
      ∷ policy_mode battery_low 1 10000 false
          ("battery_low preserves only high-priority recorder signals" ∷ [])
      ∷ policy_mode battery_critical 1 5000 false
          ("battery_critical keeps minimum recorder evidence only" ∷ [])
      ∷ [];
  data_quality = medium_quality;
}

-- The derived equality of the modes.
abbrev same_mode : RecorderPowerMode → RecorderPowerMode → Bool
same_mode RecorderPowerMode.unknown RecorderPowerMode.unknown = true
same_mode RecorderPowerMode.ac_power RecorderPowerMode.ac_power = true
same_mode battery_normal battery_normal = true
same_mode battery_low battery_low = true
same_mode battery_critical battery_critical = true
same_mode _ _ = false

unfoldable pub find_mode :
    RecorderPowerMode → List RecorderPowerPolicyMode → Option RecorderPowerPolicyMode
find_mode mode [] = none
find_mode mode (p ∷ ps) = if same_mode p.mode mode then some p else find_mode mode ps

-- The derived Debug of the modes.
abbrev debug_text : RecorderPowerMode → String
debug_text RecorderPowerMode.unknown = "Unknown"
debug_text RecorderPowerMode.ac_power = "AcPower"
debug_text battery_normal = "BatteryNormal"
debug_text battery_low = "BatteryLow"
debug_text battery_critical = "BatteryCritical"

pub adjusted_note : RecorderPowerMode → String
unfolding format
adjusted_note mode =
    format
      ("recorder resource policy " ∷ debug_text mode ∷ " adjusted sample/retention budget" ∷ [])

unfoldable pub adjust :
    RecorderBudget → RecorderPowerMode → Option RecorderPowerPolicyMode → RecorderBudget
unfolding adjusted_note
adjust budget mode none = budget
adjust budget mode (some p) =
    let rate = min budget.max_samples_per_second (max p.max_samples_per_second 1) in
    let retention = min budget.max_retention_ms (max p.max_retention_ms 1) in
    let adjusted = record budget { max_samples_per_second = rate; max_retention_ms = retention } in
    if not (rate == budget.max_samples_per_second)
      || (not (retention == budget.max_retention_ms) || not p.low_priority_signals_enabled)
    then record adjusted {
      data_quality =
          push_note (adjusted_note mode) (record budget.data_quality { throttled = true });
    }
    else adjusted

unfoldable pub recorder_budget_for_power_mode : RecorderBudget → RecorderPowerMode → RecorderBudget
unfolding adjust find_mode default_recorder_power_policy
recorder_budget_for_power_mode budget mode =
    adjust budget mode (find_mode mode default_recorder_power_policy.modes)

abbrev pub is_scarce : RecorderPowerMode → Bool
is_scarce battery_low = true
is_scarce battery_critical = true
is_scarce _ = false

unfoldable pub collector_enabled_by_power_mode : String → RecorderPowerMode → Bool
collector_enabled_by_power_mode collector mode =
    if is_scarce mode && ((collector =ₛ "network") || (collector =ₛ "process")) then false else true

unfoldable pub signal_disabled_by_power_mode : String → RecorderPowerMode → Bool
signal_disabled_by_power_mode signal_id mode =
    is_scarce mode && ((signal_id =ₛ "network.counters") || (signal_id =ₛ "process.topN"))

abbrev pub power_mode_label : RecorderPowerMode → String
power_mode_label RecorderPowerMode.unknown = "unknown"
power_mode_label RecorderPowerMode.ac_power = "ac_power"
power_mode_label battery_normal = "battery_normal"
power_mode_label battery_low = "battery_low"
power_mode_label battery_critical = "battery_critical"

unfoldable pub disabled_text : String → RecorderPowerMode → String
unfolding format
disabled_text id mode = format (id ∷ " disabled by " ∷ power_mode_label mode ∷ " policy" ∷ [])

-- The quality that the call leaves.
unfoldable pub annotate_expected_signal_for_power_mode :
    String → RecorderPowerMode → DataQuality → DataQuality
unfolding signal_disabled_by_power_mode disabled_text
annotate_expected_signal_for_power_mode signal_id mode q =
    if signal_disabled_by_power_mode signal_id mode
    then push_note "resource policy disabled a low-priority recorder signal"
        (push_missing (disabled_text signal_id mode) (record q { throttled = true }))
    else q

abbrev pub reason_of : RecorderPowerMode → String
reason_of battery_low = "battery_low_policy"
reason_of battery_critical = "battery_critical_policy"
reason_of _ = "resource_policy"

unfoldable pub resource_policy_loss_reason_for_signal : String → RecorderPowerMode → Option String
unfolding signal_disabled_by_power_mode
resource_policy_loss_reason_for_signal signal_id mode =
    if signal_disabled_by_power_mode signal_id mode then some (reason_of mode) else none

abbrev low_priority_signals : List String
low_priority_signals = "network.counters" ∷ "process.topN" ∷ []

by_policy_text : String → String
unfolding format
by_policy_text id = format (id ∷ " disabled by resource policy" ∷ [])

recorder_degradation_decision :
    String
    → RecorderDegradationReason
    → List RecorderDegradationAction
    → List String
    → RecorderDegradationDecision
unfolding by_policy_text
recorder_degradation_decision id reason actions affected = record {
  schema_version = "obs.recorder_degradation_decision.v1";
  decision_id = id;
  reason = reason;
  actions = actions;
  affected_signals = affected;
  preserved_signals = "adc.self_overhead" ∷ "cpu.summary" ∷ "memory.summary" ∷ [];
  data_quality =
      push_note "resource policy degraded low-priority recorder signals before collection"
        (record medium_quality {
          throttled = true;
          missing = medium_quality.missing ++ map by_policy_text affected;
        });
}

abbrev degradations : List RecorderDegradationAction
degradations = downsample ∷ drop_low_priority_signal ∷ shorten_retention ∷ []

unfoldable pub recorder_degradation_decisions_for_power_mode :
    RecorderPowerMode → List RecorderDegradationDecision
unfolding recorder_degradation_decision
recorder_degradation_decisions_for_power_mode battery_low =
    recorder_degradation_decision "RD-battery-low" RecorderDegradationReason.battery_low
      degradations low_priority_signals
    ∷ []
recorder_degradation_decisions_for_power_mode battery_critical =
    recorder_degradation_decision "RD-battery-critical" RecorderDegradationReason.battery_critical
      degradations low_priority_signals
    ∷ []
recorder_degradation_decisions_for_power_mode _ = []
