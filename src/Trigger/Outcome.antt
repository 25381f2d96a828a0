-- ===== src/Trigger/Outcome.antt =====
-- trigger_decision of crates/adc-core/src/trigger.rs, and the reasons and ids that it is given.
use agent_debug_compass.Prelude.{String, false, Option, none, some, [], ◌∷◌, if◌then◌else◌, ◌=ₛ◌}
use agent_debug_compass.Prelude.Float.{F64}
use agent_debug_compass.Prelude.Text.{format}
use agent_debug_compass.Quality.{DataQuality}
use agent_debug_compass.Recorder.Model.{RecorderCoverageState, RecorderCoverageConfidence}
use agent_debug_compass.Trigger.Model.{
  TriggerRule, TriggerKind, TriggerDecision, TriggerDecisionOutcome, TriggerDecisionReason,
  TriggerBudgetDecision, threshold_crossed, threshold_not_crossed, delta_crossed, delta_not_crossed,
  burst_count_crossed, burst_count_not_crossed,
}
use agent_debug_compass.Trigger.Rules.{trigger_kind_for_rule}

unfoldable pub coverage_signal_id_for_trigger_signal : String → String
coverage_signal_id_for_trigger_signal signal =
    if signal =ₛ "cpu.total_percent"
    then "cpu.summary"
    else if signal =ₛ "memory.available_percent"
    then "memory.summary"
    else if signal =ₛ "memory.available_delta_kb"
    then "memory.summary"
    else if signal =ₛ "network.total_delta_bytes"
    then "network.counters"
    else if signal =ₛ "kmsg.message"
    then "kmsg.cursor"
    else if signal =ₛ "kmsg"
    then "kmsg.cursor"
    else signal

unfoldable pub fired_reason : TriggerKind → TriggerDecisionReason
fired_reason TriggerKind.threshold = threshold_crossed
fired_reason TriggerKind.delta = delta_crossed
fired_reason TriggerKind.burst_count = burst_count_crossed

unfoldable pub not_fired_reason : TriggerKind → TriggerDecisionReason
not_fired_reason TriggerKind.threshold = threshold_not_crossed
not_fired_reason TriggerKind.delta = delta_not_crossed
not_fired_reason TriggerKind.burst_count = burst_count_not_crossed

-- What the three functions gather before they decide.
pub record TriggerDecisionInput : Type 0 where
  pub policy_id : String
  pub rule : TriggerRule
  pub signal_id : String
  pub coverage_signal_id : String
  pub observed_value : Option F64
  pub coverage_state : RecorderCoverageState
  pub coverage_confidence : RecorderCoverageConfidence
  pub coverage_ref : Option String
  pub incident_id : Option String
  pub decision : TriggerDecisionOutcome
  pub decision_reason : TriggerDecisionReason
  pub budget_decision : TriggerBudgetDecision
  pub data_quality : DataQuality

unfoldable pub event_ref : Option String → Option String
unfolding format
event_ref none = none
event_ref (some incident_id) =
    some (format ("artifact://recorder/incidents/" ∷ incident_id ∷ "/trigger_event.json" ∷ []))

unfoldable pub trigger_decision : TriggerDecisionInput → TriggerDecision
unfolding trigger_kind_for_rule format event_ref
trigger_decision input = record {
  schema_version = "obs.trigger_decision.v1";
  decision_id = format ("TD-" ∷ input.policy_id ∷ "-" ∷ input.rule.name ∷ []);
  policy_id = input.policy_id;
  rule_id = format (input.rule.name ∷ "_v1" ∷ []);
  trigger_name = input.rule.name;
  trigger_kind = trigger_kind_for_rule input.rule;
  decision = input.decision;
  decision_reason = input.decision_reason;
  signal_id = input.signal_id;
  coverage_signal_id = input.coverage_signal_id;
  observed_value = input.observed_value;
  threshold = input.rule.value;
  coverage_state = input.coverage_state;
  coverage_confidence = input.coverage_confidence;
  coverage_ref = input.coverage_ref;
  budget_decision = input.budget_decision;
  budget_status_ref = none;
  incident_id = input.incident_id;
  trigger_event_ref = event_ref input.incident_id;
  root_cause_claim = false;
  data_quality = input.data_quality;
}
