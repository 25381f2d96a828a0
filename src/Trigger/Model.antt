-- ===== src/Trigger/Model.antt =====
-- The data of crates/adc-core/src/trigger.rs, and the rules that it reads from
-- crates/adc-core/src/profile.rs. What the standard library prints for an f64 and for the escaped
-- form of a text is a parameter, the record `Printer`; only notes and reasons contain it.
use agent_debug_compass.Prelude.{ℕ, String, Bool, Option, List}
use agent_debug_compass.Prelude.Float.{F64}
use agent_debug_compass.Prelude.Maps.{BTreeMap}
use agent_debug_compass.Quality.{DataQuality}
use agent_debug_compass.Recorder.Model.{RecorderCoverageState, RecorderCoverageConfidence}

pub record Printer : Type 0 where
  pub display_f64 : F64 → String
  pub debug_text : String → String

pub data RuleType : Type 0 where
  threshold threshold_duration delta delta_rate missing_sample : RuleType
  kmsg_pattern burst baseline_deviation sequence_pattern : RuleType

pub record TriggerHysteresis : Type 0 where
  pub clear_below : Option F64
  pub min_clear_duration_ms : Option ℕ

pub record TriggerRule : Type 0 where
  pub name : String
  pub rule_type : RuleType
  pub signal : Option String
  pub op : Option String
  pub value : Option F64
  pub duration_sec : Option ℕ
  pub capture_profile : Option String
  pub severity_at_least : Option String
  pub patterns : List String
  pub cooldown_ms : Option ℕ
  pub hysteresis : Option TriggerHysteresis

pub record TriggerInput : Type 0 where
  pub signal : String
  pub value : Option F64
  pub duration_sec : Option ℕ
  pub text : Option String
  pub severity : Option String

pub record TriggerEvaluation : Type 0 where
  pub trigger_name : String
  pub matched : Bool
  pub reason : String
  pub capture_profile : Option String
  pub data_quality : DataQuality

pub data TriggerKind : Type 0 where
  threshold delta burst_count : TriggerKind

pub data TriggerDecisionOutcome : Type 0 where
  fired not_fired suppressed_cooldown suppressed_hysteresis suppressed_storm :
      TriggerDecisionOutcome
  skipped_missing_coverage skipped_budget_exhausted skipped_policy_invalid : TriggerDecisionOutcome

pub data TriggerDecisionReason : Type 0 where
  threshold_crossed threshold_not_crossed delta_crossed delta_not_crossed : TriggerDecisionReason
  burst_count_crossed burst_count_not_crossed : TriggerDecisionReason
  coverage_missing coverage_unavailable cooldown_active : TriggerDecisionReason
  hysteresis_not_cleared storm_suppressed budget_exhausted policy_invalid : TriggerDecisionReason

pub data TriggerBudgetDecision : Type 0 where
  accepted skipped_budget_exhausted not_required unknown : TriggerBudgetDecision

pub record TriggerDecision : Type 0 where
  pub schema_version : String
  pub decision_id : String
  pub policy_id : String
  pub rule_id : String
  pub trigger_name : String
  pub trigger_kind : TriggerKind
  pub decision : TriggerDecisionOutcome
  pub decision_reason : TriggerDecisionReason
  pub signal_id : String
  pub coverage_signal_id : String
  pub observed_value : Option F64
  pub threshold : Option F64
  pub coverage_state : RecorderCoverageState
  pub coverage_confidence : RecorderCoverageConfidence
  pub coverage_ref : Option String
  pub budget_decision : TriggerBudgetDecision
  pub budget_status_ref : Option String
  pub incident_id : Option String
  pub trigger_event_ref : Option String
  pub root_cause_claim : Bool
  pub data_quality : DataQuality

pub record TriggerPolicyHysteresis : Type 0 where
  pub clear_below : Option F64
  pub min_clear_duration_ms : ℕ

pub record TriggerPolicyRule : Type 0 where
  pub rule_id : String
  pub trigger_name : String
  pub trigger_kind : TriggerKind
  pub signal_id : String
  pub coverage_signal_id : String
  pub operator : Option String
  pub threshold : Option F64
  pub delta : Option F64
  pub burst_count : Option ℕ
  pub burst_window_ms : Option ℕ
  pub min_coverage_state : RecorderCoverageState
  pub required_signal_state : String
  pub cooldown_ms : ℕ
  pub hysteresis : Option TriggerPolicyHysteresis
  pub freeze_profile : String
  pub root_cause_claim : Bool
  pub data_quality : DataQuality

pub record TriggerPolicy : Type 0 where
  pub schema_version : String
  pub policy_id : String
  pub policy_scope : String
  pub rules : List TriggerPolicyRule
  pub default_decision : String
  pub data_quality : DataQuality

-- The monotonic time at which each rule, by name, fired last.
pub record TriggerRuntimeState : Type 0 where
  pub last_fired_mono_ns_by_rule : BTreeMap ℕ
