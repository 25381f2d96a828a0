-- ===== src/Trigger/Policy/Agreement.antt =====
-- The published policy and the decisions taken under it name the same things.
use agent_debug_compass.Prelude.{String, Option, none, some, ◌≡◌, arith, Bool-cases, inl, inr}
use agent_debug_compass.Quality.{DataQuality}
use agent_debug_compass.Error.{AdcResult, ok, err}
use agent_debug_compass.Recorder.Model.{RecorderSignalCoverage}
use agent_debug_compass.Trigger.Model.{
  Printer, TriggerRule, TriggerInput, TriggerDecision, TriggerEvaluation, TriggerPolicyRule, fired,
  not_fired, TriggerKind, TriggerDecisionReason, threshold_crossed, threshold_not_crossed,
  delta_crossed, delta_not_crossed, burst_count_crossed, burst_count_not_crossed,
}
use agent_debug_compass.Trigger.Evaluate.{evaluate_trigger}
use agent_debug_compass.Trigger.Decide.{
  trigger_decision_for_rule, answer, decide, is_insufficient, state_of, quality_of,
}
use agent_debug_compass.Trigger.Outcome.{trigger_decision, fired_reason, not_fired_reason}
use agent_debug_compass.Trigger.Rules.{trigger_kind_for_rule}
use agent_debug_compass.Trigger.Policy.{trigger_policy_rule_for_profile_rule}

-- The reasons that a kind of rule gives when it fires and when it does not match.
abbrev pub reason_to_fire : TriggerKind → TriggerDecisionReason
reason_to_fire TriggerKind.threshold = threshold_crossed
reason_to_fire TriggerKind.delta = delta_crossed
reason_to_fire TriggerKind.burst_count = burst_count_crossed

abbrev pub reason_not_to_fire : TriggerKind → TriggerDecisionReason
reason_not_to_fire TriggerKind.threshold = threshold_not_crossed
reason_not_to_fire TriggerKind.delta = delta_not_crossed
reason_not_to_fire TriggerKind.burst_count = burst_count_not_crossed

fired_reason-table : (k : TriggerKind) → fired_reason k ≡ reason_to_fire k
unfolding fired_reason
fired_reason-table k = ground arith

not_fired_reason-table : (k : TriggerKind) → not_fired_reason k ≡ reason_not_to_fire k
unfolding not_fired_reason
not_fired_reason-table k = ground arith

-- The signal of the coverage that was given, and without one the signal that the policy asks for.
abbrev pub covering_signal : TriggerPolicyRule → Option RecorderSignalCoverage → String
covering_signal p none = p.coverage_signal_id
covering_signal p (some c) = c.signal_id

-- What a decision and a rule of the policy have in common.
pub record Agrees (coverage : Option RecorderSignalCoverage) (p : TriggerPolicyRule)
    (d : TriggerDecision) : Type 0 where
  pub rule_id : d.rule_id ≡ p.rule_id
  pub trigger_name : d.trigger_name ≡ p.trigger_name
  pub trigger_kind : d.trigger_kind ≡ p.trigger_kind
  pub signal_id : d.signal_id ≡ p.signal_id
  pub coverage_signal_id : d.coverage_signal_id ≡ covering_signal p coverage
  pub root_cause : d.root_cause_claim ≡ p.root_cause_claim
  pub fired_for : d.decision ≡ fired → d.decision_reason ≡ reason_to_fire p.trigger_kind
  pub not_fired_for : d.decision ≡ not_fired → d.decision_reason ≡ reason_not_to_fire p.trigger_kind

module _ (print : Printer) (policy_id signal : String) (rule : TriggerRule)
    (coverage : Option RecorderSignalCoverage) (coverage_ref incident_id : Option String) where
  decide-Agrees :
      (i : TriggerInput) (q : DataQuality) (r : AdcResult TriggerEvaluation) (d : TriggerDecision)
      → rule.signal ≡ some signal
      → decide policy_id rule i coverage coverage_ref incident_id q r ≡ ok d
      → Agrees coverage (trigger_policy_rule_for_profile_rule rule) d
  unfolding decide answer trigger_decision trigger_policy_rule_for_profile_rule
  decide-Agrees i q (err x) d s h = absurd (ground arith)
  decide-Agrees i q (ok e) d s h = elim (Bool-cases e.matched) [
    | inl m ↦ ground (arith, fired_reason-table (trigger_kind_for_rule rule))
    | inr m ↦ ground (arith, not_fired_reason-table (trigger_kind_for_rule rule))
  ]

  -- For a rule that names its signal, with any coverage or none, a decision has the id, the name, the
  -- kind and the signal of the policy rule, and claims a root cause as little. Its coverage signal is
  -- that of the coverage, and the policy rule's own where there is none. When the rule fires, or does
  -- not match, the reason is that of the policy rule's kind, by a table of reasons.
  pub decision-Agrees :
      (input : Option TriggerInput) (d : TriggerDecision)
      → rule.signal ≡ some signal
      → trigger_decision_for_rule print policy_id rule input coverage coverage_ref incident_id
        ≡ ok d
      → Agrees coverage (trigger_policy_rule_for_profile_rule rule) d
  unfolding trigger_decision_for_rule answer trigger_decision trigger_policy_rule_for_profile_rule
  decision-Agrees none d s h = ground arith
  decision-Agrees (some i) d s h = elim (Bool-cases (is_insufficient (state_of coverage))) [
    | inl b ↦ ground arith
    | inr b ↦
        decide-Agrees i (quality_of coverage) (evaluate_trigger print rule i) d s (ground arith)
  ]
