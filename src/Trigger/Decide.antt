-- ===== src/Trigger/Decide.antt =====
-- trigger_decision_for_rule and trigger_decision_for_budget_refusal of
-- crates/adc-core/src/trigger.rs: one decision of a rule for an input and the coverage of its signal.
pub mod Coverage
use agent_debug_compass.Prelude.{
  String, Bool, true, false, Option, none, some, List, [], ◌∷◌, ◌++◌, if◌then◌else◌, ◌=ₛ◌,
}
use agent_debug_compass.Prelude.Float.{F64}
use agent_debug_compass.Prelude.Text.{format, contains}
use agent_debug_compass.Quality.{
  DataQuality, medium_quality, push_missing, push_missing_once, push_note,
}
use agent_debug_compass.Error.{AdcResult, ok, err}
use agent_debug_compass.Recorder.Model.{
  RecorderSignalCoverage, RecorderCoverageState, RecorderCoverageConfidence, missing, unavailable,
  covered, partial, not_expected, degraded, unknown,
}
use agent_debug_compass.Recorder.Budget.{RecorderBudgetStatus}
use agent_debug_compass.Trigger.Model
use agent_debug_compass.Trigger.Model.{
  Printer, TriggerRule, TriggerInput, TriggerEvaluation, TriggerKind, TriggerDecision,
  TriggerDecisionOutcome, fired, not_fired, skipped_missing_coverage, skipped_policy_invalid,
  TriggerDecisionReason, TriggerBudgetDecision, threshold_crossed, threshold_not_crossed,
  delta_crossed, delta_not_crossed, burst_count_crossed, burst_count_not_crossed, coverage_missing,
  coverage_unavailable, policy_invalid, budget_exhausted,
}
use agent_debug_compass.Trigger.Evaluate.{evaluate_trigger}
use agent_debug_compass.Trigger.Rules.{or_else, unwrap_or, trigger_kind_for_rule}
use agent_debug_compass.Trigger.Outcome.{
  coverage_signal_id_for_trigger_signal, fired_reason, not_fired_reason, TriggerDecisionInput,
  event_ref, trigger_decision,
}

-- `matches!(coverage_state, Missing | Unavailable | Unknown)`
unfoldable pub is_insufficient : RecorderCoverageState → Bool
is_insufficient missing = true
is_insufficient unavailable = true
is_insufficient RecorderCoverageState.unknown = true
is_insufficient covered = false
is_insufficient partial = false
is_insufficient not_expected = false
is_insufficient degraded = false

skip_reason : RecorderCoverageState → TriggerDecisionReason
skip_reason unavailable = coverage_unavailable
skip_reason _ = coverage_missing

unfoldable pub observed : Option TriggerInput → Option F64
observed none = none
observed (some input) = input.value

input_signal : Option TriggerInput → Option String
input_signal none = none
input_signal (some input) = some input.signal

unfoldable pub coverage_id : Option RecorderSignalCoverage → String → String
unfolding coverage_signal_id_for_trigger_signal
coverage_id none signal_id = coverage_signal_id_for_trigger_signal signal_id
coverage_id (some c) signal_id = c.signal_id

unfoldable pub state_of : Option RecorderSignalCoverage → RecorderCoverageState
state_of none = RecorderCoverageState.unknown
state_of (some c) = c.coverage_state

confidence_of : Option RecorderSignalCoverage → RecorderCoverageConfidence
confidence_of none = RecorderCoverageConfidence.unknown
confidence_of (some c) = c.coverage_confidence

unfoldable pub quality_of : Option RecorderSignalCoverage → DataQuality
quality_of none = medium_quality
quality_of (some c) = c.data_quality

-- The part of the input of `trigger_decision` that all the answers share, with the outcome, its
-- reason, the incident, the budget decision and the quality given.
unfoldable pub answer :
    String
    → TriggerRule
    → Option TriggerInput
    → Option RecorderSignalCoverage
    → Option String
    → Option String
    → TriggerDecisionOutcome
    → TriggerDecisionReason
    → TriggerBudgetDecision
    → DataQuality
    → TriggerDecision
unfolding trigger_decision coverage_id state_of confidence_of observed input_signal
answer policy_id rule input coverage coverage_ref incident_id outcome reason budget q =
    let signal_id = unwrap_or "unknown" (or_else rule.signal (input_signal input)) in
    trigger_decision (record {
      policy_id = policy_id;
      rule = rule;
      signal_id = signal_id;
      coverage_signal_id = coverage_id coverage signal_id;
      observed_value = observed input;
      coverage_state = state_of coverage;
      coverage_confidence = confidence_of coverage;
      coverage_ref = coverage_ref;
      incident_id = incident_id;
      decision = outcome;
      decision_reason = reason;
      budget_decision = budget;
      data_quality = q;
    })

abbrev pub with_evaluation : TriggerEvaluation → DataQuality → DataQuality
with_evaluation e q = record q {
  notes = q.notes ++ e.data_quality.notes;
  missing = q.missing ++ e.data_quality.missing;
}

-- What follows on the evaluation: `?` passes its error on.
unfoldable pub decide :
    String
    → TriggerRule
    → TriggerInput
    → Option RecorderSignalCoverage
    → Option String
    → Option String
    → DataQuality
    → AdcResult TriggerEvaluation
    → AdcResult TriggerDecision
unfolding answer fired_reason not_fired_reason trigger_kind_for_rule
decide policy_id rule input coverage coverage_ref incident_id q (err x) = err x
decide policy_id rule input coverage coverage_ref incident_id q (ok e) = elim e.matched [
  | true ↦ ok (
      answer policy_id rule (some input) coverage coverage_ref incident_id fired
        (fired_reason (trigger_kind_for_rule rule)) TriggerBudgetDecision.accepted
        (with_evaluation e q))
  | false ↦ ok (
      answer policy_id rule (some input) coverage coverage_ref none not_fired
        (not_fired_reason (trigger_kind_for_rule rule)) TriggerBudgetDecision.not_required
        (with_evaluation e q))
]

unfoldable pub trigger_decision_for_rule :
    Printer
    → String
    → TriggerRule
    → Option TriggerInput
    → Option RecorderSignalCoverage
    → Option String
    → Option String
    → AdcResult TriggerDecision
unfolding answer decide evaluate_trigger is_insufficient state_of skip_reason quality_of coverage_id
    format input_signal
trigger_decision_for_rule print policy_id rule input coverage coverage_ref incident_id =
    elim (is_insufficient (state_of coverage)) [
      | true ↦ ok (
          answer policy_id rule input coverage coverage_ref incident_id skipped_missing_coverage
            (skip_reason (state_of coverage)) TriggerBudgetDecision.not_required
            (push_missing_once
              (format (
                coverage_id coverage
                  (unwrap_or "unknown" (or_else rule.signal (input_signal input)))
                ∷ " coverage is not sufficient for trigger evaluation"
                ∷ []))
              (quality_of coverage)))
      | false ↦ elim input [
        | none ↦ ok (
            answer policy_id rule none coverage coverage_ref incident_id skipped_policy_invalid
              policy_invalid TriggerBudgetDecision.not_required
              (push_missing "trigger input was unavailable" (quality_of coverage)))
        | some i ↦
            decide policy_id rule i coverage coverage_ref incident_id (quality_of coverage)
              (evaluate_trigger print rule i)
      ]
    ]

budget_note : String
budget_note = "trigger preservation skipped due to recorder budget admission"

unfoldable pub trigger_decision_for_budget_refusal :
    String
    → TriggerRule
    → Option TriggerInput
    → Option RecorderSignalCoverage
    → Option String
    → RecorderBudgetStatus
    → AdcResult TriggerDecision
unfolding answer budget_note
trigger_decision_for_budget_refusal policy_id rule input coverage coverage_ref budget_status =
    let q = record budget_status.data_quality { throttled = true } in
    ok (
      answer policy_id rule input coverage coverage_ref none
        TriggerDecisionOutcome.skipped_budget_exhausted budget_exhausted
        TriggerBudgetDecision.skipped_budget_exhausted
        (if contains q.notes budget_note then q else push_note budget_note q))
