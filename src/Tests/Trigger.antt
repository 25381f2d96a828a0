-- ===== src/Tests/Trigger.antt =====
-- The theorems on triggers at concrete rules and inputs.
use agent_debug_compass.Prelude.{
  ℕ, ◌≡◌, ◌↔◌, refl, arith, true, false, ◌&&◌, none, some, List, [], ◌∷◌, last?, ◌⊎◌, sat_mul,
}
use agent_debug_compass.Prelude.Float.{F64, one, minus_two, le, lt, near}
use agent_debug_compass.Prelude.Maps.{get}
use agent_debug_compass.Quality.{medium_quality}
use agent_debug_compass.Error.{ok}
use agent_debug_compass.Recorder.Model.{
  RecorderSignalCoverage, covered, RecorderCoverageConfidence, CapabilityStatus,
  ExpectedSamplesBasis,
}
use agent_debug_compass.Recorder.Governor.Spacing.{SpacedFrom}
use agent_debug_compass.Trigger.Model.{
  Printer, RuleType, TriggerRule, TriggerInput, TriggerDecision, TriggerRuntimeState, fired,
  not_fired, accepted,
}
use agent_debug_compass.Trigger.Evaluate.{evaluate_trigger}
use agent_debug_compass.Trigger.Rules.{or_else, names_signal}
use agent_debug_compass.Trigger.Evaluate.Errors.{
  evaluate_trigger-fails, fails, is_numeric, is_some, is_incomplete,
}
use agent_debug_compass.Trigger.Decide.{trigger_decision_for_rule, state_of, observed}
use agent_debug_compass.Trigger.Decide.Coverage.{
  IsEvaluable, event_artifact, fired_iff, decision-carries, matches,
}
use agent_debug_compass.Trigger.Runtime.{trigger_decision_with_runtime_state}
use agent_debug_compass.Trigger.Runtime.Firing.{fires, last_fired}
use agent_debug_compass.Trigger.Runtime.Cooldown.{
  Call, fire_times, final_state, fires-spaced, final_state-last_fire,
}
use agent_debug_compass.Trigger.Runtime.Hysteresis.{ClearsBelow, fires_once}
use agent_debug_compass.Trigger.Policy.{trigger_policy_rule_for_profile_rule}
use agent_debug_compass.Trigger.Policy.Agreement.{Agrees, decision-Agrees}

abbrev plain : Printer
plain = record { display_f64 = λ x. "1"; debug_text = λ s. s }

abbrev five : F64
five = record { bits = 0x4014000000000000 }

-- Above one, at most every two milliseconds, cleared below minus two.
abbrev cpu_rule : TriggerRule
cpu_rule = record {
  name = "cpu_high";
  rule_type = RuleType.threshold;
  signal = some "cpu.total_percent";
  op = some ">";
  value = some one;
  duration_sec = none;
  capture_profile = none;
  severity_at_least = none;
  patterns = [];
  cooldown_ms = some 2;
  hysteresis = none;
}

abbrev latching_rule : TriggerRule
latching_rule = record cpu_rule {
  hysteresis = some (record { clear_below = some minus_two; min_clear_duration_ms = none });
}

abbrev cpu_input : TriggerInput
cpu_input = record {
  signal = "cpu.total_percent";
  value = some five;
  duration_sec = none;
  text = none;
  severity = none;
}

abbrev cpu_coverage : RecorderSignalCoverage
cpu_coverage = record {
  signal_id = "cpu.summary";
  expected = true;
  coverage_state = covered;
  coverage_confidence = RecorderCoverageConfidence.high;
  configured_interval_ms = 1000;
  effective_interval_ms = 1000;
  expected_samples_configured = some 10;
  expected_samples_budgeted = some 10;
  expected_samples = some 10;
  expected_samples_basis = ExpectedSamplesBasis.inferred;
  retained_samples_before_freeze = 10;
  exported_samples = 10;
  dropped_samples = 0;
  truncated_samples_due_to_freeze_budget = 0;
  loss_report_ref = "loss_report.json";
  loss_collector_id = "cpu.summary";
  loss_reasons = [];
  capability_status = CapabilityStatus.supported;
  data_quality = medium_quality;
}

abbrev call_at : ℕ → Call
call_at now = record {
  rule = cpu_rule;
  input = some cpu_input;
  coverage = some cpu_coverage;
  coverage_ref = none;
  now_mono_ns = now;
}

abbrev fresh : TriggerRuntimeState
fresh = record { last_fired_mono_ns_by_rule = [] }

abbrev calls : List Call
calls = call_at 5 ∷ call_at 1000005 ∷ call_at 3 ∷ call_at 2000005 ∷ []

fires_run : fire_times plain "policy" "cpu_high" fresh calls ≡ 5 ∷ 2000005 ∷ []
unfolding fire_times trigger_decision_with_runtime_state fires near le lt
fires_run = refl

fires-spaced_example :
    SpacedFrom (sat_mul 2 1000000) none (fire_times plain "policy" "cpu_high" fresh calls)
unfolding get
fires-spaced_example =
    fires-spaced plain "policy" "cpu_high" 2 fresh calls (omega arith)
      (λ e. refl, (λ e. refl, (λ e. refl, (λ e. refl, tt))))

final_state-last_fire_example :
    last_fired "cpu_high" (final_state plain "policy" fresh calls)
    ≡ or_else
        (last? (fire_times plain "policy" "cpu_high" fresh calls))
        (last_fired "cpu_high" fresh)
final_state-last_fire_example = final_state-last_fire plain "policy" "cpu_high" fresh calls

decided :
    (d : TriggerDecision) × (trigger_decision_for_rule plain "policy" cpu_rule
        (some cpu_input)
        (some cpu_coverage)
        none
        (some "INC-1")
      ≡ ok d)
unfolding trigger_decision_for_rule lt le near
decided = (_, refl)

fired_iff_example :
    (decided.0.decision ≡ fired)
    ↔ (IsEvaluable covered × (matches plain cpu_rule (some cpu_input) ≡ true))
unfolding state_of
fired_iff_example =
    fired_iff plain "policy" cpu_rule (some cpu_coverage) none (some "INC-1") (some cpu_input)
      decided.0 decided.1

decision-carries_example :
    (decided.0.trigger_event_ref ≡ event_artifact decided.0.incident_id)
    × ((decided.0.incident_id ≡ none) ⊎ (decided.0.incident_id ≡ some "INC-1"))
    × (decided.0.root_cause_claim ≡ false)
    × (decided.0.observed_value ≡ some five)
    × (decided.0.coverage_state ≡ covered)
    × (decided.0.trigger_name ≡ "cpu_high")
    × ((decided.0.budget_decision ≡ accepted) ↔ (decided.0.decision ≡ fired))
    × (decided.0.decision ≡ not_fired → decided.0.incident_id ≡ none)
unfolding observed state_of
decision-carries_example =
    decision-carries plain "policy" cpu_rule (some cpu_coverage) none (some "INC-1")
      (some cpu_input) decided.0 decided.1

decision-Agrees_example :
    Agrees (some cpu_coverage) (trigger_policy_rule_for_profile_rule cpu_rule) decided.0
unfolding trigger_policy_rule_for_profile_rule
decision-Agrees_example =
    decision-Agrees plain "policy" "cpu.total_percent" cpu_rule (some cpu_coverage) none
      (some "INC-1") (some cpu_input) decided.0 refl decided.1

latching : ClearsBelow latching_rule one minus_two
unfolding le
latching = record {
  kind = refl;
  operator = refl;
  value = refl;
  clear = (_, refl, refl);
  below = refl;
}

abbrev fired_at_five : TriggerRuntimeState
fired_at_five = record { last_fired_mono_ns_by_rule = ("cpu_high", 5) ∷ [] }

remembered : last_fired "cpu_high" fired_at_five ≡ some 5
unfolding get
remembered = refl

fires_once_example :
    (fires
        (trigger_decision_with_runtime_state plain "policy" latching_rule
          (some cpu_input)
          (some cpu_coverage)
          none
          9000000000
          fired_at_five).0
      ≡ false)
    × ((trigger_decision_with_runtime_state plain "policy" latching_rule
          (some cpu_input)
          (some cpu_coverage)
          none
          9000000000
          fired_at_five).1
        ≡ fired_at_five)
fires_once_example =
    fires_once plain "policy" latching_rule one minus_two latching (some cpu_input)
      (some cpu_coverage) none 9000000000 5 fired_at_five remembered

abbrev misspelt : TriggerRule
misspelt = record cpu_rule { op = some "=>" }

evaluate_trigger-fails_example : fails (evaluate_trigger plain misspelt cpu_input) ≡ (
    is_numeric misspelt.rule_type
    && (names_signal misspelt.signal cpu_input.signal
        && (is_some cpu_input.value && is_incomplete misspelt)))
evaluate_trigger-fails_example = evaluate_trigger-fails plain misspelt cpu_input

misspelt_refused : fails (evaluate_trigger plain misspelt cpu_input) ≡ true
unfolding evaluate_trigger
misspelt_refused = refl
