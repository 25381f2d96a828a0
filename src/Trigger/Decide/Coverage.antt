-- ===== src/Trigger/Decide/Coverage.antt =====
-- When a trigger decision fires, and what each outcome carries.
use Prim.Native.String.{◌++◌}
use text.Mathlib.TextLemmas.{append-nil}
use agent_debug_compass.Prelude.{
  refl, ap, String, Bool, true, false, Option, none, some, ◌≡◌, ◌↔◌, ◌⊎◌, inl, inr, Bool-cases,
  arith,
}
use agent_debug_compass.Quality.{DataQuality}
use agent_debug_compass.Error.{AdcResult, ok, err, AdcResult-cases}
use agent_debug_compass.Recorder.Model.{
  RecorderSignalCoverage, RecorderCoverageState, covered, partial, not_expected, degraded,
}
use agent_debug_compass.Trigger.Model.{
  Printer, TriggerRule, TriggerInput, TriggerEvaluation, TriggerDecision, fired, not_fired,
  accepted,
}
use agent_debug_compass.Trigger.Evaluate.{evaluate_trigger}
use agent_debug_compass.Trigger.Decide.{
  trigger_decision_for_rule, decide, is_insufficient, quality_of, state_of, answer, observed,
}
use agent_debug_compass.Prelude.Text.{format}
use agent_debug_compass.Trigger.Outcome.{trigger_decision, event_ref}

abbrev pub matched_in : AdcResult TriggerEvaluation → Bool
matched_in (ok e) = e.matched
matched_in (err x) = false

-- Where the event of an incident is kept.
abbrev pub event_artifact : Option String → Option String
event_artifact none = none
event_artifact (some id) = some ("artifact://recorder/incidents/" ++ id ++ "/trigger_event.json")

event_ref-event_artifact : (o : Option String) → event_ref o ≡ event_artifact o
unfolding event_ref format
event_ref-event_artifact none = refl
event_ref-event_artifact (some id) =
    ap (λ end. some ("artifact://recorder/incidents/" ++ id ++ end))
      (append-nil "/trigger_event.json")

-- There is an input, and the rule's evaluation of it succeeds and matches.
abbrev pub matches : Printer → TriggerRule → Option TriggerInput → Bool
matches print rule none = false
matches print rule (some i) = matched_in (evaluate_trigger print rule i)

-- The states of coverage in which a rule is evaluated.
abbrev pub IsEvaluable : RecorderCoverageState → Type 0
IsEvaluable s = (s ≡ covered) ⊎ ((s ≡ partial) ⊎ ((s ≡ not_expected) ⊎ (s ≡ degraded)))

sufficient_iff : (s : RecorderCoverageState) → (is_insufficient s ≡ false) ↔ IsEvaluable s
unfolding is_insufficient
sufficient_iff s = ground arith

module _ (print : Printer) (policy_id : String) (rule : TriggerRule)
    (coverage : Option RecorderSignalCoverage) (coverage_ref incident_id : Option String) where
  decide-fired :
      (i : TriggerInput) (q : DataQuality) (r : AdcResult TriggerEvaluation) (d : TriggerDecision)
      → decide policy_id rule i coverage coverage_ref incident_id q r ≡ ok d
      → (d.decision ≡ fired) ↔ (matched_in r ≡ true)
  unfolding decide answer trigger_decision
  decide-fired i q (err x) d h = ground arith
  decide-fired i q (ok e) d h = elim (Bool-cases e.matched) [
    | inl m ↦ ground arith
    | inr m ↦ ground arith
  ]

  fired-sufficient :
      (input : Option TriggerInput) (d : TriggerDecision)
      → trigger_decision_for_rule print policy_id rule input coverage coverage_ref incident_id
        ≡ ok d
      → (d.decision ≡ fired)
        ↔ ((is_insufficient (state_of coverage) ≡ false) × (matches print rule input ≡ true))
  unfolding trigger_decision_for_rule answer trigger_decision
  fired-sufficient none d h = ground arith
  fired-sufficient (some i) d h = elim (Bool-cases (is_insufficient (state_of coverage))) [
    | inl c ↦ ground arith
    | inr c ↦ ground (arith, decide-fired i (quality_of coverage) (evaluate_trigger print rule i) d)
  ]

  -- A decision of a rule fires exactly when the coverage of its signal is covered, partial, not
  -- expected or degraded, there is an input, and the rule's evaluation of it succeeds and matches.
  pub fired_iff :
      (input : Option TriggerInput) (d : TriggerDecision)
      → trigger_decision_for_rule print policy_id rule input coverage coverage_ref incident_id
        ≡ ok d
      → (d.decision ≡ fired) ↔ (IsEvaluable (state_of coverage) × (matches print rule input ≡ true))
  fired_iff input d h =
      let f = fired-sufficient input d h in
      let s = sufficient_iff (state_of coverage) in
      ((λ e. (s.0 (f.0 e).0, (f.0 e).1)), (λ e. f.1 (s.1 e.0, e.1)))

  -- Whatever the outcome, a decision of a rule refers to the trigger_event.json of the incident that it
  -- names, and names no incident but the one given, none when the rule did not match; it claims no root cause,
  -- reports the input's value, the coverage's state and the rule's name, and its budget decision is
  -- accepted exactly when it fires.
  pub decision-carries :
      (input : Option TriggerInput) (d : TriggerDecision)
      → trigger_decision_for_rule print policy_id rule input coverage coverage_ref incident_id
        ≡ ok d
      → (d.trigger_event_ref ≡ event_artifact d.incident_id)
        × ((d.incident_id ≡ none) ⊎ (d.incident_id ≡ incident_id))
        × (d.root_cause_claim ≡ false)
        × (d.observed_value ≡ observed input)
        × (d.coverage_state ≡ state_of coverage)
        × (d.trigger_name ≡ rule.name)
        × ((d.budget_decision ≡ accepted) ↔ (d.decision ≡ fired))
        × (d.decision ≡ not_fired → d.incident_id ≡ none)
  unfolding trigger_decision_for_rule answer trigger_decision observed
  decision-carries none d h = ground (arith, event_ref-event_artifact d.incident_id)
  decision-carries (some i) d h = elim (AdcResult-cases (evaluate_trigger print rule i)) [
    | inl (e, p) ↦ ground (arith, event_ref-event_artifact d.incident_id)
    | inr (x, p) ↦ ground (arith, event_ref-event_artifact d.incident_id)
  ]
