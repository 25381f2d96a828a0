-- ===== src/Trigger/Runtime/Hysteresis.antt =====
-- Rules with a hysteresis, whose fired state no call takes back.
use agent_debug_compass.Prelude.{
  ℕ, String, Bool, true, false, Option, none, some, ◌≡◌, refl, arith, sym, subst, ap, ◌∙◌,
}
use agent_debug_compass.Prelude.Float.{F64, lt, le, le-lt}
use agent_debug_compass.Quality.{DataQuality, medium_quality}
use agent_debug_compass.Error.{AdcResult, ok, err, ◌>>=◌}
use agent_debug_compass.Recorder.Model.{RecorderSignalCoverage}
use agent_debug_compass.Trigger.Model.{
  Printer, TriggerRule, TriggerHysteresis, TriggerInput, TriggerDecision, TriggerRuntimeState,
  RuleType, fired, TriggerDecisionOutcome,
}
use agent_debug_compass.Trigger.Evaluate.{
  evaluate_trigger, matched_by, numeric_result, numeric_limit, numeric_value, numeric_named,
  evaluation_of,
}
use agent_debug_compass.Trigger.Rules.{compare_with, unwrap_or}
use agent_debug_compass.Trigger.Decide.{trigger_decision_for_rule, observed}
use agent_debug_compass.Trigger.Decide.Coverage.{fired_iff, decision-carries, matched_in}
use agent_debug_compass.Trigger.Runtime.{is_fired, not_cleared, trigger_decision_with_runtime_state}
use agent_debug_compass.Trigger.Runtime.Firing.{fires, last_fired, with_state-held}

-- A threshold rule that fires above its value and clears below a value that is not larger.
pub record ClearsBelow (rule : TriggerRule) (limit clear_below : F64) : Type 0 where
  pub kind : rule.rule_type ≡ RuleType.threshold
  pub operator : unwrap_or ">" rule.op ≡ ">"
  pub value : rule.value ≡ some limit
  pub clear :
      (h : TriggerHysteresis) × (rule.hysteresis ≡ some h) × (h.clear_below ≡ some clear_below)
  pub below : le clear_below limit ≡ true

abbrev result_matched : AdcResult (Bool × DataQuality) → Bool
result_matched (ok r) = r.0
result_matched (err x) = false

some_inj {ℓ} : {A : Type ℓ} {a b : A} → some a ≡ some b → a ≡ b
some_inj {a = a} p = ap (unwrap_or a) p

compare_with-above : (v limit : F64) → compare_with ">" v limit ≡ some (lt limit v)
unfolding compare_with
compare_with-above v limit = refl

module _ (rule : TriggerRule) (limit : F64) (input : TriggerInput) (q : DataQuality) where
  numeric_result-matched :
      (o : Option Bool) → result_matched (numeric_result rule input q o) ≡ true → o ≡ some true
  unfolding numeric_result
  numeric_result-matched none m = ground arith
  numeric_result-matched (some false) m = ground arith
  numeric_result-matched (some true) m = refl

  numeric_limit-above :
      (v : F64) (l : Option F64)
      → unwrap_or ">" rule.op ≡ ">"
      → l ≡ some limit
      → result_matched (numeric_limit rule input v q l) ≡ true
      → lt limit v ≡ true
  unfolding numeric_limit
  numeric_limit-above v none o e m = ground arith
  numeric_limit-above v (some l) o e m = some_inj (
      sym (compare_with-above v limit)
      ∙ sym (ap (λ s. compare_with s v limit) o)
      ∙ ap (compare_with (unwrap_or ">" rule.op) v) (sym (some_inj e))
      ∙ numeric_result-matched _ m)

  numeric_value-above :
      (value : Option F64)
      → unwrap_or ">" rule.op ≡ ">"
      → rule.value ≡ some limit
      → result_matched (numeric_value rule input q value) ≡ true
      → (v : F64) × (value ≡ some v) × (lt limit v ≡ true)
  numeric_value-above none o e m = absurd (ground arith)
  numeric_value-above (some v) o e m = (v, refl, numeric_limit-above v rule.value o e m)

is_fired-fired : (o : TriggerDecisionOutcome) → is_fired o ≡ true → o ≡ fired
unfolding is_fired
is_fired-fired o h = ground arith

module _ (print : Printer) (rule : TriggerRule) where
  numeric_named-above :
      (limit : F64) (input : TriggerInput) (q : DataQuality) (named : Bool)
      → unwrap_or ">" rule.op ≡ ">"
      → rule.value ≡ some limit
      → result_matched (numeric_named print rule input q named) ≡ true
      → (v : F64) × (input.value ≡ some v) × (lt limit v ≡ true)
  unfolding numeric_named
  numeric_named-above limit input q true o e m =
      numeric_value-above rule limit input q input.value o e m
  numeric_named-above limit input q false o e m = absurd (ground arith)

  evaluation-matched :
      (i : TriggerInput) (r : AdcResult (Bool × DataQuality))
      → matched_in (r >>= λ x. ok (evaluation_of print rule i x)) ≡ result_matched r
  unfolding evaluation_of
  evaluation-matched i (ok r) = refl
  evaluation-matched i (err x) = refl

module _ (print : Printer) (policy_id : String) (rule : TriggerRule) (limit clear_below : F64)
    (clears : ClearsBelow rule limit clear_below) where
  matches-above :
      (i : TriggerInput)
      → matched_in (evaluate_trigger print rule i) ≡ true
      → (v : F64) × (i.value ≡ some v) × (lt limit v ≡ true)
  unfolding evaluate_trigger matched_by
  matches-above i h =
      numeric_named-above print rule limit i medium_quality _ clears.operator clears.value (
        subst (λ t. result_matched (matched_by print t rule i medium_quality) ≡ true) clears.kind
          (sym (
              evaluation-matched print rule i
                (matched_by print rule.rule_type rule i medium_quality))
            ∙ h))

  not_cleared-above : (v : F64) → lt limit v ≡ true → not_cleared rule.hysteresis (some v) ≡ true
  unfolding not_cleared
  not_cleared-above v h =
      let (t, e, c) = clears.clear in rw (e, c) (le-lt clear_below limit v clears.below h)

  fired-held :
      (input : Option TriggerInput) (coverage : Option RecorderSignalCoverage)
      (coverage_ref : Option String) (d : TriggerDecision)
      → trigger_decision_for_rule print policy_id rule input coverage coverage_ref none ≡ ok d
      → is_fired d.decision ≡ true
      → not_cleared rule.hysteresis d.observed_value ≡ true
  unfolding observed
  fired-held none coverage coverage_ref d h f = absurd (
      ground (
        arith,
        fired_iff print policy_id rule coverage coverage_ref none none d h,
        is_fired-fired d.decision f,
      ))
  fired-held (some i) coverage coverage_ref d h f =
      let (v, p, above) =
        matches-above i
          ((fired_iff print policy_id rule coverage coverage_ref none (some i) d h).0
            (is_fired-fired d.decision f)).1 in
      subst (λ o. not_cleared rule.hysteresis o ≡ true)
        (sym
          ((decision-carries print policy_id rule coverage coverage_ref none (some i) d h).3 ∙ p))
        (not_cleared-above v above)

  -- A threshold rule with the operator `>`, whose hysteresis clears below a value that is not
  -- above its own, never fires a second time: once the state remembers a fire of it, no call fires
  -- it, whatever it observes, and the state stays as it is.
  pub fires_once :
      (input : Option TriggerInput) (coverage : Option RecorderSignalCoverage)
      (coverage_ref : Option String) (now last : ℕ) (state : TriggerRuntimeState)
      → last_fired rule.name state ≡ some last
      → (fires
            (trigger_decision_with_runtime_state print policy_id rule input coverage coverage_ref
              now state).0
          ≡ false)
        × ((trigger_decision_with_runtime_state print policy_id rule input coverage coverage_ref now
              state).1
            ≡ state)
  unfolding trigger_decision_with_runtime_state
  fires_once input coverage coverage_ref now last state h =
      with_state-held rule now state last _ h (fired-held input coverage coverage_ref)
