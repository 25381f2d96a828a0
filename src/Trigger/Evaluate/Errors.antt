-- ===== src/Trigger/Evaluate/Errors.antt =====
-- The rules that evaluate_trigger of crates/adc-core/src/trigger.rs refuses.
use agent_debug_compass.Prelude.{
  String, Bool, true, false, ◌&&◌, not, Option, none, some, List, [], ◌∷◌, ◌≡◌, refl, arith, ap,
  ◌∙◌,
}
use agent_debug_compass.Prelude.Float.{F64, lt, le, near}
use agent_debug_compass.Prelude.Text.{contains}
use agent_debug_compass.Quality.{DataQuality, medium_quality}
use agent_debug_compass.Error.{AdcResult, ok, err, ◌>>=◌}
use agent_debug_compass.Trigger.Model.{
  Printer, RuleType, threshold, threshold_duration, delta, delta_rate, missing_sample, kmsg_pattern,
  burst, baseline_deviation, sequence_pattern, TriggerRule, TriggerInput,
}
use agent_debug_compass.Trigger.Evaluate.{
  evaluate_trigger, matched_by, evaluate_numeric_rule, numeric_named, numeric_value, numeric_limit,
  numeric_result, evaluation_of,
}
use agent_debug_compass.Trigger.Rules.{compare_with, pick, names_signal, unwrap_or}

abbrev pub fails {ℓ} : {A : Type ℓ} → AdcResult A → Bool
fails (ok a) = false
fails (err x) = true

abbrev pub is_some {ℓ} : {A : Type ℓ} → Option A → Bool
is_some none = false
is_some (some a) = true

abbrev pub operators : List String
operators = ">" ∷ ">=" ∷ "<" ∷ "<=" ∷ "==" ∷ []

-- The rule lacks a number to compare with, or its operator is none of the five; without an operator
-- it is `>`.
abbrev pub is_incomplete : TriggerRule → Bool
is_incomplete rule = not (is_some rule.value && contains operators (unwrap_or ">" rule.op))

abbrev pub is_numeric : RuleType → Bool
is_numeric threshold = true
is_numeric threshold_duration = true
is_numeric delta = true
is_numeric delta_rate = true
is_numeric missing_sample = false
is_numeric kmsg_pattern = false
is_numeric burst = false
is_numeric baseline_deviation = false
is_numeric sequence_pattern = false

pick-known : (op : String) (a b c d e : Bool) → is_some (pick op a b c d e) ≡ contains operators op
pick-known op a b c d e = ground arith

compare_with-known :
    (op : String) (a b : F64) → is_some (compare_with op a b) ≡ contains operators op
unfolding compare_with
compare_with-known op a b = pick-known op (lt b a) (le b a) (lt a b) (le a b) (near a b)

module _ (print : Printer) (rule : TriggerRule) (input : TriggerInput) where
  numeric_result-fails :
      (q : DataQuality) (o : Option Bool) → fails (numeric_result rule input q o) ≡ not (is_some o)
  unfolding numeric_result
  numeric_result-fails q none = refl
  numeric_result-fails q (some false) = refl
  numeric_result-fails q (some true) = refl

  numeric_limit-fails :
      (q : DataQuality) (v : F64) (l : Option F64)
      → fails (numeric_limit rule input v q l)
        ≡ not (is_some l && contains operators (unwrap_or ">" rule.op))
  unfolding numeric_limit
  numeric_limit-fails q v none = refl
  numeric_limit-fails q v (some l) =
      numeric_result-fails q _ ∙ ap not (compare_with-known (unwrap_or ">" rule.op) v l)

  numeric_value-fails :
      (q : DataQuality) (o : Option F64)
      → fails (numeric_value rule input q o) ≡ (is_some o && is_incomplete rule)
  numeric_value-fails q none = refl
  numeric_value-fails q (some v) = numeric_limit-fails q v rule.value

  numeric_named-fails :
      (q : DataQuality) (b : Bool)
      → fails (numeric_named print rule input q b)
        ≡ (b && (is_some input.value && is_incomplete rule))
  unfolding numeric_named
  numeric_named-fails q true = numeric_value-fails q input.value
  numeric_named-fails q false = refl

  matched_by-fails :
      (t : RuleType) (q : DataQuality)
      → fails (matched_by print t rule input q) ≡ (
          is_numeric t
          && (names_signal rule.signal input.signal && (is_some input.value && is_incomplete rule)))
  unfolding matched_by evaluate_numeric_rule
  matched_by-fails threshold q = numeric_named-fails q _
  matched_by-fails threshold_duration q = numeric_named-fails q _
  matched_by-fails delta q = numeric_named-fails q _
  matched_by-fails delta_rate q = numeric_named-fails q _
  matched_by-fails missing_sample q = refl
  matched_by-fails kmsg_pattern q = refl
  matched_by-fails burst q = refl
  matched_by-fails baseline_deviation q = refl
  matched_by-fails sequence_pattern q = refl

  evaluation-fails :
      (r : AdcResult (Bool × DataQuality))
      → fails (r >>= λ x. ok (evaluation_of print rule input x)) ≡ fails r
  evaluation-fails (ok r) = refl
  evaluation-fails (err x) = refl

  -- A rule's evaluation fails exactly when the rule is of a numeric type, the input is of its signal
  -- and has a value, and the rule has no value or an operator that is none of the five.
  pub evaluate_trigger-fails : fails (evaluate_trigger print rule input) ≡ (
      is_numeric rule.rule_type
      && (names_signal rule.signal input.signal && (is_some input.value && is_incomplete rule)))
  unfolding evaluate_trigger
  evaluate_trigger-fails = evaluation-fails _ ∙ matched_by-fails rule.rule_type medium_quality
