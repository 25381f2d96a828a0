-- ===== src/Trigger/Evaluate.antt =====
-- evaluate_trigger of crates/adc-core/src/trigger.rs and its helpers.
pub mod Errors
use agent_debug_compass.Prelude.{
  ℕ, String, Bool, true, false, Option, none, some, List, [], ◌∷◌, leb, any, if◌then◌else◌, ◌=ₛ◌,
}
use agent_debug_compass.Prelude.Float.{F64, lt, le, near}
use agent_debug_compass.Prelude.Text.{format, includes, to_ascii_lowercase}
use agent_debug_compass.Quality.{DataQuality, medium_quality, push_missing, push_note}
use agent_debug_compass.Error.{AdcResult, ok, err, profile_validation, ◌>>=◌}
use agent_debug_compass.Trigger.Model.{
  Printer, RuleType, threshold, threshold_duration, delta, delta_rate, missing_sample, kmsg_pattern,
  burst, baseline_deviation, sequence_pattern, TriggerRule, TriggerInput, TriggerEvaluation,
  TriggerKind,
}
use agent_debug_compass.Trigger.Rules.{
  or_else, unwrap_or, trigger_kind_for, trigger_kind_for_rule, severity_rank, severity_at_least,
  names_signal, pick, compare_with, lasts,
}

abbrev pub show_rule_type : RuleType → String
show_rule_type threshold = "Threshold"
show_rule_type threshold_duration = "ThresholdDuration"
show_rule_type delta = "Delta"
show_rule_type delta_rate = "DeltaRate"
show_rule_type missing_sample = "MissingSample"
show_rule_type kmsg_pattern = "KmsgPattern"
show_rule_type burst = "Burst"
show_rule_type baseline_deviation = "BaselineDeviation"
show_rule_type sequence_pattern = "SequencePattern"

-- The helpers take the quality that the source's `&mut` points to and answer it changed.
-- `patterns.iter().any(|pattern| text.contains(&pattern.to_ascii_lowercase()))`
unfoldable pub matches_pattern : List String → String → Bool
unfolding to_ascii_lowercase
matches_pattern patterns text =
    any (λ pattern. includes (to_ascii_lowercase text) (to_ascii_lowercase pattern)) patterns

unfoldable pub match_text : TriggerRule → TriggerInput → DataQuality → Bool × DataQuality
unfolding matches_pattern
match_text rule input q = elim input.text [
  | none ↦ (false, push_missing "kmsg trigger text" q)
  | some text ↦ elim (matches_pattern rule.patterns text) [
    | true ↦ (true, q)
    | false ↦ (false, push_note "no pattern matched observed kmsg text" q)
  ]
]

needs_evaluator : RuleType → DataQuality → Bool × DataQuality
unfolding format
needs_evaluator t q = (
  false,
  push_note
      (format (
        "trigger type "
        ∷ show_rule_type t
        ∷ " is parsed but requires a collector-specific evaluator"
        ∷ []))
      q,
)

is_none : Option F64 → Bool
is_none none = true
is_none (some x) = false

-- `match op`, an operator that is none of the five being an error
unfoldable pub numeric_result :
    TriggerRule → TriggerInput → DataQuality → Option Bool → AdcResult (Bool × DataQuality)
unfolding lasts format
numeric_result rule input q none =
    err (profile_validation (format ("unsupported trigger op: " ∷ unwrap_or ">" rule.op ∷ [])))
numeric_result rule input q (some false) = ok (false, q)
numeric_result rule input q (some true) = ok (lasts rule input, q)

unfoldable pub numeric_limit :
    TriggerRule → TriggerInput → F64 → DataQuality → Option F64 → AdcResult (Bool × DataQuality)
unfolding numeric_result compare_with format
numeric_limit rule input actual q none =
    err (profile_validation (format ("trigger " ∷ rule.name ∷ " missing numeric value" ∷ [])))
numeric_limit rule input actual q (some limit) =
    numeric_result rule input q (compare_with (unwrap_or ">" rule.op) actual limit)

abbrev pub numeric_value :
    TriggerRule → TriggerInput → DataQuality → Option F64 → AdcResult (Bool × DataQuality)
numeric_value rule input q none = ok (false, push_missing "numeric trigger input value" q)
numeric_value rule input q (some actual) = numeric_limit rule input actual q rule.value

module _ (print : Printer) where
  -- `{:?}` of an Option<String>
  unfoldable pub debug_option : Option String → String
  unfolding format
  debug_option none = "None"
  debug_option (some s) = format ("Some(" ∷ print.debug_text s ∷ ")" ∷ [])

  -- The argument says whether the input is of the rule's signal.
  unfoldable pub numeric_named :
      TriggerRule → TriggerInput → DataQuality → Bool → AdcResult (Bool × DataQuality)
  unfolding numeric_limit debug_option format
  numeric_named rule input q false = ok (
    false,
    push_note
        (format (
          "input signal "
          ∷ input.signal
          ∷ " did not match trigger signal "
          ∷ debug_option rule.signal
          ∷ []))
        q,
  )
  numeric_named rule input q true = numeric_value rule input q input.value

  unfoldable pub evaluate_numeric_rule :
      TriggerRule → TriggerInput → DataQuality → AdcResult (Bool × DataQuality)
  unfolding numeric_named names_signal
  evaluate_numeric_rule rule input q =
      numeric_named rule input q (names_signal rule.signal input.signal)

  unfoldable pub evaluate_kmsg_rule : TriggerRule → TriggerInput → DataQuality → Bool × DataQuality
  unfolding match_text debug_option severity_at_least format
  evaluate_kmsg_rule rule input q = elim rule.severity_at_least [
    | none ↦ match_text rule input q
    | some required ↦ elim (severity_at_least input.severity required) [
      | true ↦ match_text rule input q
      | false ↦ (
        false,
        push_note
            (format (
              "severity "
              ∷ debug_option input.severity
              ∷ " is below required severity "
              ∷ required
              ∷ []))
            q,
      )
    ]
  ]

  unfoldable pub matched_by :
      RuleType → TriggerRule → TriggerInput → DataQuality → AdcResult (Bool × DataQuality)
  unfolding evaluate_numeric_rule evaluate_kmsg_rule needs_evaluator is_none
  matched_by threshold rule input q = evaluate_numeric_rule rule input q
  matched_by threshold_duration rule input q = evaluate_numeric_rule rule input q
  matched_by delta rule input q = evaluate_numeric_rule rule input q
  matched_by delta_rate rule input q = evaluate_numeric_rule rule input q
  matched_by kmsg_pattern rule input q = ok (evaluate_kmsg_rule rule input q)
  matched_by missing_sample rule input q = ok (is_none input.value, q)
  matched_by burst rule input q = ok (needs_evaluator burst q)
  matched_by baseline_deviation rule input q = ok (needs_evaluator baseline_deviation q)
  matched_by sequence_pattern rule input q = ok (needs_evaluator sequence_pattern q)

  unfoldable pub matched_reason : TriggerRule → TriggerInput → String
  unfolding format
  matched_reason rule input = elim input.value [
    | some value ↦ format (
        "observed "
        ∷ input.signal
        ∷ " value "
        ∷ print.display_f64 value
        ∷ " matched trigger "
        ∷ rule.name
        ∷ [])
    | none ↦ format ("observed input matched trigger " ∷ rule.name ∷ [])
  ]

  unfoldable pub evaluation_of : TriggerRule → TriggerInput → Bool × DataQuality → TriggerEvaluation
  unfolding matched_reason format
  evaluation_of rule input (matched, q) = record {
    trigger_name = rule.name;
    matched = matched;
    reason =
        if matched
        then matched_reason rule input
        else format ("trigger " ∷ rule.name ∷ " did not match observed input" ∷ []);
    capture_profile = rule.capture_profile;
    data_quality = q;
  }

  unfoldable pub evaluate_trigger : TriggerRule → TriggerInput → AdcResult TriggerEvaluation
  unfolding evaluation_of matched_by
  evaluate_trigger rule input =
      matched_by rule.rule_type rule input medium_quality >>= λ r. ok (evaluation_of rule input r)
