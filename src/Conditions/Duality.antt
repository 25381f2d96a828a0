-- ===== src/Conditions/Duality.antt =====
-- Negation of route conditions (crates/adc-core/src/route_conditions.rs).
use agent_debug_compass.Prelude.{String, List, ◌≡◌, refl, sym, ap, ◌∙◌}
use agent_debug_compass.Conditions.{
  Json, EvidenceFact, Expressions, any_of, all_of, not_of, nil, cons, ConditionStatus, matched,
  not_matched, unknown,
}
use agent_debug_compass.Conditions.Evaluate.{evaluate_route_condition}
use agent_debug_compass.Conditions.Kleene.{
  or_status, and_status, not_status, truth, any_truth, all_truth, evaluate_route_condition-truth,
}

abbrev pub negate_each : {V : Type 0} → Expressions V → Expressions V
negate_each nil = nil
negate_each (cons e es) = cons (not_of e) (negate_each es)

not_status-or_status :
    (a b : ConditionStatus) → not_status (or_status a b) ≡ and_status (not_status a) (not_status b)
not_status-or_status matched b = refl
not_status-or_status not_matched b = refl
not_status-or_status unknown matched = refl
not_status-or_status unknown not_matched = refl
not_status-or_status unknown unknown = refl

module _ {V : Type 0} (json : Json V) (facts : List (EvidenceFact V)) where
  not_status-any_truth :
      (es : Expressions V)
      → not_status (any_truth json facts es) ≡ all_truth json facts (negate_each es)
  unfolding truth
  not_status-any_truth nil = refl
  not_status-any_truth (cons e es) =
      not_status-or_status (truth json facts e) (any_truth json facts es)
      ∙ ap (and_status (not_status (truth json facts e))) (not_status-any_truth es)

  -- A negated `any` has the status of the `all` of the negated parts, also where facts are missing.
  pub not-any :
      (c : String) (es : Expressions V)
      → (evaluate_route_condition json c facts (not_of (any_of es))).status
        ≡ (evaluate_route_condition json c facts (all_of (negate_each es))).status
  unfolding truth
  not-any c es =
      evaluate_route_condition-truth json c facts (not_of (any_of es))
      ∙ not_status-any_truth es
      ∙ sym (evaluate_route_condition-truth json c facts (all_of (negate_each es)))
