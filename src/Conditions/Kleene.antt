-- ===== src/Conditions/Kleene.antt =====
-- The status of a route condition in three-valued logic, where `unknown` stands for a fact that is
-- not there (crates/adc-core/src/route_conditions.rs).
use agent_debug_compass.Prelude.{
  String, Bool, true, not, List, [], ◌∷◌, ◌≡◌, refl, ap, ◌∙◌, arith, is_empty, leb,
}
use agent_debug_compass.Prelude.Float.{F64}
use agent_debug_compass.Prelude.Float
use agent_debug_compass.Conditions.{
  Json, EvidenceFact, RouteConditionExpr, Expressions, ConditionStatus, matched, not_matched,
  unknown, RouteConditionEvaluation, eq, neq, exists, missing, gt, gte, lt, lte, contains_key,
  bucket_count_gte, any_of, all_of, not_of, nil, cons,
}
use agent_debug_compass.Conditions.Facts.{
  some_fact, evaluate_fact_match-status, match_missing-some_fact,
}
use agent_debug_compass.Conditions.Evaluate.{
  negated, gather, combine, any_status, all_status, is_some_and, evaluate_expr, evaluate_each,
  evaluate_route_condition,
}

-- The strongest of the two, and the weakest.
abbrev pub or_status : ConditionStatus → ConditionStatus → ConditionStatus
or_status matched s = matched
or_status not_matched s = s
or_status unknown matched = matched
or_status unknown not_matched = unknown
or_status unknown unknown = unknown

abbrev pub and_status : ConditionStatus → ConditionStatus → ConditionStatus
and_status not_matched s = not_matched
and_status matched s = s
and_status unknown not_matched = not_matched
and_status unknown matched = unknown
and_status unknown unknown = unknown

-- The opposite, where `unknown` is its own.
abbrev pub not_status : ConditionStatus → ConditionStatus
not_status matched = not_matched
not_status not_matched = matched
not_status unknown = unknown

negated-not_status : (s : ConditionStatus) → negated s ≡ not_status s
negated-not_status matched = refl
negated-not_status not_matched = refl
negated-not_status unknown = refl

module _ {V : Type 0} (json : Json V) (facts : List (EvidenceFact V)) where
  abbrev number : (F64 → Bool) → EvidenceFact V → Bool
  number p fact = is_some_and p (json.as_f64 fact.value)

  unfoldable mutual
    unfolding Float.lt Float.le

    pub truth : RouteConditionExpr V → ConditionStatus
    truth (eq id v) = some_fact facts id (λ fact. json.equals fact.value v)
    truth (neq id v) = some_fact facts id (λ fact. not (json.equals fact.value v))
    truth (exists id) = some_fact facts id (λ fact. true)
    truth (missing id) = some_fact facts id (λ fact. not (is_empty fact.data_quality.missing))
    truth (gt id v) = some_fact facts id (number (λ actual. Float.lt v actual))
    truth (gte id v) = some_fact facts id (number (λ actual. Float.le v actual))
    truth (lt id v) = some_fact facts id (number (λ actual. Float.lt actual v))
    truth (lte id v) = some_fact facts id (number (λ actual. Float.le actual v))
    truth (contains_key id key) = some_fact facts id (λ fact. json.has_key fact.value key)
    truth (bucket_count_gte id key v) =
        some_fact facts id
          (λ fact. is_some_and (λ actual. leb v actual) (json.get_u64 fact.value key))
    truth (any_of es) = any_truth es
    truth (all_of es) = all_truth es
    truth (not_of e) = not_status (truth e)

    pub any_truth : Expressions V → ConditionStatus
    any_truth nil = not_matched
    any_truth (cons e es) = or_status (truth e) (any_truth es)

    pub all_truth : Expressions V → ConditionStatus
    all_truth nil = matched
    all_truth (cons e es) = and_status (truth e) (all_truth es)

module _ {V : Type 0} where
  pub gather-status :
      (es : List (RouteConditionEvaluation V)) (r : RouteConditionEvaluation V)
      → (gather es r).status ≡ r.status
  gather-status [] r = refl
  gather-status (e ∷ es) r = gather-status es _

  any_status-cons :
      (e : RouteConditionEvaluation V) (es : List (RouteConditionEvaluation V))
      → any_status (e ∷ es) ≡ or_status e.status (any_status es)
  unfolding any_status
  any_status-cons e es = ground arith

  all_status-cons :
      (e : RouteConditionEvaluation V) (es : List (RouteConditionEvaluation V))
      → all_status (e ∷ es) ≡ and_status e.status (all_status es)
  unfolding all_status
  all_status-cons e es = ground arith

  combine-status :
      (c : String) (s : ConditionStatus) (es : List (RouteConditionEvaluation V))
      → (combine c s es).status ≡ s
  unfolding combine
  combine-status c s es = gather-status es _

module _ {V : Type 0} (json : Json V) (c : String) (facts : List (EvidenceFact V)) where
  mutual
    unfolding evaluate_expr truth

    evaluate_expr-truth :
        (e : RouteConditionExpr V) → (evaluate_expr json c facts e).status ≡ truth json facts e
    evaluate_expr-truth (eq id v) = evaluate_fact_match-status c facts id _
    evaluate_expr-truth (neq id v) = evaluate_fact_match-status c facts id _
    evaluate_expr-truth (exists id) = evaluate_fact_match-status c facts id _
    evaluate_expr-truth (missing id) = match_missing-some_fact c facts id
    evaluate_expr-truth (gt id v) = evaluate_fact_match-status c facts id _
    evaluate_expr-truth (gte id v) = evaluate_fact_match-status c facts id _
    evaluate_expr-truth (lt id v) = evaluate_fact_match-status c facts id _
    evaluate_expr-truth (lte id v) = evaluate_fact_match-status c facts id _
    evaluate_expr-truth (contains_key id key) = evaluate_fact_match-status c facts id _
    evaluate_expr-truth (bucket_count_gte id key v) = evaluate_fact_match-status c facts id _
    evaluate_expr-truth (any_of es) =
        combine-status c _ (evaluate_each json c facts es) ∙ any-truth es
    evaluate_expr-truth (all_of es) =
        combine-status c _ (evaluate_each json c facts es) ∙ all-truth es
    evaluate_expr-truth (not_of e) =
        ap negated (evaluate_expr-truth e) ∙ negated-not_status (truth json facts e)

    any-truth :
        (es : Expressions V) → any_status (evaluate_each json c facts es) ≡ any_truth json facts es
    any-truth nil = refl
    any-truth (cons e es) =
        any_status-cons (evaluate_expr json c facts e) (evaluate_each json c facts es)
        ∙ ap (λ s. or_status s (any_status (evaluate_each json c facts es))) (evaluate_expr-truth e)
        ∙ ap (or_status (truth json facts e)) (any-truth es)

    all-truth :
        (es : Expressions V) → all_status (evaluate_each json c facts es) ≡ all_truth json facts es
    all-truth nil = refl
    all-truth (cons e es) =
        all_status-cons (evaluate_expr json c facts e) (evaluate_each json c facts es)
        ∙ ap (λ s. and_status s (all_status (evaluate_each json c facts es)))
            (evaluate_expr-truth e)
        ∙ ap (and_status (truth json facts e)) (all-truth es)

  -- The status of a condition is its truth value in Kleene's three-valued logic: a test of a fact is
  -- unknown where there is no fact of the id, an `any` and an `all` are the strongest and the weakest
  -- of their parts, also of none, and a negation keeps what is unknown.
  pub evaluate_route_condition-truth :
      (e : RouteConditionExpr V)
      → (evaluate_route_condition json c facts e).status ≡ truth json facts e
  unfolding evaluate_route_condition
  evaluate_route_condition-truth e = evaluate_expr-truth e
