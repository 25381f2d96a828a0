-- ===== src/Conditions/Evaluate.antt =====
-- evaluate_route_condition of crates/adc-core/src/route_conditions.rs.
use agent_debug_compass.Prelude.{
  String, Bool, true, false, not, Option, none, some, List, [], ◌∷◌, ◌++◌, any, is_empty, leb,
  if◌then◌else◌, ◌=ₛ◌,
}
use agent_debug_compass.Prelude.Float.{F64}
use agent_debug_compass.Prelude.Float
use agent_debug_compass.Prelude.Text.{format}
use agent_debug_compass.Quality.{DataQuality, medium_quality}
use agent_debug_compass.Conditions.{
  Json, EvidenceFact, RouteConditionExpr, Expressions, ConditionStatus, matched, not_matched,
  unknown, RouteConditionEvaluation, eq, neq, exists, missing, gt, gte, lt, lte, contains_key,
  bucket_count_gte, any_of, all_of, not_of, nil, cons,
}
use agent_debug_compass.Conditions.Merge.{merge_data_quality, sort, dedup}

abbrev pub as_str : ConditionStatus → String
as_str matched = "matched"
as_str not_matched = "not_matched"
as_str unknown = "unknown"

abbrev pub is_matched : ConditionStatus → Bool
is_matched matched = true
is_matched not_matched = false
is_matched unknown = false

abbrev pub is_not_matched : ConditionStatus → Bool
is_not_matched matched = false
is_not_matched not_matched = true
is_not_matched unknown = false

abbrev pub is_unknown : ConditionStatus → Bool
is_unknown matched = false
is_unknown not_matched = false
is_unknown unknown = true

-- The status that `Not` answers with.
abbrev pub negated : ConditionStatus → ConditionStatus
negated matched = not_matched
negated not_matched = matched
negated unknown = unknown

module _ {V : Type 0} where
  abbrev pub filter : (EvidenceFact V → Bool) → List (EvidenceFact V) → List (EvidenceFact V)
  filter p [] = []
  filter p (fact ∷ facts) = let rest = filter p facts in if p fact then fact ∷ rest else rest

  abbrev pub facts_for_id : List (EvidenceFact V) → String → List (EvidenceFact V)
  facts_for_id facts fact_id = filter (λ fact. fact.fact_id =ₛ fact_id) facts

  abbrev pub merge_facts : DataQuality → List (EvidenceFact V) → DataQuality
  merge_facts q [] = q
  merge_facts q (fact ∷ facts) = merge_facts (merge_data_quality q fact.data_quality) facts

  abbrev pub matched_with : String → List (EvidenceFact V) → RouteConditionEvaluation V
  matched_with condition_id matched_facts = record {
    condition_id = condition_id;
    status = matched;
    matched_facts = matched_facts;
    missing_fact_ids = [];
    data_quality = merge_facts medium_quality matched_facts;
    explanation = "predicate matched typed fact(s)";
  }

  abbrev pub not_matched_at : String → RouteConditionEvaluation V
  not_matched_at condition_id = record {
    condition_id = condition_id;
    status = not_matched;
    matched_facts = [];
    missing_fact_ids = [];
    data_quality = medium_quality;
    explanation = "typed fact(s) were present but predicate did not match";
  }

  abbrev pub unknown_for : String → List String → RouteConditionEvaluation V
  unknown_for condition_id missing_fact_ids = record {
    condition_id = condition_id;
    status = unknown;
    matched_facts = [];
    missing_fact_ids = missing_fact_ids;
    data_quality = medium_quality;
    explanation = "required typed fact(s) were missing";
  }

  abbrev pub match_or_not : String → List (EvidenceFact V) → RouteConditionEvaluation V
  match_or_not condition_id [] = not_matched_at condition_id
  match_or_not condition_id (fact ∷ facts) = matched_with condition_id (fact ∷ facts)

  -- The argument is `facts_for_id`'s answer.
  abbrev pub match_facts :
      String → String → (EvidenceFact V → Bool) → List (EvidenceFact V) → RouteConditionEvaluation V
  match_facts condition_id fact_id p [] = unknown_for condition_id (fact_id ∷ [])
  match_facts condition_id fact_id p (fact ∷ facts) =
      match_or_not condition_id (filter p (fact ∷ facts))

  unfoldable pub evaluate_fact_match :
      String → List (EvidenceFact V) → String → (EvidenceFact V → Bool) → RouteConditionEvaluation V
  evaluate_fact_match condition_id facts fact_id p =
      match_facts condition_id fact_id p (facts_for_id facts fact_id)

  abbrev pub has_missing : EvidenceFact V → Bool
  has_missing fact = not (is_empty fact.data_quality.missing)

  -- `Missing` answers with all facts of the id where one of them misses something.
  abbrev pub match_missing : String → String → List (EvidenceFact V) → RouteConditionEvaluation V
  match_missing condition_id fact_id [] = unknown_for condition_id (fact_id ∷ [])
  match_missing condition_id fact_id (fact ∷ facts) =
      if any has_missing (fact ∷ facts)
      then matched_with condition_id (fact ∷ facts)
      else not_matched_at condition_id

  -- What `combine` gathers from the evaluations, from the first on.
  abbrev pub gather :
      List (RouteConditionEvaluation V) → RouteConditionEvaluation V → RouteConditionEvaluation V
  gather [] r = r
  gather (e ∷ es) r = gather es (record r {
    matched_facts = r.matched_facts ++ e.matched_facts;
    missing_fact_ids = r.missing_fact_ids ++ e.missing_fact_ids;
    data_quality = merge_data_quality r.data_quality e.data_quality;
  })

  unfoldable pub combine :
      String → ConditionStatus → List (RouteConditionEvaluation V) → RouteConditionEvaluation V
  combine condition_id status evaluations = gather evaluations (record {
    condition_id = condition_id;
    status = status;
    matched_facts = [];
    missing_fact_ids = [];
    data_quality = medium_quality;
    explanation = as_str status;
  })

  -- The status of `evaluate_any` and that of `evaluate_all`, by the statuses of the parts.
  unfoldable pub any_status : List (RouteConditionEvaluation V) → ConditionStatus
  any_status es =
      if any (λ e. is_matched e.status) es
      then matched
      else if any (λ e. is_unknown e.status) es
      then unknown
      else not_matched

  unfoldable pub all_status : List (RouteConditionEvaluation V) → ConditionStatus
  all_status es =
      if any (λ e. is_not_matched e.status) es
      then not_matched
      else if any (λ e. is_unknown e.status) es
      then unknown
      else matched

abbrev pub is_some_and {ℓ} : {A : Type ℓ} → (A → Bool) → Option A → Bool
is_some_and p none = false
is_some_and p (some a) = p a

module _ {V : Type 0} (json : Json V) (condition_id : String) (facts : List (EvidenceFact V)) where
  abbrev pub evaluate_numeric : String → (F64 → Bool) → RouteConditionEvaluation V
  unfolding evaluate_fact_match
  evaluate_numeric fact_id p =
      evaluate_fact_match condition_id facts fact_id
        (λ fact. is_some_and p (json.as_f64 fact.value))

  unfoldable mutual
    unfolding evaluate_fact_match combine any_status all_status format Float.lt Float.le

    pub evaluate_expr : RouteConditionExpr V → RouteConditionEvaluation V
    evaluate_expr (eq fact_id value) =
        evaluate_fact_match condition_id facts fact_id (λ fact. json.equals fact.value value)
    evaluate_expr (neq fact_id value) =
        evaluate_fact_match condition_id facts fact_id (λ fact. not (json.equals fact.value value))
    evaluate_expr (exists fact_id) = evaluate_fact_match condition_id facts fact_id (λ fact. true)
    evaluate_expr (missing fact_id) =
        match_missing condition_id fact_id (facts_for_id facts fact_id)
    evaluate_expr (gt fact_id value) = evaluate_numeric fact_id (λ actual. Float.lt value actual)
    evaluate_expr (gte fact_id value) = evaluate_numeric fact_id (λ actual. Float.le value actual)
    evaluate_expr (lt fact_id value) = evaluate_numeric fact_id (λ actual. Float.lt actual value)
    evaluate_expr (lte fact_id value) = evaluate_numeric fact_id (λ actual. Float.le actual value)
    evaluate_expr (contains_key fact_id key) =
        evaluate_fact_match condition_id facts fact_id (λ fact. json.has_key fact.value key)
    evaluate_expr (bucket_count_gte fact_id key value) =
        evaluate_fact_match condition_id facts fact_id
          (λ fact. is_some_and (λ actual. leb value actual) (json.get_u64 fact.value key))
    evaluate_expr (any_of expressions) =
        let evaluations = evaluate_each expressions in
        combine condition_id (any_status evaluations) evaluations
    evaluate_expr (all_of expressions) =
        let evaluations = evaluate_each expressions in
        combine condition_id (all_status evaluations) evaluations
    evaluate_expr (not_of expression) =
        let inner = evaluate_expr expression in
        record inner {
          status = negated inner.status;
          explanation = format ("not(" ∷ inner.explanation ∷ ")" ∷ []);
        }

    pub evaluate_each : Expressions V → List (RouteConditionEvaluation V)
    evaluate_each nil = []
    evaluate_each (cons e es) = evaluate_expr e ∷ evaluate_each es

  unfoldable pub evaluate_route_condition : RouteConditionExpr V → RouteConditionEvaluation V
  unfolding evaluate_expr sort
  evaluate_route_condition expression =
      let evaluation = evaluate_expr expression in
      record evaluation { missing_fact_ids = dedup (sort evaluation.missing_fact_ids) }
