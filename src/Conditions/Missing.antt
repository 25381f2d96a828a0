-- ===== src/Conditions/Missing.antt =====
-- What an evaluation of crates/adc-core/src/route_conditions.rs says is missing.
use agent_debug_compass.Prelude.{
  String, Bool, true, false, List, [], ◌∷◌, ◌++◌, ◌≡◌, refl, sym, ◌∙◌, arith, any, is_empty, All,
  All-append, Bool-cases, inl, inr, if◌then◌else◌,
}
use agent_debug_compass.Conditions.{
  Json, EvidenceFact, RouteConditionExpr, Expressions, ConditionStatus, unknown,
  RouteConditionEvaluation, eq, neq, exists, missing, gt, gte, lt, lte, contains_key,
  bucket_count_gte, any_of, all_of, not_of, nil, cons,
}
use agent_debug_compass.Conditions.Kleene.{gather-status}
use agent_debug_compass.Conditions.Merge.{All-sort, All-dedup, is_empty-dedup-sort, sort}
use agent_debug_compass.Conditions.Evaluate.{
  negated, filter, facts_for_id, match_or_not, match_facts, evaluate_fact_match, match_missing,
  gather, combine, any_status, all_status, is_unknown, evaluate_expr, evaluate_each,
  evaluate_route_condition, matched_with, not_matched_at, has_missing,
}

module _ {V : Type 0} where
  -- Every id that is named missing has no fact, and where the status is unknown some id is named.
  pub record NamesMissing (facts : List (EvidenceFact V)) (r : RouteConditionEvaluation V)
      : Type 0 where
    pub absent : All (λ id. is_empty (facts_for_id facts id) ≡ true) r.missing_fact_ids
    pub named : r.status ≡ unknown → is_empty r.missing_fact_ids ≡ false

module _ {V : Type 0} (facts : List (EvidenceFact V)) (c : String) where
  match_or_not-NamesMissing : (fs : List (EvidenceFact V)) → NamesMissing facts (match_or_not c fs)
  match_or_not-NamesMissing [] = record { absent = tt; named = λ h. ground arith }
  match_or_not-NamesMissing (f ∷ fs) = record { absent = tt; named = λ h. ground arith }

  match_facts-NamesMissing :
      (id : String) (p : EvidenceFact V → Bool) (fs : List (EvidenceFact V))
      → is_empty (facts_for_id facts id) ≡ is_empty fs
      → NamesMissing facts (match_facts c id p fs)
  match_facts-NamesMissing id p [] h = record { absent = (h, tt); named = λ e. refl }
  match_facts-NamesMissing id p (f ∷ fs) h = match_or_not-NamesMissing (filter p (f ∷ fs))

  if-NamesMissing :
      (b : Bool) (fs : List (EvidenceFact V))
      → NamesMissing facts (if b then matched_with c fs else not_matched_at c)
  if-NamesMissing true fs = record { absent = tt; named = λ h. ground arith }
  if-NamesMissing false fs = record { absent = tt; named = λ h. ground arith }

  match_missing-NamesMissing :
      (id : String) (fs : List (EvidenceFact V))
      → is_empty (facts_for_id facts id) ≡ is_empty fs
      → NamesMissing facts (match_missing c id fs)
  match_missing-NamesMissing id [] h = record { absent = (h, tt); named = λ e. refl }
  match_missing-NamesMissing id (f ∷ fs) h = if-NamesMissing (any has_missing (f ∷ fs)) (f ∷ fs)

  gather-absent :
      (es : List (RouteConditionEvaluation V)) (r : RouteConditionEvaluation V)
      → All (NamesMissing facts) es
      → All (λ id. is_empty (facts_for_id facts id) ≡ true) r.missing_fact_ids
      → All (λ id. is_empty (facts_for_id facts id) ≡ true) (gather es r).missing_fact_ids
  gather-absent [] r h k = k
  gather-absent (e ∷ es) r h k = gather-absent es _ h.1 (
      All-append (λ id. is_empty (facts_for_id facts id) ≡ true) r.missing_fact_ids
        e.missing_fact_ids k h.0.absent)

is_unknown-unknown : (s : ConditionStatus) → is_unknown s ≡ true → s ≡ unknown
is_unknown-unknown s h = ground arith

negated-unknown : (s : ConditionStatus) → negated s ≡ unknown → s ≡ unknown
negated-unknown s h = ground arith

is_empty-append :
    (xs ys : List String) → is_empty (xs ++ ys) ≡ (if is_empty xs then is_empty ys else false)
is_empty-append [] ys = refl
is_empty-append (x ∷ xs) ys = refl

module _ {V : Type 0} where
  gather-kept :
      (es : List (RouteConditionEvaluation V)) (r : RouteConditionEvaluation V)
      → is_empty r.missing_fact_ids ≡ false
      → is_empty (gather es r).missing_fact_ids ≡ false
  gather-kept [] r h = h
  gather-kept (e ∷ es) r h =
      gather-kept es _ (ground (arith, is_empty-append r.missing_fact_ids e.missing_fact_ids))

  gather-named :
      (facts : List (EvidenceFact V)) (es : List (RouteConditionEvaluation V))
      (r : RouteConditionEvaluation V)
      → All (NamesMissing facts) es
      → any (λ e. is_unknown e.status) es ≡ true
      → is_empty (gather es r).missing_fact_ids ≡ false
  gather-named facts [] r h u = ground arith
  gather-named facts (e ∷ es) r h u = elim (Bool-cases (is_unknown e.status)) [
    | inl k ↦ gather-kept es _ (
        ground (
          arith,
          is_empty-append r.missing_fact_ids e.missing_fact_ids,
          h.0.named (is_unknown-unknown e.status k),
        ))
    | inr k ↦ gather-named facts es _ h.1 (ground arith)
  ]

  any_status-unknown :
      (es : List (RouteConditionEvaluation V))
      → any_status es ≡ unknown
      → any (λ e. is_unknown e.status) es ≡ true
  unfolding any_status
  any_status-unknown es h = ground arith

  all_status-unknown :
      (es : List (RouteConditionEvaluation V))
      → all_status es ≡ unknown
      → any (λ e. is_unknown e.status) es ≡ true
  unfolding all_status
  all_status-unknown es h = ground arith

module _ {V : Type 0} (json : Json V) (c : String) (facts : List (EvidenceFact V)) where
  combine-NamesMissing :
      (s : ConditionStatus) (es : List (RouteConditionEvaluation V))
      → All (NamesMissing facts) es
      → (s ≡ unknown → any (λ e. is_unknown e.status) es ≡ true)
      → NamesMissing facts (combine c s es)
  unfolding combine
  combine-NamesMissing s es h u = record {
    absent = gather-absent facts c es _ h tt;
    named = λ e. gather-named facts es _ h (u (sym (gather-status es _) ∙ e));
  }

  mutual
    unfolding evaluate_expr evaluate_fact_match

    expr-NamesMissing :
        (e : RouteConditionExpr V) → NamesMissing facts (evaluate_expr json c facts e)
    expr-NamesMissing (eq id v) = match_facts-NamesMissing facts c id _ _ refl
    expr-NamesMissing (neq id v) = match_facts-NamesMissing facts c id _ _ refl
    expr-NamesMissing (exists id) = match_facts-NamesMissing facts c id (λ fact. true) _ refl
    expr-NamesMissing (missing id) = match_missing-NamesMissing facts c id _ refl
    expr-NamesMissing (gt id v) = match_facts-NamesMissing facts c id _ _ refl
    expr-NamesMissing (gte id v) = match_facts-NamesMissing facts c id _ _ refl
    expr-NamesMissing (lt id v) = match_facts-NamesMissing facts c id _ _ refl
    expr-NamesMissing (lte id v) = match_facts-NamesMissing facts c id _ _ refl
    expr-NamesMissing (contains_key id key) = match_facts-NamesMissing facts c id _ _ refl
    expr-NamesMissing (bucket_count_gte id key v) = match_facts-NamesMissing facts c id _ _ refl
    expr-NamesMissing (any_of es) =
        combine-NamesMissing _ _ (each-NamesMissing es)
          (any_status-unknown (evaluate_each json c facts es))
    expr-NamesMissing (all_of es) =
        combine-NamesMissing _ _ (each-NamesMissing es)
          (all_status-unknown (evaluate_each json c facts es))
    expr-NamesMissing (not_of e) =
        let inner = expr-NamesMissing e in
        record { absent = inner.absent; named = λ h. inner.named (negated-unknown _ h) }

    each-NamesMissing :
        (es : Expressions V) → All (NamesMissing facts) (evaluate_each json c facts es)
    each-NamesMissing nil = tt
    each-NamesMissing (cons e es) = (expr-NamesMissing e, each-NamesMissing es)

  -- The evaluation of a condition names as missing only ids that no fact has, and names at least one
  -- where the status is unknown.
  pub evaluate_route_condition-NamesMissing :
      (e : RouteConditionExpr V) → NamesMissing facts (evaluate_route_condition json c facts e)
  unfolding evaluate_route_condition
  evaluate_route_condition-NamesMissing e =
      let r = evaluate_expr json c facts e in
      let inner = expr-NamesMissing e in
      record {
        absent = All-dedup _ (sort r.missing_fact_ids) (All-sort _ r.missing_fact_ids inner.absent);
        named = λ h. is_empty-dedup-sort r.missing_fact_ids ∙ inner.named h;
      }
