-- ===== src/Conditions/Facts.antt =====
-- The conditions on the facts of one id, in crates/adc-core/src/route_conditions.rs.
use agent_debug_compass.Prelude.{
  String, Bool, true, false, not, ◌&&◌, List, [], ◌∷◌, ◌≡◌, refl, ap, ◌∙◌, any, is_empty,
  Bool-cases, inl, inr, ◌||◌, if◌then◌else◌, ◌=ₛ◌,
}
use agent_debug_compass.Conditions.{EvidenceFact, ConditionStatus, matched, not_matched, unknown}
use agent_debug_compass.Conditions.Evaluate.{
  filter, facts_for_id, match_or_not, match_facts, evaluate_fact_match, has_missing, match_missing,
}

not-if :
    (b : Bool) → (if not b then not_matched else matched) ≡ (if b then matched else not_matched)
not-if true = refl
not-if false = refl

not-if_unknown :
    (b : Bool) → (if not b then unknown else not_matched) ≡ (if b then not_matched else unknown)
not-if_unknown true = refl
not-if_unknown false = refl

-- The status by whether there are facts, and whether one of them passes.
abbrev by_tests : Bool → Bool → ConditionStatus
by_tests passes none_there = if passes then matched else if none_there then unknown else not_matched

module _ {V : Type 0} where
  -- Whether some fact of the id satisfies a test, where there is one of the id at all.
  abbrev pub some_fact : List (EvidenceFact V) → String → (EvidenceFact V → Bool) → ConditionStatus
  some_fact facts fact_id p =
      if any (λ fact. (fact.fact_id =ₛ fact_id) && p fact) facts
      then matched
      else if any (λ fact. fact.fact_id =ₛ fact_id) facts
      then not_matched
      else unknown

  is_empty-filter :
      (p : EvidenceFact V → Bool) (fs : List (EvidenceFact V))
      → is_empty (filter p fs) ≡ not (any p fs)
  is_empty-filter p [] = refl
  is_empty-filter p (f ∷ fs) = elim (Bool-cases (p f)) [
    | inl e ↦ rw (e) refl
    | inr e ↦ rw (e) (is_empty-filter p fs)
  ]

  any-filter :
      (p q : EvidenceFact V → Bool) (fs : List (EvidenceFact V))
      → any q (filter p fs) ≡ any (λ f. p f && q f) fs
  any-filter p q [] = refl
  any-filter p q (f ∷ fs) = elim (Bool-cases (p f)) [
    | inl e ↦ rw (e) (ap (λ b. q f || b) (any-filter p q fs))
    | inr e ↦ rw (e) (any-filter p q fs)
  ]

  match_or_not-status :
      (c : String) (fs : List (EvidenceFact V))
      → (match_or_not c fs).status ≡ (if is_empty fs then not_matched else matched)
  match_or_not-status c [] = refl
  match_or_not-status c (f ∷ fs) = refl

  match_facts-status :
      (c id : String) (p : EvidenceFact V → Bool) (fs : List (EvidenceFact V))
      → (match_facts c id p fs).status ≡ by_tests (any p fs) (is_empty fs)
  match_facts-status c id p [] = refl
  match_facts-status c id p (f ∷ fs) =
      match_or_not-status c (filter p (f ∷ fs))
      ∙ ap (λ b. if b then not_matched else matched) (is_empty-filter p (f ∷ fs))
      ∙ not-if (any p (f ∷ fs))

  match_missing-status :
      (c id : String) (fs : List (EvidenceFact V))
      → (match_missing c id fs).status ≡ by_tests (any has_missing fs) (is_empty fs)
  match_missing-status c id [] = refl
  match_missing-status c id (f ∷ fs) = elim (Bool-cases (any has_missing (f ∷ fs))) [
    | inl e ↦ rw (e) refl
    | inr e ↦ rw (e) refl
  ]

  by_tests-some_fact :
      (id : String) (p : EvidenceFact V → Bool) (fs : List (EvidenceFact V))
      → by_tests (any p (facts_for_id fs id)) (is_empty (facts_for_id fs id)) ≡ some_fact fs id p
  by_tests-some_fact id p fs =
      ap (λ b. by_tests b (is_empty (facts_for_id fs id))) (any-filter (λ f. f.fact_id =ₛ id) p fs)
      ∙ ap (by_tests (any (λ f. (f.fact_id =ₛ id) && p f) fs))
          (is_empty-filter (λ f. f.fact_id =ₛ id) fs)
      ∙ ap (λ s. if any (λ f. (f.fact_id =ₛ id) && p f) fs then matched else s)
          (not-if_unknown (any (λ f. f.fact_id =ₛ id) fs))

  pub evaluate_fact_match-status :
      (c : String) (fs : List (EvidenceFact V)) (id : String) (p : EvidenceFact V → Bool)
      → (evaluate_fact_match c fs id p).status ≡ some_fact fs id p
  unfolding evaluate_fact_match
  evaluate_fact_match-status c fs id p =
      match_facts-status c id p (facts_for_id fs id) ∙ by_tests-some_fact id p fs

  pub match_missing-some_fact :
      (c : String) (fs : List (EvidenceFact V)) (id : String)
      → (match_missing c id (facts_for_id fs id)).status ≡ some_fact fs id has_missing
  match_missing-some_fact c fs id =
      match_missing-status c id (facts_for_id fs id) ∙ by_tests-some_fact id has_missing fs
