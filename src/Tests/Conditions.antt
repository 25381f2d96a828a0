-- ===== src/Tests/Conditions.antt =====
-- The theorems on route conditions at concrete facts, with numbers and one absent value as the JSON
-- values.
use agent_debug_compass.Prelude.{ℕ, String, false, none, some, List, [], ◌∷◌, ◌≡◌, refl, ◌==◌}
use agent_debug_compass.Prelude.Float.{one}
use agent_debug_compass.Quality.{medium_quality}
use agent_debug_compass.Conditions.{
  Json, EvidenceFact, Expressions, unknown, eq, neq, exists, any_of, all_of, not_of, nil, cons,
}
use agent_debug_compass.Conditions.Evaluate.{evaluate_route_condition}
use agent_debug_compass.Conditions.Kleene.{truth, evaluate_route_condition-truth}
use agent_debug_compass.Conditions.Duality.{negate_each, not-any}
use agent_debug_compass.Conditions.Missing.{NamesMissing, evaluate_route_condition-NamesMissing}

abbrev numbers : Json ℕ
numbers = record {
  equals = λ a b. a == b;
  as_f64 = λ a. some one;
  has_key = λ a key. false;
  get_u64 = λ a key. some a;
}

abbrev fact : String → ℕ → EvidenceFact ℕ
fact fact_id value = record {
  fact_id = fact_id;
  scope = "run";
  target_id = none;
  source_ref = "snapshot.json";
  value = value;
  data_quality = medium_quality;
  observed_at_monotonic_ns = none;
}

abbrev facts : List (EvidenceFact ℕ)
facts = fact "cpu.cores" 4 ∷ fact "cpu.cores" 8 ∷ fact "disk.errors" 0 ∷ []

abbrev parts : Expressions ℕ
parts =
    cons (eq "disk.errors" 3) (
      cons (exists "net.drops") (cons (not_of (neq "cpu.cores" 9)) (cons (exists "net.drops") nil)))

evaluate_route_condition-truth_example :
    (evaluate_route_condition numbers "c1" facts (any_of parts)).status
    ≡ truth numbers facts (any_of parts)
evaluate_route_condition-truth_example =
    evaluate_route_condition-truth numbers "c1" facts (any_of parts)

any_run : (evaluate_route_condition numbers "c1" facts (any_of parts)).status ≡ unknown
unfolding evaluate_route_condition
any_run = refl

missing_run :
    (evaluate_route_condition numbers "c1" facts (any_of parts)).missing_fact_ids ≡ "net.drops" ∷ []
unfolding evaluate_route_condition
missing_run = refl

not-any_example :
    (evaluate_route_condition numbers "c1" facts (not_of (any_of parts))).status
    ≡ (evaluate_route_condition numbers "c1" facts (all_of (negate_each parts))).status
not-any_example = not-any numbers facts "c1" parts

evaluate_route_condition-NamesMissing_example :
    NamesMissing facts (evaluate_route_condition numbers "c1" facts (any_of parts))
evaluate_route_condition-NamesMissing_example =
    evaluate_route_condition-NamesMissing numbers "c1" facts (any_of parts)
