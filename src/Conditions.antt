-- ===== src/Conditions.antt =====
-- Route conditions: crates/adc-core/src/route_conditions.rs and EvidenceFact of
-- crates/adc-core/src/investigation_facts.rs. The type of JSON values and what serde_json reads from
-- a value are parameters.
pub mod Evaluate
pub mod Merge
pub mod Facts
pub mod Kleene
pub mod Duality
pub mod Missing
use agent_debug_compass.Prelude.{ℕ, String, Bool, Option, List}
use agent_debug_compass.Prelude.Float.{F64}
use agent_debug_compass.Quality.{DataQuality}

-- serde_json::Value: `==`, `as_f64`, `as_object` with `contains_key`, and `get(key)` with `as_u64`.
pub record Json (V : Type 0) : Type 0 where
  pub equals : V → V → Bool
  pub as_f64 : V → Option F64
  pub has_key : V → String → Bool
  pub get_u64 : V → String → Option ℕ

pub record EvidenceFact (V : Type 0) : Type 0 where
  pub fact_id : String
  pub scope : String
  pub target_id : Option String
  pub source_ref : String
  pub value : V
  pub data_quality : DataQuality
  pub observed_at_monotonic_ns : Option ℕ

-- A condition, and a list of conditions.
mutual
  pub data RouteConditionExpr (V : Type 0) : Type 0 where
    eq neq : String → V → RouteConditionExpr V
    exists missing : String → RouteConditionExpr V
    gt gte lt lte : String → F64 → RouteConditionExpr V
    contains_key : String → String → RouteConditionExpr V
    bucket_count_gte : String → String → ℕ → RouteConditionExpr V
    any_of all_of : Expressions V → RouteConditionExpr V
    not_of : RouteConditionExpr V → RouteConditionExpr V

  pub data Expressions (V : Type 0) : Type 0 where
    nil : Expressions V
    cons : RouteConditionExpr V → Expressions V → Expressions V

pub data ConditionStatus : Type 0 where
  matched not_matched unknown : ConditionStatus

pub record RouteConditionEvaluation (V : Type 0) : Type 0 where
  pub condition_id : String
  pub status : ConditionStatus
  pub matched_facts : List (EvidenceFact V)
  pub missing_fact_ids : List String
  pub data_quality : DataQuality
  pub explanation : String
