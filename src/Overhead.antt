-- ===== src/Overhead.antt =====
-- The overhead budget of a capture: crates/adc-core/src/overhead.rs.
pub mod Limits
use agent_debug_compass.Prelude.{
  ℕ, String, Bool, true, false, not, List, [], ◌∷◌, ◌++◌, is_empty, ltb, if◌then◌else◌,
}
use agent_debug_compass.Prelude.Text.{format, show}
use agent_debug_compass.Quality.{DataQuality, medium_quality}

pub record OverheadBudget : Type 0 where
  pub max_artifact_bytes : ℕ
  pub max_events : ℕ
  pub max_duration_ms : ℕ

pub record OverheadSample : Type 0 where
  pub artifact_bytes : ℕ
  pub event_count : ℕ
  pub duration_ms : ℕ

pub record OverheadDecision : Type 0 where
  pub capture_level : String
  pub throttled : Bool
  pub dropped : Bool
  pub drop_count : ℕ
  pub reasons : List String
  pub data_quality : DataQuality

pub record OverheadReport : Type 0 where
  pub budget : OverheadBudget
  pub sample : OverheadSample
  pub decision : OverheadDecision

abbrev pub default_overhead_budget : OverheadBudget
default_overhead_budget = record {
  max_artifact_bytes = 536870912;
  max_events = 100000;
  max_duration_ms = 30000;
}

-- A reason of one of the three budgets, where the sample exceeds it.
unfoldable pub exceeded : String → String → ℕ → ℕ → List String
unfolding format show
exceeded name unit actual limit =
    if ltb limit actual
    then format (name ∷ " budget exceeded: " ∷ show actual ∷ " > " ∷ show limit ∷ " " ∷ unit ∷ [])
      ∷ []
    else []

unfoldable pub overhead_reasons : OverheadBudget → OverheadSample → List String
overhead_reasons budget sample =
    exceeded "artifact" "bytes" sample.artifact_bytes budget.max_artifact_bytes
    ++ (exceeded "event" "events" sample.event_count budget.max_events
        ++ exceeded "duration" "ms" sample.duration_ms budget.max_duration_ms)

unfoldable pub evaluate_overhead : OverheadBudget → OverheadSample → OverheadDecision
evaluate_overhead budget sample =
    let reasons = overhead_reasons budget sample in
    let throttled = not (is_empty reasons) in
    record {
      capture_level = if throttled then "degraded" else "normal";
      throttled = throttled;
      dropped = false;
      drop_count = 0;
      reasons = reasons;
      data_quality = record medium_quality { throttled = throttled; notes = reasons };
    }

unfoldable pub build_overhead_report : OverheadBudget → OverheadSample → OverheadReport
build_overhead_report budget sample = record {
  budget = budget;
  sample = sample;
  decision = evaluate_overhead budget sample;
}
