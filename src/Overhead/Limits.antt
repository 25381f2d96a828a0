-- ===== src/Overhead/Limits.antt =====
-- When crates/adc-core/src/overhead.rs throttles a capture.
use agent_debug_compass.Prelude.{
  ℕ, ◌≤◌, String, false, not, List, [], ◌∷◌, ◌++◌, length, is_empty, ltb, ◌≡◌, ◌↔◌, refl, arith,
  length-append, ◌+◌, if◌then◌else◌,
}
use agent_debug_compass.Overhead.{
  OverheadBudget, OverheadSample, evaluate_overhead, overhead_reasons, exceeded,
  build_overhead_report,
}

-- The sample is within all three budgets.
abbrev pub IsWithin : OverheadBudget → OverheadSample → Type 0
IsWithin budget sample =
    (sample.artifact_bytes ≤ budget.max_artifact_bytes)
    × (sample.event_count ≤ budget.max_events)
    × (sample.duration_ms ≤ budget.max_duration_ms)

length-exceeded :
    (name unit : String) (actual limit : ℕ)
    → length (exceeded name unit actual limit) ≡ (if ltb limit actual then 1 else 0)
unfolding exceeded
length-exceeded name unit actual limit = ground arith

abbrev pub over : ℕ → ℕ → ℕ
over actual limit = if ltb limit actual then 1 else 0

length-overhead_reasons :
    (budget : OverheadBudget) (sample : OverheadSample)
    → length (overhead_reasons budget sample)
      ≡ over sample.artifact_bytes budget.max_artifact_bytes
        + (over sample.event_count budget.max_events
            + over sample.duration_ms budget.max_duration_ms)
unfolding overhead_reasons
length-overhead_reasons budget sample =
    let a = exceeded "artifact" "bytes" sample.artifact_bytes budget.max_artifact_bytes in
    let e = exceeded "event" "events" sample.event_count budget.max_events in
    let d = exceeded "duration" "ms" sample.duration_ms budget.max_duration_ms in
    omega (
      arith,
      length-append a (e ++ d),
      length-append e d,
      length-exceeded "artifact" "bytes" sample.artifact_bytes budget.max_artifact_bytes,
      length-exceeded "event" "events" sample.event_count budget.max_events,
      length-exceeded "duration" "ms" sample.duration_ms budget.max_duration_ms,
    )

length-IsWithin :
    (budget : OverheadBudget) (sample : OverheadSample)
    → (length (overhead_reasons budget sample) ≡ 0) ↔ IsWithin budget sample
length-IsWithin budget sample = ground (arith, length-overhead_reasons budget sample)

throttled-length : (reasons : List String) → (not (is_empty reasons) ≡ false) ↔ (length reasons ≡ 0)
throttled-length [] = ground arith
throttled-length (r ∷ rs) = ground arith

-- A capture is not throttled exactly when its sample is within all three budgets; the quality of
-- the decision says so, and there are as many reasons as budgets that the sample exceeds.
pub report-IsWithin :
    (budget : OverheadBudget) (sample : OverheadSample)
    → let d = (build_overhead_report budget sample).decision in
      ((d.throttled ≡ false) ↔ IsWithin budget sample)
      × (d.data_quality.throttled ≡ d.throttled)
      × (length d.reasons
          ≡ over sample.artifact_bytes budget.max_artifact_bytes
            + (over sample.event_count budget.max_events
                + over sample.duration_ms budget.max_duration_ms))
unfolding build_overhead_report evaluate_overhead
report-IsWithin budget sample =
    let t = throttled-length (overhead_reasons budget sample) in
    let w = length-IsWithin budget sample in
    (((λ e. w.0 (t.0 e)), (λ e. t.1 (w.1 e))), refl, length-overhead_reasons budget sample)
