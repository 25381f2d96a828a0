-- ===== src/Recorder/Coverage/Summary.antt =====
-- The coverage state of a signal and the summary: crates/adc-core/src/recorder/coverage.rs.
use agent_debug_compass.Prelude.{
  ℕ, suc, Bool, true, false, not, ◌||◌, List, [], ◌∷◌, is_empty, ltb, ◌==◌, if◌then◌else◌,
}
use agent_debug_compass.Prelude.Float.{F64}
use agent_debug_compass.Recorder.Model.{
  CapabilityStatus, requires_privilege, unsafe, supported, CollectorLoss, RecorderCoverageState,
  covered, partial, missing, RecorderSignalCoverage, RecorderCoverageSummary,
}

-- `matches!(capability_status, Unavailable | RequiresPrivilege | Unsafe)`
unfoldable pub is_unusable : CapabilityStatus → Bool
is_unusable CapabilityStatus.unavailable = true
is_unusable requires_privilege = true
is_unusable unsafe = true
is_unusable supported = false
is_unusable CapabilityStatus.degraded = false
is_unusable CapabilityStatus.unknown = false

unfoldable pub coverage_state_for_loss : CollectorLoss → CapabilityStatus → RecorderCoverageState
unfolding is_unusable
coverage_state_for_loss loss capability_status =
    if is_unusable capability_status
    then RecorderCoverageState.unavailable
    else if loss.exported_samples == 0
    then missing
    else if ltb 0 loss.dropped_samples
        || (ltb 0 loss.truncated_samples_due_to_freeze_budget
            || not (is_empty loss.collectors_degraded))
    then partial
    else covered

unfoldable pub is_covered : RecorderCoverageState → Bool
is_covered covered = true
is_covered _ = false

unfoldable pub is_missing : RecorderCoverageState → Bool
is_missing missing = true
is_missing _ = false

unfoldable pub is_partial : RecorderCoverageState → Bool
is_partial partial = true
is_partial _ = false

unfoldable pub is_unavailable : RecorderCoverageState → Bool
is_unavailable RecorderCoverageState.unavailable = true
is_unavailable _ = false

-- `signals.iter().filter(test).count()`
unfoldable pub count {ℓ} : {A : Type ℓ} → (A → Bool) → List A → ℕ
count p [] = 0
count p (x ∷ xs) = if p x then suc (count p xs) else count p xs

module _ (percent : ℕ → ℕ → F64) where
  unfoldable pub coverage_summary : List RecorderSignalCoverage → RecorderCoverageSummary
  unfolding count is_covered is_missing is_partial is_unavailable
  coverage_summary signals =
      let expected = count (λ s. s.expected) signals in
      let covers = count (λ s. is_covered s.coverage_state) signals in
      record {
        expected_signal_count = expected;
        covered_signal_count = covers;
        missing_signal_count = count (λ s. is_missing s.coverage_state) signals;
        partial_signal_count = count (λ s. is_partial s.coverage_state) signals;
        unavailable_signal_count = count (λ s. is_unavailable s.coverage_state) signals;
        overall_coverage_percent =
            if expected == 0 then record { bits = 0 } else percent covers expected;
      }
