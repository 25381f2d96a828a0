-- ===== src/Recorder/Resource/Limits.antt =====
-- recorder_budget_for_power_mode of crates/adc-core/src/recorder/resource.rs only narrows a budget.
use agent_debug_compass.Prelude.{ℕ, ◌≡◌, not, ◌||◌, ◌==◌, min, some, List, [], ◌∷◌, String, arith}
use agent_debug_compass.Recorder.Model.{RecorderBudget}
use agent_debug_compass.Recorder.Resource.Model.{
  RecorderPowerMode, battery_normal, battery_low, battery_critical,
}
use agent_debug_compass.Recorder.Resource.Policy.{
  adjust, recorder_budget_for_power_mode, default_recorder_power_policy, policy_mode, find_mode,
  is_scarce,
}

-- The limits of a mode, as a table.
abbrev rate_limit : RecorderPowerMode → ℕ
rate_limit RecorderPowerMode.unknown = 16
rate_limit RecorderPowerMode.ac_power = 16
rate_limit battery_normal = 4
rate_limit battery_low = 1
rate_limit battery_critical = 1

abbrev retention_limit : RecorderPowerMode → ℕ
retention_limit RecorderPowerMode.unknown = 60000
retention_limit RecorderPowerMode.ac_power = 60000
retention_limit battery_normal = 30000
retention_limit battery_low = 10000
retention_limit battery_critical = 5000

-- A budget for a mode: the two limits are the smaller of the budget's and the mode's, the other
-- limits stay, and the quality tells of throttling where a limit or the set of signals shrank.
pub record IsNarrowed (mode : RecorderPowerMode) (b a : RecorderBudget) : Type 0 where
  pub rate : a.max_samples_per_second ≡ min b.max_samples_per_second (rate_limit mode)
  pub retention : a.max_retention_ms ≡ min b.max_retention_ms (retention_limit mode)
  pub memory : a.max_memory_bytes ≡ b.max_memory_bytes
  pub freeze : a.max_freeze_bytes ≡ b.max_freeze_bytes
  pub incidents : a.max_frozen_incidents ≡ b.max_frozen_incidents
  pub told : a.data_quality.throttled ≡ (
      b.data_quality.throttled
      || (is_scarce mode
          || (not (a.max_samples_per_second == b.max_samples_per_second)
              || not (a.max_retention_ms == b.max_retention_ms))))

adjusted-IsNarrowed :
    (b : RecorderBudget) (mode : RecorderPowerMode) (notes : List String)
    → IsNarrowed mode b (
        adjust b mode (
          some (
            policy_mode mode
              (rate_limit mode)
              (retention_limit mode)
              (not (is_scarce mode))
              notes)))
unfolding adjust policy_mode
adjusted-IsNarrowed b RecorderPowerMode.unknown notes = record {
  rate = ground arith;
  retention = ground arith;
  memory = ground arith;
  freeze = ground arith;
  incidents = ground arith;
  told = ground arith;
}
adjusted-IsNarrowed b RecorderPowerMode.ac_power notes = record {
  rate = ground arith;
  retention = ground arith;
  memory = ground arith;
  freeze = ground arith;
  incidents = ground arith;
  told = ground arith;
}
adjusted-IsNarrowed b battery_normal notes = record {
  rate = ground arith;
  retention = ground arith;
  memory = ground arith;
  freeze = ground arith;
  incidents = ground arith;
  told = ground arith;
}
adjusted-IsNarrowed b battery_low notes = record {
  rate = ground arith;
  retention = ground arith;
  memory = ground arith;
  freeze = ground arith;
  incidents = ground arith;
  told = ground arith;
}
adjusted-IsNarrowed b battery_critical notes = record {
  rate = ground arith;
  retention = ground arith;
  memory = ground arith;
  freeze = ground arith;
  incidents = ground arith;
  told = ground arith;
}

narrowed :
    (b : RecorderBudget) (mode : RecorderPowerMode)
    → IsNarrowed mode b (recorder_budget_for_power_mode b mode)
unfolding recorder_budget_for_power_mode default_recorder_power_policy find_mode
narrowed b RecorderPowerMode.unknown = adjusted-IsNarrowed b RecorderPowerMode.unknown []
narrowed b RecorderPowerMode.ac_power = adjusted-IsNarrowed b RecorderPowerMode.ac_power []
narrowed b battery_normal =
    adjusted-IsNarrowed b battery_normal ("battery_normal reduces recorder sampling rate" ∷ [])
narrowed b battery_low =
    adjusted-IsNarrowed b battery_low
      ("battery_low preserves only high-priority recorder signals" ∷ [])
narrowed b battery_critical =
    adjusted-IsNarrowed b battery_critical
      ("battery_critical keeps minimum recorder evidence only" ∷ [])

-- The budget for a power mode is narrowed to the mode: its sample rate and its retention are the
-- smaller of the budget's and the mode's, the limits on memory, frozen bytes and incidents stay, and
-- throttling is noted exactly where it stood before, the mode disables signals or a limit shrank.
-- Narrowing twice to one mode gives the limits of narrowing once.
pub budget-IsNarrowed :
    (b : RecorderBudget) (mode : RecorderPowerMode)
    → IsNarrowed mode b (recorder_budget_for_power_mode b mode)
      × ((recorder_budget_for_power_mode
            (recorder_budget_for_power_mode b mode)
            mode).max_samples_per_second
          ≡ (recorder_budget_for_power_mode b mode).max_samples_per_second)
      × ((recorder_budget_for_power_mode
            (recorder_budget_for_power_mode b mode)
            mode).max_retention_ms
          ≡ (recorder_budget_for_power_mode b mode).max_retention_ms)
budget-IsNarrowed b mode =
    let once = narrowed b mode in
    let twice = narrowed (recorder_budget_for_power_mode b mode) mode in
    (once, omega (arith, once.rate, twice.rate), omega (arith, once.retention, twice.retention))
