-- ===== src/Recorder/Budget/Capacity.antt =====
-- Bounds on the ring capacity that crates/adc-core/src/recorder/budget.rs derives from a budget.
use agent_debug_compass.Prelude.{◌+◌, ◌*◌, ◌/◌, ◌≤◌, ◌≡◌, arith, max, sat_add, u64_max}
use agent_debug_compass.Recorder.Model.{RecorderBudget}
use agent_debug_compass.Recorder.Budget.{recorder_ring_capacity_for_budget}

-- While the retention time does not saturate, the capacity is at least one sample; at 256 bytes a
-- sample it fits the memory of the budget, if that has room for one sample at all; and it does not
-- exceed what the sample rate can fill within the retention time, rounded up to at least one
-- second, or one sample.
pub capacity_bounds :
    (budget : RecorderBudget)
    → budget.max_retention_ms + 999 ≤ u64_max
    → (1 ≤ recorder_ring_capacity_for_budget budget)
      × (recorder_ring_capacity_for_budget budget * 256 ≤ max budget.max_memory_bytes 256)
      × (recorder_ring_capacity_for_budget budget
          ≤ max (budget.max_samples_per_second * max ((budget.max_retention_ms + 999) / 1000) 1) 1)
unfolding recorder_ring_capacity_for_budget
capacity_bounds budget h =
    let no_saturation : sat_add budget.max_retention_ms 999 ≡ budget.max_retention_ms + 999 =
      omega arith in
    (omega arith, omega arith, rw no_saturation (omega arith))
