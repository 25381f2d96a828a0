-- ===== src/Tests/Overhead.antt =====
-- The theorem on the overhead budget at a concrete sample.
use agent_debug_compass.Prelude.{false, ◌+◌, length, ◌≡◌, ◌↔◌}
use agent_debug_compass.Overhead.{OverheadSample, default_overhead_budget, build_overhead_report}
use agent_debug_compass.Overhead.Limits.{IsWithin, over, report-IsWithin}

abbrev busy : OverheadSample
busy = record { artifact_bytes = 10; event_count = 100001; duration_ms = 30001 }

report-IsWithin_example :
    let d = (build_overhead_report default_overhead_budget busy).decision in
    ((d.throttled ≡ false) ↔ IsWithin default_overhead_budget busy)
    × (d.data_quality.throttled ≡ d.throttled)
    × (length d.reasons ≡ over 10 536870912 + (over 100001 100000 + over 30001 30000))
report-IsWithin_example = report-IsWithin default_overhead_budget busy
