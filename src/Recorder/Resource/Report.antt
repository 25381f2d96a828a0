-- ===== src/Recorder/Resource/Report.antt =====
-- What the recorder reports of its own cost: crates/adc-core/src/recorder/overhead.rs and the
-- resource status of crates/adc-core/src/recorder/resource.rs.
use agent_debug_compass.Prelude.{
  ℕ, String, true, ◌||◌, Option, none, some, List, [], ◌∷◌, ◌++◌, ltb, sat_mul, wrap_add,
  if◌then◌else◌,
}
use agent_debug_compass.Prelude.Float.{F64}
use agent_debug_compass.Prelude.Text.{format, show}
use agent_debug_compass.Quality.{DataQuality, data_quality_for_drop_count, push_missing, push_note}
use agent_debug_compass.Recorder.Model.{RecorderSignalStatus, RecorderBufferStatus, RecorderBudget}
use agent_debug_compass.Recorder.Resource.Model.{
  RecorderOverhead, RecorderOverheadAccounting, RecorderOverheadScope, RecorderPowerSnapshot,
  RecorderPowerMode, RecorderResourceRates, RecorderResourceStatus, RecorderResourceScope,
  RecorderDegradationDecision,
}
use agent_debug_compass.Recorder.Resource.Power.{unknown_power_snapshot_with_missing}

-- `sum::<u64>()` of the recorded samples, which wraps in a release build.
unfoldable pub recorded_sum : List RecorderSignalStatus → ℕ
recorded_sum [] = 0
recorded_sum (s ∷ ss) = wrap_add s.recorded_samples (recorded_sum ss)

unfoldable pub estimated_recorder_memory_bytes : RecorderBufferStatus → ℕ
unfolding recorded_sum
estimated_recorder_memory_bytes b = sat_mul (recorded_sum b.signals) 256

recorder_overhead_data_quality : ℕ → DataQuality
unfolding data_quality_for_drop_count
recorder_overhead_data_quality drop_count =
    push_note "estimated_memory_ring_bytes uses a fixed per-sample estimate" (
      push_note "status_write_bytes excludes the current status artifact write" (
        push_note
          "artifact_bytes is a write-path retained-size estimate and may overcount overwritten marker/status artifacts in this MVP"
          (push_note
            "disk_write_bytes and status_write_bytes are cumulative for the service-run scope"
            (push_missing "recorder CPU and memory overhead are not measured in this MVP"
              (data_quality_for_drop_count drop_count)))))

unfoldable pub recorder_overhead_for_service_run :
    String → RecorderBufferStatus → RecorderOverheadAccounting → RecorderOverhead
unfolding estimated_recorder_memory_bytes recorder_overhead_data_quality
recorder_overhead_for_service_run target_id b accounting =
    let dropped = b.data_quality.drop_count in
    record {
      schema_version = "obs.recorder_overhead.v1";
      target_id = target_id;
      overhead_scope = accounting.overhead_scope;
      since_mono_ns = accounting.since_mono_ns;
      through_mono_ns = accounting.through_mono_ns;
      cpu_percent = none;
      memory_bytes = none;
      disk_write_bytes = accounting.disk_write_bytes;
      artifact_bytes = accounting.artifact_bytes;
      status_write_bytes = accounting.status_write_bytes;
      frozen_artifact_bytes = accounting.frozen_artifact_bytes;
      samples_jsonl_bytes = accounting.samples_jsonl_bytes;
      incident_count = accounting.incident_count;
      estimated_memory_ring_bytes = estimated_recorder_memory_bytes b;
      wakeup_rate_hz = none;
      self_samples_dropped = dropped;
      data_quality = recorder_overhead_data_quality dropped;
    }

unfoldable pub default_recorder_overhead : String → RecorderBufferStatus → ℕ → RecorderOverhead
unfolding estimated_recorder_memory_bytes recorder_overhead_data_quality
default_recorder_overhead target_id b self_samples_dropped = record {
  schema_version = "obs.recorder_overhead.v1";
  target_id = target_id;
  overhead_scope = RecorderOverheadScope.current_status_snapshot;
  since_mono_ns = b.current_retained_range_mono_ns.start;
  through_mono_ns = b.current_retained_range_mono_ns.end;
  cpu_percent = none;
  memory_bytes = none;
  disk_write_bytes = 0;
  artifact_bytes = 0;
  status_write_bytes = 0;
  frozen_artifact_bytes = 0;
  samples_jsonl_bytes = 0;
  incident_count = 0;
  estimated_memory_ring_bytes = estimated_recorder_memory_bytes b;
  wakeup_rate_hz = none;
  self_samples_dropped = self_samples_dropped;
  data_quality = recorder_overhead_data_quality self_samples_dropped;
}

unmeasured : Option F64 → DataQuality → DataQuality
unmeasured none q = push_missing "recorder wakeup rate is not measured in this MVP" q
unmeasured (some rate) q = q

memory_text : RecorderOverhead → RecorderBudget → String
unfolding format show
memory_text overhead budget = format (
    "estimated recorder memory "
    ∷ show overhead.estimated_memory_ring_bytes
    ∷ " exceeds max_memory_bytes "
    ∷ show budget.max_memory_bytes
    ∷ [])

unfoldable pub check_memory : RecorderOverhead → RecorderBudget → DataQuality → DataQuality
unfolding memory_text
check_memory overhead budget q =
    if ltb budget.max_memory_bytes overhead.estimated_memory_ring_bytes
    then push_missing (memory_text overhead budget) (record q { throttled = true })
    else q

-- The loop over the degradation decisions.
unfoldable pub add_decisions : List RecorderDegradationDecision → DataQuality → DataQuality
add_decisions [] q = q
add_decisions (d ∷ ds) q = add_decisions ds (record q {
  throttled = q.throttled || d.data_quality.throttled;
  missing = q.missing ++ d.data_quality.missing;
  notes = q.notes ++ d.data_quality.notes;
})

unfoldable pub recorder_resource_status_for_service_run :
    String
    → RecorderBudget
    → RecorderOverhead
    → RecorderPowerSnapshot
    → RecorderPowerMode
    → RecorderResourceRates
    → List RecorderDegradationDecision
    → RecorderResourceStatus
unfolding unmeasured check_memory add_decisions
recorder_resource_status_for_service_run target_id budget overhead snapshot mode rates decisions =
    record {
      schema_version = "obs.recorder_resource_status.v1";
      target_id = target_id;
      resource_scope = RecorderResourceScope.service_run;
      power_source = snapshot.power_source;
      battery_state = snapshot.battery_state;
      battery_percent = snapshot.battery_percent;
      policy_mode = mode;
      estimated_ring_memory_bytes = overhead.estimated_memory_ring_bytes;
      max_memory_bytes = budget.max_memory_bytes;
      wakeup_rate_hz = overhead.wakeup_rate_hz;
      recorder_loop_rate_hz = rates.recorder_loop_rate_hz;
      recorder_sample_rate_hz = rates.recorder_sample_rate_hz;
      status_write_rate_hz = rates.status_write_rate_hz;
      continuous_ring_disk_write_bytes = 0;
      status_write_bytes = overhead.status_write_bytes;
      frozen_artifact_write_bytes = overhead.frozen_artifact_bytes;
      network_upload_bytes = 0;
      degradation_decisions = decisions;
      data_quality = add_decisions decisions (
          check_memory overhead budget (
            unmeasured overhead.wakeup_rate_hz (
              push_note
                "continuous recorder ring is memory-backed and performs no continuous disk writes"
                snapshot.data_quality)));
    }

abbrev mode_or_unknown : Option RecorderPowerMode → RecorderPowerMode
mode_or_unknown none = RecorderPowerMode.unknown
mode_or_unknown (some m) = m

unfoldable pub recorder_resource_status_for_overhead :
    String → RecorderBudget → RecorderOverhead → Option RecorderPowerMode → RecorderResourceStatus
unfolding recorder_resource_status_for_service_run
recorder_resource_status_for_overhead target_id budget overhead policy_mode =
    recorder_resource_status_for_service_run target_id budget overhead
      unknown_power_snapshot_with_missing (mode_or_unknown policy_mode)
      (record {
        recorder_loop_rate_hz = none;
        recorder_sample_rate_hz = none;
        status_write_rate_hz = none;
      })
      []
