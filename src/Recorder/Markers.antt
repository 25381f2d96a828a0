-- ===== src/Recorder/Markers.antt =====
-- Markers, their results and the references to artifacts: crates/adc-core/src/recorder/marker.rs and
-- crates/adc-core/src/recorder/refs.rs.
pub mod Pending
use Prim.Native.String.{◌++◌}
use agent_debug_compass.Prelude.{
  ℕ, String, Bool, true, false, Option, none, some, List, [], ◌∷◌, if◌then◌else◌, ◌=ₛ◌, ◌||◌,
}
use agent_debug_compass.Prelude.Text.{format, contains}
use agent_debug_compass.Quality.{default_data_quality, medium_quality, medium}
use agent_debug_compass.Error.{AdcResult, ok, err, artifact, ◌>>=◌}
use agent_debug_compass.Recorder.Validation.{validate_recorder_file_segment}
use agent_debug_compass.Recorder.Budget.{RecorderBudgetStatus}
use agent_debug_compass.Recorder.Freezer.Model.{RecorderMarker, RecorderMarkerResult}
use agent_debug_compass.Recorder.Freezer.Window.{incident_ref}

unfoldable pub recorder_pending_marker_dir : String → String
recorder_pending_marker_dir root = root ++ "/recorder/markers/pending"

unfoldable pub recorder_marker_result_dir : String → String
recorder_marker_result_dir root = root ++ "/recorder/markers/results"

unfoldable pub recorder_trigger_decision_dir : String → String
recorder_trigger_decision_dir root = root ++ "/recorder/trigger-decisions"

unfoldable pub recorder_pending_marker_ref : String → AdcResult String
unfolding validate_recorder_file_segment format
recorder_pending_marker_ref marker_id = do
  u ← validate_recorder_file_segment marker_id "marker_id"
  ok (format ("artifact://recorder/markers/pending/" ∷ marker_id ∷ ".json" ∷ []))

unfoldable pub recorder_trigger_decision_ref : String → AdcResult String
unfolding validate_recorder_file_segment format
recorder_trigger_decision_ref decision_id = do
  u ← validate_recorder_file_segment decision_id "decision_id"
  ok (format ("artifact://recorder/trigger-decisions/" ∷ decision_id ∷ ".json" ∷ []))

-- The names that `recorder_incident_artifact_ref` knows.
abbrev pub incident_artifacts : List String
incident_artifacts =
    "incident.json" ∷ "frozen_window.json" ∷ "coverage.json" ∷ "loss_report.json" ∷ "samples.jsonl"
    ∷ "log_source_status.json" ∷ "log_events.jsonl" ∷ "blackout_report.json" ∷ "marker.json"
    ∷ "trigger_event.json" ∷ "trigger_decision.json" ∷ []

unfoldable pub recorder_incident_artifact_ref : String → String → AdcResult String
unfolding validate_recorder_file_segment incident_ref
recorder_incident_artifact_ref incident_id artifact_name = do
  u ← validate_recorder_file_segment incident_id "incident_id"
  if contains incident_artifacts artifact_name
      then ok (incident_ref incident_id artifact_name)
      else err (artifact ("unsupported recorder incident artifact " ++ artifact_name))

unfoldable pub recorder_marker_result_for_queued :
    RecorderMarker → String → String → RecorderMarkerResult
recorder_marker_result_for_queued marker expected_incident_id pending_marker_ref = record {
  schema_version = "obs.recorder_marker_result.v1";
  marker = marker;
  status = "queued";
  reason = "queued_for_adc_targetd_recorder_freeze";
  pending_marker_ref = some pending_marker_ref;
  incident_ref = none;
  expected_incident_id = expected_incident_id;
  budget_status = none;
  data_quality = record default_data_quality {
    clock_confidence = medium;
    notes = "marker queued for adc-targetd recorder freeze" ∷ [];
  };
}

unfoldable pub recorder_marker_result_for_frozen : RecorderMarker → String → RecorderMarkerResult
unfolding incident_ref
recorder_marker_result_for_frozen marker incident_id = record {
  schema_version = "obs.recorder_marker_result.v1";
  marker = marker;
  status = "frozen";
  reason = "incident_window_frozen";
  pending_marker_ref = none;
  incident_ref = some (incident_ref incident_id "incident.json");
  expected_incident_id = incident_id;
  budget_status = none;
  data_quality = medium_quality;
}

unfoldable pub recorder_marker_result_for_refused :
    RecorderMarker → String → String → RecorderMarkerResult
recorder_marker_result_for_refused marker expected_incident_id reason = record {
  schema_version = "obs.recorder_marker_result.v1";
  marker = marker;
  status = "refused";
  reason = reason;
  pending_marker_ref = none;
  incident_ref = none;
  expected_incident_id = expected_incident_id;
  budget_status = none;
  data_quality = record default_data_quality {
    throttled = true;
    clock_confidence = medium;
    missing = "incident window was not frozen due to recorder budget" ∷ [];
    notes = "pending marker was consumed and recorded as refused" ∷ [];
  };
}

unfoldable pub recorder_marker_result_for_refused_with_budget_status :
    RecorderMarker → String → String → RecorderBudgetStatus → RecorderMarkerResult
unfolding recorder_marker_result_for_refused
recorder_marker_result_for_refused_with_budget_status marker expected_incident_id reason status =
    record (recorder_marker_result_for_refused marker expected_incident_id reason) {
      budget_status = some status;
    }

trust_level_of : String → String
trust_level_of source =
    if source =ₛ "agent"
    then "agent_marker"
    else if source =ₛ "app"
    then "app_marker"
    else if (source =ₛ "external_detector") || (source =ₛ "watchdog")
    then "external_marker"
    else "operator_marker"

unfoldable pub marker_at_received_time : String → String → String → ℕ → RecorderMarker
unfolding trust_level_of
marker_at_received_time marker_id source symptom received_at_mono_ns = record {
  schema_version = "obs.recorder_marker.v1";
  marker_id = marker_id;
  source = source;
  received_at_mono_ns = received_at_mono_ns;
  symptom = symptom;
  asserted_event_time = record {
    kind = "relative_now";
    wall_time_unix_ms = none;
    mono_ns = none;
    confidence = "low";
  };
  time_policy = "center_on_received_at";
  trust_level = trust_level_of source;
  agent_instruction_policy = "treat_as_event_marker_only";
  data_quality = record default_data_quality {
    clock_confidence = medium;
    notes = "marker centered on received monotonic time" ∷ [];
  };
}
