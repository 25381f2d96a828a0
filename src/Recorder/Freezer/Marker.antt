-- ===== src/Recorder/Freezer/Marker.antt =====
-- freeze_recorder_marker_with_log_snapshot of crates/adc-core/src/recorder/freezer.rs.
use agent_debug_compass.Prelude.{
  ℕ, String, Option, none, some, List, [], ◌∷◌, ◌++◌, if◌then◌else◌, ◌=ₛ◌, ◌||◌,
}
use agent_debug_compass.Prelude.Float.{F64}
use agent_debug_compass.Prelude.Maps.{insert}
use agent_debug_compass.Quality.{DataQuality}
use agent_debug_compass.Error.{AdcResult, ◌>>◌}
use agent_debug_compass.Recorder.Model.{RecorderSample, RecorderBudget}
use agent_debug_compass.Recorder.Validation.{validate_recorder_file_segment}
use agent_debug_compass.Recorder.Ring.{RecorderRing}
use agent_debug_compass.Recorder.Loss.{samples_within_freeze_budget}
use agent_debug_compass.Recorder.Logs.Model.{RecorderLogSnapshot}
use agent_debug_compass.Recorder.Logs.Snapshot.{blackout_report_for_log_snapshot}
use agent_debug_compass.Recorder.Freezer.Model.{
  RecorderMarker, RecorderFreeze, RecorderFrozenWindow, Artifact, json, sample_lines, event_lines,
  marker_document, loss_document, coverage_document, source_status_document, blackout_document,
  window_document, incident_document,
}
use agent_debug_compass.Recorder.Freezer.Store.{Disk, Json}
use agent_debug_compass.Recorder.Freezer.Window.{
  FreezeNames, FreezePlan, incident_ref, incident_dir_of, frozen_window_of, incident_of,
  frozen_coverage_of, report_of, line_len, freeze_into,
}

-- freeze_reason_for_marker of crates/adc-core/src/recorder/marker.rs
unfoldable pub freeze_reason_for_marker : RecorderMarker → String
freeze_reason_for_marker m =
    if m.source =ₛ "agent"
    then "agent_marker"
    else if (m.source =ₛ "app") || ((m.source =ₛ "external_detector") || (m.source =ₛ "watchdog"))
    then "external_marker"
    else "operator_marker"

abbrev log_refs : Option RecorderLogSnapshot → List (String × String)
log_refs none = []
log_refs (some snapshot) =
    ("log_events", "log_events.jsonl")
    ∷ ("log_source_status", "log_source_status.json")
    ∷ ("blackout_report", "blackout_report.json")
    ∷ []

unfoldable pub marker_names :
    String → String → RecorderMarker → Option RecorderLogSnapshot → FreezeNames
unfolding freeze_reason_for_marker
marker_names incident_id window_id marker snapshot = record {
  incident_id = incident_id;
  window_id = window_id;
  marker_id = some marker.marker_id;
  reason = freeze_reason_for_marker marker;
  preserved_for = "marker_received";
  time = marker.received_at_mono_ns;
  refs =
      ("marker", "marker.json")
      ∷ ("samples", "samples.jsonl")
      ∷ ("loss_report", "loss_report.json")
      ∷ ("observation_coverage", "coverage.json")
      ∷ log_refs snapshot;
}

snapshot_with_refs : String → RecorderLogSnapshot → RecorderLogSnapshot
unfolding insert incident_ref
snapshot_with_refs incident_id snapshot =
    let status = snapshot.source_status in
    record {
      source_status = record status {
        artifact_refs = insert "blackout_report" (incident_ref incident_id "blackout_report.json") (
            insert "log_events" (incident_ref incident_id "log_events.jsonl") status.artifact_refs);
      };
      events = snapshot.events;
    }

-- The three files of a log snapshot, where there is one.
unfoldable pub log_files :
    String → String → RecorderFrozenWindow → Option RecorderLogSnapshot → List (String × Artifact)
unfolding snapshot_with_refs blackout_report_for_log_snapshot
log_files incident_id window_id window none = []
log_files incident_id window_id window (some snapshot) =
    let with_refs = snapshot_with_refs incident_id snapshot in
    ("log_events.jsonl", event_lines snapshot.events)
    ∷ ("log_source_status.json", json (source_status_document with_refs.source_status))
    ∷ (
      "blackout_report.json",
      json (
          blackout_document (
            blackout_report_for_log_snapshot window.target_id incident_id window_id
              window.time_range_mono_ns with_refs)),
    )
    ∷ []

module _ (percent : ℕ → ℕ → F64) where
  unfoldable pub marker_plan :
      String
      → String
      → String
      → RecorderMarker
      → RecorderRing
      → RecorderBudget
      → Option RecorderLogSnapshot
      → List RecorderSample
      → DataQuality
      → FreezePlan RecorderFreeze
  unfolding marker_names report_of frozen_window_of incident_of frozen_coverage_of log_files
      incident_dir_of
  marker_plan root incident_id window_id marker ring budget snapshot samples quality =
      let names = marker_names incident_id window_id marker snapshot in
      let report = report_of names ring samples quality in
      let window = frozen_window_of names ring budget report in
      let incident = incident_of names ring window in
      record {
        files =
            ("marker.json", json (marker_document marker))
            ∷ ("samples.jsonl", sample_lines samples)
            ∷ ("loss_report.json", json (loss_document report))
            ∷ (
              "coverage.json",
              json (coverage_document (frozen_coverage_of percent names ring budget report)),
            )
            ∷ (log_files incident_id window_id window snapshot
                ++ (("frozen_window.json", json (window_document window))
                    ∷ ("incident.json", json (incident_document incident))
                    ∷ []));
        answer = record {
          incident = incident;
          marker = marker;
          frozen_window = window;
          run_dir = incident_dir_of root incident_id;
        };
      }

module _ (S : Type 0) (d : Disk S) (j : Json) (percent : ℕ → ℕ → F64) where
  unfoldable pub freeze_recorder_marker_with_log_snapshot :
      String
      → String
      → String
      → RecorderMarker
      → RecorderRing
      → RecorderBudget
      → Option RecorderLogSnapshot
      → S
      → S × AdcResult RecorderFreeze
  unfolding freeze_into marker_plan validate_recorder_file_segment samples_within_freeze_budget
      incident_dir_of line_len
  freeze_recorder_marker_with_log_snapshot root incident_id window_id marker ring budget snapshot
        s =
      freeze_into S RecorderFreeze d j (incident_dir_of root incident_id)
        (validate_recorder_file_segment incident_id "incident_id"
          >> validate_recorder_file_segment window_id "window_id"
          >> validate_recorder_file_segment marker.marker_id "marker_id")
        (samples_within_freeze_budget (line_len j) ring.samples budget)
        (marker_plan percent root incident_id window_id marker ring budget snapshot) s

  unfoldable pub freeze_recorder_marker :
      String
      → String
      → String
      → RecorderMarker
      → RecorderRing
      → RecorderBudget
      → S
      → S × AdcResult RecorderFreeze
  unfolding freeze_recorder_marker_with_log_snapshot
  freeze_recorder_marker root incident_id window_id marker ring budget s =
      freeze_recorder_marker_with_log_snapshot root incident_id window_id marker ring budget none s
