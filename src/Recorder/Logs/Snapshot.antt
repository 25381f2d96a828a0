-- ===== src/Recorder/Logs/Snapshot.antt =====
-- The status of a log source, the snapshot of a poll and the blackout report:
-- crates/adc-core/src/recorder/logs.rs.
use agent_debug_compass.Prelude.{
  ℕ, String, Bool, true, false, not, ◌||◌, none, some, List, [], ◌∷◌, length, is_empty, ltb,
  if◌then◌else◌, ◌=ₛ◌,
}
use agent_debug_compass.Prelude.Text.{format, show}
use agent_debug_compass.Quality.{
  DataQuality, default_data_quality, medium_quality, medium, push_missing, push_note,
}
use agent_debug_compass.Recorder.Model.{TimeRange, CapabilityStatus, supported}
use agent_debug_compass.Recorder.Logs.{poll_inner}
use agent_debug_compass.Recorder.Logs.Model.{
  AppendOnlyLogCursor, RecorderLogSourceStatus, RecorderLogSnapshot, RecorderBlackoutReport,
  LogFile,
}
use agent_debug_compass.Error.{IoResult, done, io_error}

unfoldable pub rotation_quality : AppendOnlyLogCursor → DataQuality → DataQuality
rotation_quality c q =
    if c.rotation_detected
    then push_note "log source rotation or truncation was detected" (record q { truncated = true })
    else q

truncated_text : ℕ → String
unfolding format show
truncated_text n = format (show n ∷ " log event(s) were truncated by log cursor budget" ∷ [])

unfoldable pub truncation_quality : AppendOnlyLogCursor → DataQuality → DataQuality
unfolding truncated_text
truncation_quality c q =
    if ltb 0 c.events_truncated
    then push_note (truncated_text c.events_truncated) (record q { truncated = true })
    else q

unfoldable pub status :
    AppendOnlyLogCursor → String → String → ℕ → DataQuality → RecorderLogSourceStatus
unfolding rotation_quality truncation_quality show
status c target_id continuity_state time q = record {
  schema_version = "obs.recorder_log_source_status.v1";
  target_id = target_id;
  source_id = c.source_id;
  source_kind = c.source_kind;
  source_ref = c.source_ref;
  cursor_mode = "append_offset_fallback";
  cursor_token = some (show c.offset);
  cursor_confidence = "medium";
  continuity_state = continuity_state;
  capability_status = supported;
  permission_status = "readable";
  last_observed_mono_ns = some time;
  events_observed = c.events_observed;
  events_exported = length c.retained_events;
  events_truncated = c.events_truncated;
  rotation_detected = c.rotation_detected;
  blackout_ranges = c.blackout_ranges;
  artifact_refs = [];
  data_quality = truncation_quality c (rotation_quality c q);
}

unavailable_text : AppendOnlyLogCursor → String → String
unfolding format
unavailable_text c e =
    format (c.source_id ∷ " source unavailable: artifact operation failed: " ∷ e ∷ [])

unfoldable pub snapshot_of :
    String → ℕ → AppendOnlyLogCursor → IoResult String → RecorderLogSnapshot
unfolding status unavailable_text
snapshot_of target_id time c (done state) = record {
  source_status = status c target_id state time medium_quality;
  events = c.retained_events;
}
snapshot_of target_id time c (io_error e) = record {
  source_status = status c target_id "unavailable" time (
      push_missing (unavailable_text c e)
        (record default_data_quality { clock_confidence = medium }));
  events = c.retained_events;
}

module _ (lines : List ℕ → List String) (trim : String → String) where
  -- AppendOnlyLogCursor::poll: the cursor afterwards and the snapshot.
  unfoldable pub poll :
      LogFile → String → ℕ → AppendOnlyLogCursor → AppendOnlyLogCursor × RecorderLogSnapshot
  unfolding poll_inner snapshot_of
  poll f target_id time c =
      let p = poll_inner lines trim f time c in
      (p.cursor, snapshot_of target_id time p.cursor p.result)

is_gap_text : String → Bool
is_gap_text s =
    (s =ₛ "gap_detected")
    || ((s =ₛ "rotated") || ((s =ₛ "unavailable") || (s =ₛ "permission_denied")))

unfoldable pub blackout_report_for_log_snapshot :
    String → String → String → TimeRange → RecorderLogSnapshot → RecorderBlackoutReport
unfolding is_gap_text
blackout_report_for_log_snapshot target_id incident_id window_id time_range snapshot =
    let s = snapshot.source_status in
    let detected = is_gap_text s.continuity_state || not (is_empty s.blackout_ranges) in
    record {
      schema_version = "obs.recorder_blackout_report.v1";
      target_id = target_id;
      incident_id = incident_id;
      window_id = window_id;
      time_range_mono_ns = time_range;
      blackout_detected = detected;
      sources = s ∷ [];
      data_quality =
          if detected
          then push_note "one or more expected log sources had a continuity gap"
              (record medium_quality { truncated = true })
          else medium_quality;
    }

unfoldable pub unavailable_app_log_snapshot : String → ℕ → String → RecorderLogSnapshot
unavailable_app_log_snapshot target_id time reason = record {
  source_status = record {
    schema_version = "obs.recorder_log_source_status.v1";
    target_id = target_id;
    source_id = "app_log";
    source_kind = "append_file";
    source_ref = "target://logs/app_log";
    cursor_mode = "unknown";
    cursor_token = none;
    cursor_confidence = "unknown";
    continuity_state = "unavailable";
    capability_status = CapabilityStatus.unknown;
    permission_status = "unavailable";
    last_observed_mono_ns = some time;
    events_observed = 0;
    events_exported = 0;
    events_truncated = 0;
    rotation_detected = false;
    blackout_ranges = record { start_mono_ns = time; end_mono_ns = time } ∷ [];
    artifact_refs = [];
    data_quality = push_missing reason (record default_data_quality { clock_confidence = medium });
  };
  events = [];
}

unfoldable pub log_source_status_has_continuity : RecorderLogSourceStatus → Bool
log_source_status_has_continuity s =
    (s.continuity_state =ₛ "continuous") || (s.continuity_state =ₛ "silent_with_continuity")
