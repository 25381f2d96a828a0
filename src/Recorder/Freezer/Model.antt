-- ===== src/Recorder/Freezer/Model.antt =====
-- Markers, frozen windows and incidents of crates/adc-core/src/recorder/model.rs.
use agent_debug_compass.Prelude.{ℕ, String, Bool, Option, List}
use agent_debug_compass.Prelude.Maps.{BTreeMap}
use agent_debug_compass.Quality.{DataQuality}
use agent_debug_compass.Recorder.Model.{
  TimeRange, LossReport, RecorderSample, RecorderObservationCoverage,
}
use agent_debug_compass.Recorder.Budget.{RecorderBudgetStatus, RecorderAdmissionRefusalReason}
use agent_debug_compass.Recorder.Logs.Model.{
  RecorderLogSourceStatus, RecorderBlackoutReport, RecorderLogEvent,
}
use agent_debug_compass.Trigger.Model.{TriggerDecision}

pub record AssertedEventTime : Type 0 where
  pub kind : String
  pub wall_time_unix_ms : Option ℕ
  pub mono_ns : Option ℕ
  pub confidence : String

pub record RecorderMarker : Type 0 where
  pub schema_version : String
  pub marker_id : String
  pub source : String
  pub received_at_mono_ns : ℕ
  pub symptom : String
  pub asserted_event_time : AssertedEventTime
  pub time_policy : String
  pub trust_level : String
  pub agent_instruction_policy : String
  pub data_quality : DataQuality

pub record PreservationReason : Type 0 where
  pub kind : String
  pub name : String

pub record FrozenWindowPersistence : Type 0 where
  pub persistence_mode : String
  pub survives_daemon_restart : Bool
  pub survives_target_reboot : Bool
  pub bounded_by : List String

pub record RecorderFrozenWindow : Type 0 where
  pub schema_version : String
  pub window_id : String
  pub incident_id : String
  pub target_id : String
  pub marker_id : Option String
  pub freeze_reason : String
  pub preservation_reason : PreservationReason
  pub time_range_mono_ns : TimeRange
  pub pre_window_ms : ℕ
  pub post_window_ms : ℕ
  pub persistence : FrozenWindowPersistence
  pub artifact_refs : BTreeMap String
  pub loss_report : LossReport
  pub data_quality : DataQuality

pub record RecorderIncident : Type 0 where
  pub schema_version : String
  pub incident_id : String
  pub target_id : String
  pub incident_state : String
  pub previous_state : String
  pub marker_id : Option String
  pub freeze_reason : String
  pub frozen_window_ref : Option String
  pub loss_report_ref : Option String
  pub created_at_mono_ns : ℕ
  pub updated_at_mono_ns : ℕ
  pub data_quality : DataQuality

pub record RecorderFreeze : Type 0 where
  pub incident : RecorderIncident
  pub marker : RecorderMarker
  pub frozen_window : RecorderFrozenWindow
  pub run_dir : String

pub record RecorderTriggerFreeze : Type 0 where
  pub incident : RecorderIncident
  pub frozen_window : RecorderFrozenWindow
  pub run_dir : String

pub data RecorderFreezeDecisionSource : Type 0 where
  trigger_policy : RecorderFreezeDecisionSource

pub data RecorderFreezeDecisionOutcome : Type 0 where
  refused : RecorderFreezeDecisionOutcome

pub record RecorderFreezeDecision : Type 0 where
  pub schema_version : String
  pub source : RecorderFreezeDecisionSource
  pub decision : RecorderFreezeDecisionOutcome
  pub reason : RecorderAdmissionRefusalReason
  pub budget_status : RecorderBudgetStatus
  pub data_quality : DataQuality

pub record RecorderMarkerResult : Type 0 where
  pub schema_version : String
  pub marker : RecorderMarker
  pub status : String
  pub reason : String
  pub pending_marker_ref : Option String
  pub incident_ref : Option String
  pub expected_incident_id : String
  pub budget_status : Option RecorderBudgetStatus
  pub data_quality : DataQuality

pub record RecorderTriggerFreezeRequest : Type 0 where
  pub incident_id : String
  pub window_id : String
  pub trigger_name : String
  pub trigger_time_mono_ns : ℕ
  pub trigger_decision : Option TriggerDecision

-- The object that freezer.rs writes to trigger_event.json.
pub record RecorderTriggerEvent : Type 0 where
  pub schema_version : String
  pub trigger_name : String
  pub trigger_time_mono_ns : ℕ
  pub agent_contract : String
  pub root_cause_claim : Bool
  pub trigger_decision_ref : String
  pub coverage_ref : String
  pub data_quality : DataQuality

-- What the recorder writes as one JSON file.
pub data Document : Type 0 where
  marker_document : RecorderMarker → Document
  marker_result_document : RecorderMarkerResult → Document
  loss_document : LossReport → Document
  coverage_document : RecorderObservationCoverage → Document
  source_status_document : RecorderLogSourceStatus → Document
  blackout_document : RecorderBlackoutReport → Document
  window_document : RecorderFrozenWindow → Document
  incident_document : RecorderIncident → Document
  trigger_event_document : RecorderTriggerEvent → Document
  trigger_decision_document : TriggerDecision → Document

-- The content of a file of an incident: one JSON value, or a line for each sample or event.
pub data Artifact : Type 0 where
  json : Document → Artifact
  sample_lines : List RecorderSample → Artifact
  event_lines : List RecorderLogEvent → Artifact
