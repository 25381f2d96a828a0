-- ===== src/Recorder/Logs/Model.antt =====
-- The data of crates/adc-core/src/recorder/logs.rs and the file that a poll finds.
use agent_debug_compass.Prelude.{ℕ, String, Bool, Option, List}
use agent_debug_compass.Prelude.Maps.{BTreeMap}
use agent_debug_compass.Quality.{DataQuality}
use agent_debug_compass.Error.{IoResult}
use agent_debug_compass.Recorder.Model.{RecorderGapRange, TimeRange, CapabilityStatus}

pub record RecorderLogEvent : Type 0 where
  pub schema_version : String
  pub source_id : String
  pub source_kind : String
  pub time_mono_ns : ℕ
  pub severity : String
  pub message : String
  pub line_index : ℕ
  pub data_quality : DataQuality

pub record RecorderLogSourceStatus : Type 0 where
  pub schema_version : String
  pub target_id : String
  pub source_id : String
  pub source_kind : String
  pub source_ref : String
  pub cursor_mode : String
  pub cursor_token : Option String
  pub cursor_confidence : String
  pub continuity_state : String
  pub capability_status : CapabilityStatus
  pub permission_status : String
  pub last_observed_mono_ns : Option ℕ
  pub events_observed : ℕ
  pub events_exported : ℕ
  pub events_truncated : ℕ
  pub rotation_detected : Bool
  pub blackout_ranges : List RecorderGapRange
  pub artifact_refs : BTreeMap String
  pub data_quality : DataQuality

pub record RecorderBlackoutReport : Type 0 where
  pub schema_version : String
  pub target_id : String
  pub incident_id : String
  pub window_id : String
  pub time_range_mono_ns : TimeRange
  pub blackout_detected : Bool
  pub sources : List RecorderLogSourceStatus
  pub data_quality : DataQuality

pub record RecorderLogSnapshot : Type 0 where
  pub source_status : RecorderLogSourceStatus
  pub events : List RecorderLogEvent

pub record FileIdentity : Type 0 where
  pub dev : ℕ
  pub ino : ℕ

pub record AppendOnlyLogCursor : Type 0 where
  pub source_id : String
  pub source_kind : String
  pub source_ref : String
  pub path : String
  pub offset : ℕ
  pub identity : Option FileIdentity
  pub events_observed : ℕ
  pub events_truncated : ℕ
  pub rotation_detected : Bool
  pub blackout_ranges : List RecorderGapRange
  pub retained_events : List RecorderLogEvent

abbrev pub max_log_events_retained : ℕ
max_log_events_retained = 1000

abbrev pub max_log_bytes_per_drain : ℕ
max_log_bytes_per_drain = 65536

pub record FileMetadata : Type 0 where
  pub identity : FileIdentity
  pub len : ℕ

-- The file as one poll finds it: `read offset n` fills a buffer of n bytes from the offset on.
pub record LogFile : Type 0 where
  pub metadata : IoResult FileMetadata
  pub open_file : IoResult (Unit {0})
  pub seek : ℕ → IoResult (Unit {0})
  pub read : ℕ → ℕ → IoResult (List ℕ)
