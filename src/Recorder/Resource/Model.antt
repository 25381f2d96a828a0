-- ===== src/Recorder/Resource/Model.antt =====
-- The power, resource and overhead types of crates/adc-core/src/recorder/model.rs.
use agent_debug_compass.Prelude.{ℕ, String, Bool, Option, List}
use agent_debug_compass.Prelude.Float.{F64}
use agent_debug_compass.Quality.{DataQuality}

pub data RecorderOverheadScope : Type 0 where
  service_run current_status_snapshot incident artifact_root_total : RecorderOverheadScope

pub record RecorderOverhead : Type 0 where
  pub schema_version : String
  pub target_id : String
  pub overhead_scope : RecorderOverheadScope
  pub since_mono_ns : Option ℕ
  pub through_mono_ns : Option ℕ
  pub cpu_percent : Option F64
  pub memory_bytes : Option ℕ
  pub disk_write_bytes : ℕ
  pub artifact_bytes : ℕ
  pub status_write_bytes : ℕ
  pub frozen_artifact_bytes : ℕ
  pub samples_jsonl_bytes : ℕ
  pub incident_count : ℕ
  pub estimated_memory_ring_bytes : ℕ
  pub wakeup_rate_hz : Option F64
  pub self_samples_dropped : ℕ
  pub data_quality : DataQuality

pub record RecorderOverheadAccounting : Type 0 where
  pub overhead_scope : RecorderOverheadScope
  pub since_mono_ns : Option ℕ
  pub through_mono_ns : Option ℕ
  pub disk_write_bytes : ℕ
  pub artifact_bytes : ℕ
  pub status_write_bytes : ℕ
  pub frozen_artifact_bytes : ℕ
  pub samples_jsonl_bytes : ℕ
  pub incident_count : ℕ

pub data RecorderPowerSource : Type 0 where
  ac_power battery external unknown : RecorderPowerSource

pub data RecorderBatteryState : Type 0 where
  charging discharging full low critical absent unknown : RecorderBatteryState

pub data RecorderResourceScope : Type 0 where
  service_run current_status_snapshot : RecorderResourceScope

pub data RecorderPowerMode : Type 0 where
  unknown ac_power battery_normal battery_low battery_critical : RecorderPowerMode

pub data RecorderDegradationReason : Type 0 where
  battery_low battery_critical memory_budget sample_rate_budget unknown_power_conservative_policy :
      RecorderDegradationReason

pub data RecorderDegradationAction : Type 0 where
  downsample shorten_retention drop_low_priority_signal reduce_status_write_rate refuse_freeze
        partial_freeze :
      RecorderDegradationAction

pub record RecorderDegradationDecision : Type 0 where
  pub schema_version : String
  pub decision_id : String
  pub reason : RecorderDegradationReason
  pub actions : List RecorderDegradationAction
  pub affected_signals : List String
  pub preserved_signals : List String
  pub data_quality : DataQuality

pub record RecorderPowerPolicyMode : Type 0 where
  pub mode : RecorderPowerMode
  pub max_samples_per_second : ℕ
  pub max_retention_ms : ℕ
  pub low_priority_signals_enabled : Bool
  pub data_quality : DataQuality

pub record RecorderPowerPolicy : Type 0 where
  pub schema_version : String
  pub policy_id : String
  pub modes : List RecorderPowerPolicyMode
  pub data_quality : DataQuality

pub record RecorderResourceStatus : Type 0 where
  pub schema_version : String
  pub target_id : String
  pub resource_scope : RecorderResourceScope
  pub power_source : RecorderPowerSource
  pub battery_state : RecorderBatteryState
  pub battery_percent : Option F64
  pub policy_mode : RecorderPowerMode
  pub estimated_ring_memory_bytes : ℕ
  pub max_memory_bytes : ℕ
  pub wakeup_rate_hz : Option F64
  pub recorder_loop_rate_hz : Option F64
  pub recorder_sample_rate_hz : Option F64
  pub status_write_rate_hz : Option F64
  pub continuous_ring_disk_write_bytes : ℕ
  pub status_write_bytes : ℕ
  pub frozen_artifact_write_bytes : ℕ
  pub network_upload_bytes : ℕ
  pub degradation_decisions : List RecorderDegradationDecision
  pub data_quality : DataQuality

pub record RecorderPowerSnapshot : Type 0 where
  pub power_source : RecorderPowerSource
  pub battery_state : RecorderBatteryState
  pub battery_percent : Option F64
  pub data_quality : DataQuality

pub record RecorderResourceRates : Type 0 where
  pub recorder_loop_rate_hz : Option F64
  pub recorder_sample_rate_hz : Option F64
  pub status_write_rate_hz : Option F64
