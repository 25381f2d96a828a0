-- ===== src/Recorder/Model.antt =====
-- The recorder's data: crates/adc-core/src/recorder/model.rs.
use agent_debug_compass.Prelude.{ℕ, String, Bool, List, Option}
use agent_debug_compass.Prelude.Float.{F64}
use agent_debug_compass.Quality.{DataQuality}

pub record RecorderSignalSample : Type 0 where
  pub signal_id : String
  pub value : F64

pub record RecorderSample : Type 0 where
  pub time_mono_ns : ℕ
  pub signals : List RecorderSignalSample

pub record RecorderTimeRange : Type 0 where
  pub start : Option ℕ
  pub end : Option ℕ

pub record RecorderGapRange : Type 0 where
  pub start_mono_ns : ℕ
  pub end_mono_ns : ℕ

pub record RecorderSignalStatus : Type 0 where
  pub signal_id : String
  pub configured_interval_ms : ℕ
  pub expected_samples : Option ℕ
  pub recorded_samples : ℕ
  pub dropped_samples : ℕ
  pub gap_ranges : List RecorderGapRange
  pub degraded : Bool
  pub data_quality : DataQuality

pub record RecorderBufferStatus : Type 0 where
  pub schema_version : String
  pub target_id : String
  pub storage_mode : String
  pub volatile : Bool
  pub survives_daemon_restart : Bool
  pub survives_target_reboot : Bool
  pub survives_power_loss : Bool
  pub retention_ms : ℕ
  pub current_retained_range_mono_ns : RecorderTimeRange
  pub signals : List RecorderSignalStatus
  pub data_quality : DataQuality

pub record RecorderBudget : Type 0 where
  pub schema_version : String
  pub budget_id : String
  pub max_memory_bytes : ℕ
  pub max_samples_per_second : ℕ
  pub max_collectors : ℕ
  pub max_frozen_incidents : ℕ
  pub max_freeze_bytes : ℕ
  pub max_post_window_ms : ℕ
  pub max_retention_ms : ℕ
  pub max_status_write_interval_ms : ℕ
  pub max_ref_lines : ℕ
  pub max_cpu_percent : F64
  pub max_disk_bytes : ℕ
  pub collector_priority : List String
  pub degradation_policies : List String
  pub data_quality : DataQuality

pub data RecorderLayer : Type 0 where
  app middleware os kernel driver hardware network adc_self unknown : RecorderLayer

pub data CapabilityStatus : Type 0 where
  supported degraded unavailable requires_privilege unsafe unknown : CapabilityStatus

pub record RecorderExpectedSignal : Type 0 where
  pub schema_version : String
  pub signal_id : String
  pub collector_id : String
  pub layer : RecorderLayer
  pub configured_interval_ms : ℕ
  pub effective_interval_ms : ℕ
  pub required_capability : Option String
  pub capability_status : CapabilityStatus
  pub required_privilege : String
  pub cost_tier : String
  pub priority : String
  pub expected_samples : Option ℕ
  pub expected : Bool
  pub expectation_source : String
  pub data_quality : DataQuality

pub record TimeRange : Type 0 where
  pub start : ℕ
  pub end : ℕ

pub record CollectorLoss : Type 0 where
  pub collector_id : String
  pub expected_samples : Option ℕ
  pub recorded_samples : ℕ
  pub retained_samples_before_freeze : ℕ
  pub exported_samples : ℕ
  pub truncated_samples_due_to_freeze_budget : ℕ
  pub dropped_samples : ℕ
  pub gap_ranges : List RecorderGapRange
  pub collectors_degraded : List String
  pub loss_reasons : List String
  pub loss_confidence : String

pub record LossReport : Type 0 where
  pub schema_version : String
  pub window_id : String
  pub collector_loss : List CollectorLoss
  pub data_quality : DataQuality

pub data RecorderCoverageState : Type 0 where
  covered partial missing unavailable not_expected degraded unknown : RecorderCoverageState

pub data RecorderCoverageConfidence : Type 0 where
  unknown low medium high : RecorderCoverageConfidence

pub data ExpectedSamplesBasis : Type 0 where
  configured_profile_interval : ExpectedSamplesBasis
  budgeted_recorder_interval : ExpectedSamplesBasis
  inferred unknown : ExpectedSamplesBasis

pub record RecorderSignalCoverage : Type 0 where
  pub signal_id : String
  pub expected : Bool
  pub coverage_state : RecorderCoverageState
  pub coverage_confidence : RecorderCoverageConfidence
  pub configured_interval_ms : ℕ
  pub effective_interval_ms : ℕ
  pub expected_samples_configured : Option ℕ
  pub expected_samples_budgeted : Option ℕ
  pub expected_samples : Option ℕ
  pub expected_samples_basis : ExpectedSamplesBasis
  pub retained_samples_before_freeze : ℕ
  pub exported_samples : ℕ
  pub dropped_samples : ℕ
  pub truncated_samples_due_to_freeze_budget : ℕ
  pub loss_report_ref : String
  pub loss_collector_id : String
  pub loss_reasons : List String
  pub capability_status : CapabilityStatus
  pub data_quality : DataQuality

pub record RecorderCoverageSummary : Type 0 where
  pub expected_signal_count : ℕ
  pub covered_signal_count : ℕ
  pub missing_signal_count : ℕ
  pub partial_signal_count : ℕ
  pub unavailable_signal_count : ℕ
  pub overall_coverage_percent : F64

pub record RecorderObservationCoverage : Type 0 where
  pub schema_version : String
  pub target_id : String
  pub incident_id : String
  pub window_id : String
  pub time_range_mono_ns : TimeRange
  pub coverage_scope : String
  pub expected_signals : List RecorderExpectedSignal
  pub signals : List RecorderSignalCoverage
  pub summary : RecorderCoverageSummary
  pub loss_report_ref : String
  pub data_quality : DataQuality
