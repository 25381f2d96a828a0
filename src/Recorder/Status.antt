-- ===== src/Recorder/Status.antt =====
-- The recorder's status: crates/adc-core/src/recorder/status.rs, without the writing and the reading
-- of its file.
use agent_debug_compass.Prelude.{String, Bool, true, false, Option, none, some, if◌then◌else◌, ◌=ₛ◌}
use agent_debug_compass.Quality.{DataQuality, data_quality_for_drop_count}
use agent_debug_compass.Recorder.Model.{RecorderBufferStatus, RecorderBudget}
use agent_debug_compass.Recorder.Budget.{RecorderBudgetStatus, recorder_default_budget_status}
use agent_debug_compass.Recorder.Resource.Model.{RecorderOverhead, RecorderResourceStatus}
use agent_debug_compass.Recorder.Resource.Report.{
  default_recorder_overhead, recorder_resource_status_for_overhead,
}

pub data RecorderState : Type 0 where
  disabled armed recording degraded freezing frozen over_budget error : RecorderState

pub record RecorderStorageStatus : Type 0 where
  pub storage_mode : String
  pub volatile : Bool
  pub survives_daemon_restart : Bool
  pub survives_target_reboot : Bool
  pub survives_power_loss : Bool

pub record RecorderStatus : Type 0 where
  pub schema_version : String
  pub target_id : String
  pub recorder_state : RecorderState
  pub previous_state : Option RecorderState
  pub active_profile : Option String
  pub armed : Bool
  pub storage : RecorderStorageStatus
  pub buffer_status : RecorderBufferStatus
  pub budget : RecorderBudget
  pub budget_status : RecorderBudgetStatus
  pub overhead : RecorderOverhead
  pub resource_status : RecorderResourceStatus
  pub data_quality : DataQuality

pub record RecorderStatusInput : Type 0 where
  pub target_id : String
  pub active_profile : Option String
  pub previous_state : Option String
  pub recorder_state : String
  pub buffer_status : RecorderBufferStatus
  pub budget : RecorderBudget
  pub budget_status : RecorderBudgetStatus
  pub overhead : RecorderOverhead
  pub resource_status : Option RecorderResourceStatus

-- RecorderState::parse: a text that names no state is an error.
unfoldable pub parse : String → RecorderState
parse value =
    if value =ₛ "disabled"
    then disabled
    else if value =ₛ "armed"
    then armed
    else if value =ₛ "recording"
    then recording
    else if value =ₛ "degraded"
    then degraded
    else if value =ₛ "freezing"
    then freezing
    else if value =ₛ "frozen"
    then frozen
    else if value =ₛ "over_budget"
    then over_budget
    else error

unfoldable pub parse_previous : Option String → Option RecorderState
unfolding parse
parse_previous none = none
parse_previous (some value) = some (parse value)

abbrev is_some : Option String → Bool
is_some none = false
is_some (some s) = true

-- `input.resource_status.unwrap_or_else(...)`
resource_status_of : RecorderStatusInput → Option RecorderResourceStatus → RecorderResourceStatus
unfolding recorder_resource_status_for_overhead
resource_status_of input (some status) = status
resource_status_of input none =
    recorder_resource_status_for_overhead input.target_id input.budget input.overhead none

unfoldable pub recorder_status_from_input : RecorderStatusInput → RecorderStatus
unfolding parse_previous parse resource_status_of data_quality_for_drop_count
recorder_status_from_input input = record {
  schema_version = "obs.recorder_status.v1";
  target_id = input.target_id;
  recorder_state = parse input.recorder_state;
  previous_state = parse_previous input.previous_state;
  active_profile = input.active_profile;
  armed = is_some input.active_profile;
  storage = record {
    storage_mode = "memory_ring";
    volatile = true;
    survives_daemon_restart = false;
    survives_target_reboot = false;
    survives_power_loss = false;
  };
  buffer_status = input.buffer_status;
  budget = input.budget;
  budget_status = input.budget_status;
  overhead = input.overhead;
  resource_status = resource_status_of input input.resource_status;
  data_quality = data_quality_for_drop_count input.buffer_status.data_quality.drop_count;
}

unfoldable pub recorder_status_for_with_overhead :
    String
    → Option String
    → Option String
    → String
    → RecorderBufferStatus
    → RecorderBudget
    → RecorderOverhead
    → RecorderStatus
unfolding recorder_status_from_input recorder_default_budget_status
recorder_status_for_with_overhead target_id profile previous state b budget overhead =
    recorder_status_from_input (record {
      target_id = target_id;
      active_profile = profile;
      previous_state = previous;
      recorder_state = state;
      buffer_status = b;
      budget = budget;
      budget_status = recorder_default_budget_status budget 0;
      overhead = overhead;
      resource_status = none;
    })

unfoldable pub recorder_status_for :
    String
    → Option String
    → Option String
    → String
    → RecorderBufferStatus
    → RecorderBudget
    → RecorderStatus
unfolding recorder_status_from_input recorder_default_budget_status default_recorder_overhead
recorder_status_for target_id profile previous state b budget = recorder_status_from_input (record {
  target_id = target_id;
  active_profile = profile;
  previous_state = previous;
  recorder_state = state;
  buffer_status = b;
  budget = budget;
  budget_status = recorder_default_budget_status budget 0;
  overhead = default_recorder_overhead target_id b b.data_quality.drop_count;
  resource_status = none;
})
