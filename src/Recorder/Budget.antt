-- ===== src/Recorder/Budget.antt =====
-- Capacity and freeze admission: crates/adc-core/src/recorder/budget.rs.
-- The file system and the JSON reader are parameters: `FileSystem` holds what symlink_metadata,
-- read_dir and read answer for a path, and what serde_json finds under "schema_version" in a text.
-- Paths are texts, joined with a slash. `usize` has 64 bits.
pub mod Inventory
pub mod Admission
pub mod Capacity
use Prim.Native.String.{◌++◌}
use agent_debug_compass.Prelude.{
  ℕ, ◌-◌, ◌*◌, ◌/◌, String, Bool, true, false, ◌||◌, Option, none, some, List, [], ◌∷◌, ltb, leb,
  max, min, sat_add, sat_mul, if◌then◌else◌,
}
use agent_debug_compass.Prelude.Text.{format, show}
use agent_debug_compass.Quality.{DataQuality, medium_quality, push_missing, push_note}
use agent_debug_compass.Recorder.Model.{RecorderBudget}

pub data RecorderAdmissionDecision : Type 0 where
  accept refuse unknown_fail_closed : RecorderAdmissionDecision

pub data RecorderAdmissionRefusalReason : Type 0 where
  max_frozen_incidents_exceeded : RecorderAdmissionRefusalReason
  incident_inventory_unreadable : RecorderAdmissionRefusalReason
  incident_inventory_unreliable : RecorderAdmissionRefusalReason

pub data RetainedArtifactBytesEstimateScope : Type 0 where
  counted_incidents_only full_inventory unknown : RetainedArtifactBytesEstimateScope

pub data RecorderIncidentCountScope : Type 0 where
  artifact_root : RecorderIncidentCountScope

pub record RecorderBudgetStatus : Type 0 where
  pub schema_version : String
  pub budget_id : String
  pub incident_count_scope : RecorderIncidentCountScope
  pub admission_decision : RecorderAdmissionDecision
  pub admission_refusal_reason : Option RecorderAdmissionRefusalReason
  pub max_frozen_incidents : ℕ
  pub existing_frozen_incidents : ℕ
  pub frozen_incidents_this_run : ℕ
  pub remaining_frozen_incidents : ℕ
  pub current_run_included_in_existing : Bool
  pub max_disk_bytes : ℕ
  pub retained_artifact_bytes_estimate : ℕ
  pub retained_artifact_bytes_estimate_scope : RetainedArtifactBytesEstimateScope
  pub inventory_truncated : Bool
  pub malformed_entry_count : ℕ
  pub unreadable_entry_count : ℕ
  pub data_quality : DataQuality

pub record RecorderBudgetInventorySummary : Type 0 where
  pub existing_frozen_incidents : ℕ
  pub retained_artifact_bytes_estimate : ℕ
  pub retained_artifact_bytes_estimate_scope : RetainedArtifactBytesEstimateScope
  pub inventory_truncated : Bool
  pub malformed_entry_count : ℕ
  pub unreadable_entry_count : ℕ
  pub inventory_refusal_reason : Option RecorderAdmissionRefusalReason

abbrev pub default_summary : RecorderBudgetInventorySummary
default_summary = record {
  existing_frozen_incidents = 0;
  retained_artifact_bytes_estimate = 0;
  retained_artifact_bytes_estimate_scope = full_inventory;
  inventory_truncated = false;
  malformed_entry_count = 0;
  unreadable_entry_count = 0;
  inventory_refusal_reason = none;
}

unfoldable pub recorder_ring_capacity_for_budget : RecorderBudget → ℕ
recorder_ring_capacity_for_budget budget =
    let retention_seconds = sat_add budget.max_retention_ms 999 / 1000 in
    let capacity_by_rate = sat_mul budget.max_samples_per_second (max retention_seconds 1) in
    let capacity_by_memory = budget.max_memory_bytes / 256 in
    max (min capacity_by_rate capacity_by_memory) 1

abbrev pub admission :
    RecorderBudget
    → RecorderBudgetInventorySummary
    → Option RecorderAdmissionRefusalReason
    → RecorderAdmissionDecision × Option RecorderAdmissionRefusalReason
admission budget inventory (some reason) = (unknown_fail_closed, some reason)
admission budget inventory none =
    if leb budget.max_frozen_incidents inventory.existing_frozen_incidents
    then (refuse, some max_frozen_incidents_exceeded)
    else (accept, none)

abbrev is_counted_only : RetainedArtifactBytesEstimateScope → Bool
is_counted_only counted_incidents_only = true
is_counted_only _ = false

note_truncated : RecorderBudget → Bool → DataQuality → DataQuality
unfolding format show
note_truncated budget truncated q =
    if truncated
    then push_note
        (format (
          "recorder incident inventory stopped after max_frozen_incidents+1="
          ∷ show (sat_add budget.max_frozen_incidents 1)
          ∷ []))
        (record q { truncated = true })
    else q

note_scope : Bool → DataQuality → DataQuality
note_scope partial q =
    if partial
    then push_note "retained_artifact_bytes_estimate is partial for counted incidents only" q
    else q

note_unreliable : ℕ → ℕ → DataQuality → DataQuality
unfolding format show
note_unreliable malformed unreadable q =
    if ltb 0 malformed || ltb 0 unreadable
    then push_note
        (format (
          "malformed incident entries: "
          ∷ show malformed
          ∷ "; unreadable incident entries: "
          ∷ show unreadable
          ∷ []))
        (push_missing "recorder incident inventory is unreliable; freeze admission failed closed"
          (record q { throttled = true }))
    else q

unfoldable pub recorder_budget_status_from_counts :
    RecorderBudget → ℕ → RecorderBudgetInventorySummary → RecorderBudgetStatus
unfolding note_truncated note_scope note_unreliable
recorder_budget_status_from_counts budget this_run inventory =
    let (decision, reason) = admission budget inventory inventory.inventory_refusal_reason in
    record {
      schema_version = "obs.recorder_budget_status.v1";
      budget_id = budget.budget_id;
      incident_count_scope = artifact_root;
      admission_decision = decision;
      admission_refusal_reason = reason;
      max_frozen_incidents = budget.max_frozen_incidents;
      existing_frozen_incidents = inventory.existing_frozen_incidents;
      frozen_incidents_this_run = this_run;
      remaining_frozen_incidents =
          budget.max_frozen_incidents - inventory.existing_frozen_incidents;
      current_run_included_in_existing = true;
      max_disk_bytes = budget.max_disk_bytes;
      retained_artifact_bytes_estimate = inventory.retained_artifact_bytes_estimate;
      retained_artifact_bytes_estimate_scope = inventory.retained_artifact_bytes_estimate_scope;
      inventory_truncated = inventory.inventory_truncated;
      malformed_entry_count = inventory.malformed_entry_count;
      unreadable_entry_count = inventory.unreadable_entry_count;
      data_quality =
          push_note
            "existing_frozen_incidents includes current-run materialized incidents; frozen_incidents_this_run is informational"
            (note_unreliable inventory.malformed_entry_count inventory.unreadable_entry_count (
              note_scope (is_counted_only inventory.retained_artifact_bytes_estimate_scope)
                (note_truncated budget inventory.inventory_truncated medium_quality)));
    }

unfoldable pub recorder_default_budget_status : RecorderBudget → ℕ → RecorderBudgetStatus
unfolding recorder_budget_status_from_counts
recorder_default_budget_status budget this_run =
    recorder_budget_status_from_counts budget this_run default_summary
