-- ===== src/Recorder/Budget/Inventory.antt =====
-- The incident inventory of crates/adc-core/src/recorder/budget.rs: the scan of the incident
-- directory that the freeze admission goes by.
use Prim.Native.String.{◌++◌}
use agent_debug_compass.Prelude.{
  ℕ, String, Bool, true, false, not, ◌&&◌, ◌||◌, Option, none, some, List, [], ◌∷◌, ltb, leb,
  sat_add, wrap_add, ◌=ₛ◌, if◌then◌else◌,
}
use agent_debug_compass.Error.{AdcResult, ok, err}
use agent_debug_compass.Recorder.Model.{RecorderBudget}
use agent_debug_compass.Recorder.Validation.{validate_recorder_file_segment}
use agent_debug_compass.Recorder.Budget.{
  RecorderBudgetStatus, RecorderBudgetInventorySummary, default_summary, counted_incidents_only,
  full_inventory, unknown, incident_inventory_unreadable, incident_inventory_unreliable,
  recorder_budget_status_from_counts,
}

-- What fs::symlink_metadata tells of a path; a symbolic link is neither a file nor a directory.
pub record Metadata : Type 0 where
  pub is_dir : Bool
  pub is_file : Bool
  pub is_symlink : Bool
  pub len : ℕ

pub data MetadataResult : Type 0 where
  found : Metadata → MetadataResult
  not_found : MetadataResult
  failed : MetadataResult

-- An entry of fs::read_dir: one that cannot be read, one whose name is no UTF-8, or a name.
pub data DirEntry : Type 0 where
  unreadable_entry : DirEntry
  not_utf8 : DirEntry
  named : String → DirEntry

pub record FileSystem : Type 0 where
  pub symlink_metadata : String → MetadataResult
  pub read_dir : String → Option (List DirEntry)
  pub read : String → Option String
  -- serde_json::from_slice, then `.get("schema_version").and_then(as_str)`
  pub schema_version : String → Option (Option String)

pub data IncidentInventoryEntryError : Type 0 where
  malformed unreadable : IncidentInventoryEntryError

-- Result<A, IncidentInventoryEntryError>
pub data Checked (A : Type 0) : Type 0 where
  valid : A → Checked A
  invalid : IncidentInventoryEntryError → Checked A

module _ (fs : FileSystem) where
  open fs use {symlink_metadata, read_dir, read, schema_version}

  abbrev pub check_schema : Option String → Checked (Unit {0})
  check_schema none = invalid malformed
  check_schema (some s) = if s =ₛ "obs.recorder_incident.v1" then valid tt else invalid malformed

  abbrev pub check_json : Option (Option String) → Checked (Unit {0})
  check_json none = invalid malformed
  check_json (some version) = check_schema version

  abbrev pub check_text : Option String → Checked (Unit {0})
  check_text none = invalid unreadable
  check_text (some bytes) = check_json (schema_version bytes)

  abbrev pub check_metadata : String → MetadataResult → Checked (Unit {0})
  check_metadata path not_found = invalid malformed
  check_metadata path failed = invalid unreadable
  check_metadata path (found m) =
      if m.is_symlink || not m.is_file then invalid malformed else check_text (read path)

  unfoldable pub validate_regular_incident_json : String → Checked (Unit {0})
  validate_regular_incident_json path = check_metadata path (symlink_metadata path)

  abbrev pub file_bytes : MetadataResult → ℕ
  file_bytes (found m) = if m.is_file && not m.is_symlink then m.len else 0
  file_bytes _ = 0

  abbrev pub sum_bytes : String → List String → ℕ
  sum_bytes dir [] = 0
  sum_bytes dir (name ∷ names) =
      wrap_add (file_bytes (symlink_metadata (dir ++ "/" ++ name))) (sum_bytes dir names)

  unfoldable pub recorder_incident_known_artifact_bytes : String → ℕ
  recorder_incident_known_artifact_bytes dir = sum_bytes dir (
      "incident.json" ∷ "frozen_window.json" ∷ "loss_report.json" ∷ "samples.jsonl" ∷ "marker.json"
      ∷ "trigger_event.json" ∷ [])

  abbrev pub checked_incident : String → Checked (Unit {0}) → Checked ℕ
  checked_incident dir (valid _) = valid (recorder_incident_known_artifact_bytes dir)
  checked_incident dir (invalid e) = invalid e

  abbrev pub check_incident_dir : String → MetadataResult → Checked ℕ
  check_incident_dir dir (found m) =
      if m.is_symlink || not m.is_dir
      then invalid malformed
      else checked_incident dir (validate_regular_incident_json (dir ++ "/incident.json"))
  check_incident_dir dir _ = invalid unreadable

  abbrev pub check_segment : String → String → AdcResult (Unit {0}) → Checked ℕ
  check_segment incidents_dir name (err e) = invalid malformed
  check_segment incidents_dir name (ok _) =
      check_incident_dir (incidents_dir ++ "/" ++ name)
        (symlink_metadata (incidents_dir ++ "/" ++ name))

  -- The body of the loop up to the counters: the bytes of a valid incident, or why it is none.
  unfoldable pub check_entry : String → DirEntry → Checked ℕ
  unfolding validate_regular_incident_json recorder_incident_known_artifact_bytes
  check_entry incidents_dir unreadable_entry = invalid unreadable
  check_entry incidents_dir not_utf8 = invalid malformed
  check_entry incidents_dir (named name) =
      check_segment incidents_dir name (validate_recorder_file_segment name "incident_id")

-- The counters of the loop.
pub record InventoryCounts : Type 0 where
  pub valid_count : ℕ
  pub retained_bytes : ℕ
  pub malformed_count : ℕ
  pub unreadable_count : ℕ
  pub inventory_truncated : Bool

abbrev pub no_counts : InventoryCounts
no_counts = record {
  valid_count = 0;
  retained_bytes = 0;
  malformed_count = 0;
  unreadable_count = 0;
  inventory_truncated = false;
}

abbrev pub count_valid : ℕ → InventoryCounts → InventoryCounts
count_valid bytes c = record c {
  valid_count = sat_add c.valid_count 1;
  retained_bytes = sat_add c.retained_bytes bytes;
}

-- The loop over the entries: it stops at `limit` valid incidents.
unfoldable pub scan_entries : ℕ → List (Checked ℕ) → InventoryCounts → InventoryCounts
scan_entries limit [] c = c
scan_entries limit (valid bytes ∷ rest) c =
    let c' = count_valid bytes c in
    let more = scan_entries limit rest c' in
    if leb limit c'.valid_count then record c' { inventory_truncated = true } else more
scan_entries limit (invalid malformed ∷ rest) c =
    scan_entries limit rest (record c { malformed_count = sat_add c.malformed_count 1 })
scan_entries limit (invalid unreadable ∷ rest) c =
    scan_entries limit rest (record c { unreadable_count = sat_add c.unreadable_count 1 })

abbrev pub summary_of : InventoryCounts → RecorderBudgetInventorySummary
summary_of c = record {
  existing_frozen_incidents = c.valid_count;
  retained_artifact_bytes_estimate = c.retained_bytes;
  retained_artifact_bytes_estimate_scope =
      if c.inventory_truncated then counted_incidents_only else full_inventory;
  inventory_truncated = c.inventory_truncated;
  malformed_entry_count = c.malformed_count;
  unreadable_entry_count = c.unreadable_count;
  inventory_refusal_reason =
      if ltb 0 c.malformed_count || ltb 0 c.unreadable_count
      then some incident_inventory_unreliable
      else none;
}

abbrev pub check_entries : FileSystem → String → List DirEntry → List (Checked ℕ)
check_entries fs dir [] = []
check_entries fs dir (e ∷ es) = check_entry fs dir e ∷ check_entries fs dir es

-- What the status is made of, by what read_dir answers.
abbrev summary_of_dir :
    FileSystem → String → RecorderBudget → Option (List DirEntry) → RecorderBudgetInventorySummary
summary_of_dir fs dir budget none = record default_summary {
  retained_artifact_bytes_estimate_scope = unknown;
  unreadable_entry_count = 1;
  inventory_refusal_reason = some incident_inventory_unreadable;
}
summary_of_dir fs dir budget (some entries) =
    summary_of (
      scan_entries (sat_add budget.max_frozen_incidents 1) (check_entries fs dir entries) no_counts)

abbrev inventory_of :
    FileSystem → String → RecorderBudget → MetadataResult → RecorderBudgetInventorySummary
inventory_of fs dir budget (found m) =
    if not m.is_dir || m.is_symlink
    then record default_summary {
      retained_artifact_bytes_estimate_scope = unknown;
      malformed_entry_count = 1;
      inventory_refusal_reason = some incident_inventory_unreliable;
    }
    else summary_of_dir fs dir budget (fs.read_dir dir)
inventory_of fs dir budget _ = default_summary

abbrev pub incidents_dir_of : String → String
incidents_dir_of artifact_root = artifact_root ++ "/recorder/incidents"

unfoldable pub recorder_incident_budget_status :
    FileSystem → String → RecorderBudget → ℕ → RecorderBudgetStatus
unfolding scan_entries check_entry recorder_budget_status_from_counts
recorder_incident_budget_status fs artifact_root budget this_run =
    let dir = incidents_dir_of artifact_root in
    recorder_budget_status_from_counts budget this_run
      (inventory_of fs dir budget (fs.symlink_metadata dir))
