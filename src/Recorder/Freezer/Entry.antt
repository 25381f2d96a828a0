-- ===== src/Recorder/Freezer/Entry.antt =====
-- An incident's directory as check_entry of crates/adc-core/src/recorder/budget.rs sees it.
use Prim.Native.String.{◌++◌}
use agent_debug_compass.Prelude.{
  ◌≡◌, ◌≢◌, refl, inl, inr, String, Bool, true, false, not, ◌||◌, none, some, Bool-cases,
}
use agent_debug_compass.Error.{AdcResult, ok, err, done}
use agent_debug_compass.Recorder.Validation.{validate_recorder_file_segment}
use agent_debug_compass.Recorder.Budget.Inventory.{
  FileSystem, MetadataResult, found, not_found, failed, Checked, valid, invalid, named, check_entry,
  check_segment, check_incident_dir, checked_incident, validate_regular_incident_json,
  incidents_dir_of,
}
use agent_debug_compass.Recorder.Freezer.Model.{RecorderIncident, incident_document}
use agent_debug_compass.Recorder.Freezer.Store.{Disk, Json, IsAbsent, IsDirectory, IsFile, IsCutOff}
use agent_debug_compass.Recorder.Freezer.Window.{incident_dir_of}

abbrev pub is_valid : {A : Type 0} → Checked A → Bool
is_valid (valid a) = true
is_valid (invalid e) = false

-- serde_json on the text that it wrote for an incident, which is a JSON object: it reads the version
-- back, and reads no value from a beginning of the text, since an object ends with its last brace.
pub record IsSerde (S : Type 0) (d : Disk S) (j : Json) : Type 0 where
  pub read_back :
      (i : RecorderIncident) (t : String) (s : S)
      → j.to_vec_pretty (incident_document i) ≡ done t
      → (d.view s).schema_version t ≡ some (some i.schema_version)
  pub no_value :
      (i : RecorderIncident) (t first rest : String) (s : S)
      → j.to_vec_pretty (incident_document i) ≡ done t
      → t ≡ first ++ rest
      → rest ≢ ""
      → (d.view s).schema_version first ≡ none

module _ (fs : FileSystem) where
  pub absent-not_valid :
      (path : String) → IsAbsent fs path → is_valid (validate_regular_incident_json fs path) ≡ false
  unfolding validate_regular_incident_json
  absent-not_valid path h = rw (h) refl

  -- What a failed write left is not valid, when no beginning of its text is a JSON value.
  pub cut_off-not_valid :
      (path text : String)
      → IsCutOff fs path text
      → ((first rest : String) → text ≡ first ++ rest → rest ≢ "" → fs.schema_version first ≡ none)
      → is_valid (validate_regular_incident_json fs path) ≡ false
  unfolding validate_regular_incident_json
  cut_off-not_valid path text h k = elim h.contents [
    | inl e ↦ rw (h.stat, h.file, h.no_symlink, e) refl
    | inr (first, rest, e, split, more) ↦
        rw (h.stat, h.file, h.no_symlink, e, k first rest split more) refl
  ]

  pub file-valid :
      (path text : String)
      → IsFile fs path text
      → fs.schema_version text ≡ some (some "obs.recorder_incident.v1")
      → is_valid (validate_regular_incident_json fs path) ≡ true
  unfolding validate_regular_incident_json
  file-valid path text h k = rw (h.stat, h.file, h.no_symlink, h.contents, k) refl

  checked-valid :
      (dir : String) (c : Checked (Unit {0})) → is_valid (checked_incident fs dir c) ≡ is_valid c
  checked-valid dir (valid u) = refl
  checked-valid dir (invalid e) = refl

  -- The entry of a directory with a proper name is as valid as its incident.json.
  pub entry-valid :
      (root id : String)
      → validate_recorder_file_segment id "incident_id" ≡ ok tt
      → IsDirectory fs (incident_dir_of root id)
      → is_valid (check_entry fs (incidents_dir_of root) (named id))
        ≡ is_valid (validate_regular_incident_json fs (incident_dir_of root id ++ "/incident.json"))
  unfolding check_entry incident_dir_of
  entry-valid root id v h =
      rw (v, h.stat, h.directory, h.no_symlink)
        (checked-valid (incident_dir_of root id)
          (validate_regular_incident_json fs (incident_dir_of root id ++ "/incident.json")))

  dir-not_valid :
      (dir : String) (r : MetadataResult)
      → is_valid (validate_regular_incident_json fs (dir ++ "/incident.json")) ≡ false
      → is_valid (check_incident_dir fs dir r) ≡ false
  dir-not_valid dir not_found h = refl
  dir-not_valid dir failed h = refl
  dir-not_valid dir (found m) h = elim (Bool-cases (m.is_symlink || not m.is_dir)) [
    | inl e ↦ rw (e) refl
    | inr e ↦
        rw (e, checked-valid dir (validate_regular_incident_json fs (dir ++ "/incident.json"))) h
  ]

  segment-not_valid :
      (incidents id : String) (r : AdcResult (Unit {0}))
      → is_valid (validate_regular_incident_json fs ((incidents ++ "/" ++ id) ++ "/incident.json"))
        ≡ false
      → is_valid (check_segment fs incidents id r) ≡ false
  segment-not_valid incidents id (err e) h = refl
  segment-not_valid incidents id (ok u) h = dir-not_valid (incidents ++ "/" ++ id) _ h

  -- No entry without an incident.json is valid.
  pub entry-not_valid :
      (root id : String)
      → IsAbsent fs (incident_dir_of root id ++ "/incident.json")
      → is_valid (check_entry fs (incidents_dir_of root) (named id)) ≡ false
  unfolding check_entry incident_dir_of
  entry-not_valid root id h =
      segment-not_valid (incidents_dir_of root) id (validate_recorder_file_segment id "incident_id")
        (absent-not_valid (incident_dir_of root id ++ "/incident.json") h)
