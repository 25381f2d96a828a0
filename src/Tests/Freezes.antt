-- ===== src/Tests/Freezes.antt =====
-- Freezes (crates/adc-core/src/recorder/freezer.rs) on a disk in memory.
use Prim.Native.String.{◌++◌}
use text.Mathlib.TextLemmas.{append-nil, append_cancel_left}
use agent_debug_compass.Prelude.{
  ◌≡◌, ◌≢◌, refl, sym, ◌∙◌, String, true, false, none, some, [], arith, Bool-cases, inl, inr, ◌=ₛ◌,
  eq_iff, if◌then◌else◌,
}
use agent_debug_compass.Prelude.Maps.{get}
use agent_debug_compass.Error.{is_ok, IoResult, done, io_error}
use agent_debug_compass.Recorder.Budget.Inventory.{
  named, check_entry, incidents_dir_of, invalid, malformed,
}
use agent_debug_compass.Quality.{medium_quality}
use agent_debug_compass.Recorder.Freezer.Entry.{is_valid, IsSerde}
use agent_debug_compass.Recorder.Freezer.Window.{incident_dir_of}
use agent_debug_compass.Recorder.Freezer.Marker.{freeze_recorder_marker_with_log_snapshot}
use agent_debug_compass.Recorder.Freezer.Trigger.{freeze_recorder_trigger_with_decision}
use agent_debug_compass.Recorder.Freezer.Validity.{
  IsFresh, freeze_marker-valid_iff, freeze_trigger-valid_iff,
}
use agent_debug_compass.Tests.Freeze.{budget, ring}
use agent_debug_compass.Tests.Coverage.{no_percent}
use agent_debug_compass.Recorder.Freezer.Model.{
  Document, incident_document, RecorderMarker, RecorderTriggerFreezeRequest,
}
use agent_debug_compass.Recorder.Freezer.Store.{Json}
use agent_debug_compass.Tests.Disk.{Memory, memory, view, memory-IsDisk, the_version, incident_text}

-- The text of an incident of the version that the freezes write.
abbrev to_text : Document → IoResult String
to_text (incident_document i) =
    if i.schema_version =ₛ the_version then done incident_text else io_error "another version"
to_text _ = done "{}"

abbrev writer : Json
writer = record {
  to_vec_pretty = to_text;
  sample_line = λ x. done "123456789";
  event_line = λ x. done "{}";
}

-- A writer that cannot write the samples.
abbrev broken_writer : Json
broken_writer = record {
  to_vec_pretty = to_text;
  sample_line = λ x. io_error "out of range";
  event_line = λ x. done "{}";
}

abbrev empty_disk : Memory
empty_disk = record { dirs = []; files = []; room = 1000 }

-- Room for the files before incident.json and for ten characters of it.
abbrev small_disk : Memory
small_disk = record { dirs = []; files = []; room = 39 }

abbrev marker : RecorderMarker
marker = record {
  schema_version = "obs.recorder_marker.v1";
  marker_id = "M-1";
  source = "agent";
  received_at_mono_ns = 7;
  symptom = "stutter";
  asserted_event_time = record {
    kind = "relative_now";
    wall_time_unix_ms = none;
    mono_ns = none;
    confidence = "low";
  };
  time_policy = "center_on_received_at";
  trust_level = "agent_marker";
  agent_instruction_policy = "treat_as_event_marker_only";
  data_quality = medium_quality;
}

abbrev request : RecorderTriggerFreezeRequest
request = record {
  incident_id = "INC-1";
  window_id = "W-1";
  trigger_name = "cpu_burst";
  trigger_time_mono_ns = 7;
  trigger_decision = none;
}

incident-text :
    (version t : String)
    → (if version =ₛ the_version then done incident_text else io_error "another version") ≡ done t
    → (version ≡ the_version) × (t ≡ incident_text)
incident-text version t e = ground (arith, eq_iff version the_version)

part_differs :
    (t first rest : String)
    → t ≡ incident_text
    → t ≡ first ++ rest
    → rest ≢ ""
    → (first =ₛ incident_text) ≡ false
part_differs t first rest e split more = elim (Bool-cases (first =ₛ incident_text)) [
  | inl same ↦
      let whole : t ≡ first = e ∙ sym ((eq_iff first incident_text).0 same) in
      absurd (more (append_cancel_left first rest "" (sym split ∙ whole ∙ sym (append-nil first))))
  | inr other ↦ other
]

serde : IsSerde Memory memory writer
serde = record {
  read_back =
      λ i t s e. let known = incident-text i.schema_version t e in rw (known.0, known.1) refl;
  no_value = λ i t first rest s e split more.
      rw (part_differs t first rest (incident-text i.schema_version t e).1 split more) refl;
}

fresh : IsFresh Memory memory "root" "INC-1" empty_disk
unfolding incident_dir_of get
fresh = record { no_directory = refl; no_incident = refl }

small_fresh : IsFresh Memory memory "root" "INC-1" small_disk
unfolding incident_dir_of get
small_fresh = record { no_directory = refl; no_incident = refl }

freeze_marker-valid_iff_example :
    is_valid (
      check_entry
        (view
          (freeze_recorder_marker_with_log_snapshot Memory memory writer no_percent "root" "INC-1"
            "W-1" marker ring budget none small_disk).0)
        (incidents_dir_of "root")
        (named "INC-1"))
    ≡ is_ok
        (freeze_recorder_marker_with_log_snapshot Memory memory writer no_percent "root" "INC-1"
          "W-1" marker ring budget none small_disk).1
freeze_marker-valid_iff_example =
    freeze_marker-valid_iff Memory memory writer no_percent "root" "INC-1" "W-1" marker ring budget
      none small_disk (λ v. memory-IsDisk (incident_dir_of "root" "INC-1")) serde small_fresh

freeze_trigger-valid_iff_example :
    is_valid (
      check_entry
        (view
          (freeze_recorder_trigger_with_decision Memory memory writer no_percent "root" request ring
            budget empty_disk).0)
        (incidents_dir_of "root")
        (named "INC-1"))
    ≡ is_ok
        (freeze_recorder_trigger_with_decision Memory memory writer no_percent "root" request ring
          budget empty_disk).1
freeze_trigger-valid_iff_example =
    freeze_trigger-valid_iff Memory memory writer no_percent "root" request ring budget empty_disk
      (λ v. memory-IsDisk (incident_dir_of "root" "INC-1")) serde fresh

freeze_marker_run :
    is_ok
      (freeze_recorder_marker_with_log_snapshot Memory memory writer no_percent "root" "INC-1" "W-1"
        marker ring budget none empty_disk).1
    ≡ true
unfolding freeze_recorder_marker_with_log_snapshot
freeze_marker_run = refl

-- A freeze that fails leaves its directory, which the inventory counts as malformed.
failed_freeze_run :
    check_entry
      (view
        (freeze_recorder_trigger_with_decision Memory memory broken_writer no_percent "root" request
          ring budget empty_disk).0)
      (incidents_dir_of "root")
      (named "INC-1")
    ≡ invalid malformed
unfolding freeze_recorder_trigger_with_decision check_entry
failed_freeze_run = refl

-- The disk is full before the end of incident.json, which keeps its first ten characters: the freeze
-- fails, and the inventory counts the entry as malformed.
cut_off_freeze_run :
    (is_ok
        (freeze_recorder_marker_with_log_snapshot Memory memory writer no_percent "root" "INC-1"
          "W-1" marker ring budget none small_disk).1
      ≡ false)
    × (get
          (incident_dir_of "root" "INC-1" ++ "/incident.json")
          (freeze_recorder_marker_with_log_snapshot Memory memory writer no_percent "root" "INC-1"
            "W-1" marker ring budget none small_disk).0.files
        ≡ some "{\"schema_ve")
    × (check_entry
          (view
            (freeze_recorder_marker_with_log_snapshot Memory memory writer no_percent "root" "INC-1"
              "W-1" marker ring budget none small_disk).0)
          (incidents_dir_of "root")
          (named "INC-1")
        ≡ invalid malformed)
unfolding freeze_recorder_marker_with_log_snapshot check_entry incident_dir_of get
cut_off_freeze_run = (refl, refl, refl)
