-- ===== src/Recorder/Markers/Pending.antt =====
-- The queue of pending markers: its writing and draining in crates/adc-core/src/recorder/marker.rs,
-- and write_recorder_trigger_decision of crates/adc-core/src/recorder/trigger_artifacts.rs. The
-- directory with its files and the reading of JSON are parameters.
use Prim.Native.String.{◌++◌, len, slice}
use agent_debug_compass.Prelude.{◌-◌, String, Bool, ◌&&◌, List, [], ◌∷◌, ltb, if◌then◌else◌, ◌=ₛ◌}
use agent_debug_compass.Error.{AdcResult, ok, err, artifact, ◌>>=◌, IoResult, done, io_error}
use agent_debug_compass.Conditions.Merge.{sort}
use agent_debug_compass.Recorder.Validation.{validate_recorder_file_segment}
use agent_debug_compass.Trigger.Model.{TriggerDecision}
use agent_debug_compass.Recorder.Freezer.Model.{
  RecorderMarker, RecorderMarkerResult, Artifact, json, marker_document, marker_result_document,
  trigger_decision_document,
}
use agent_debug_compass.Recorder.Freezer.Store.{Disk, Json, write_artifact}
use agent_debug_compass.Recorder.Markers.{
  recorder_pending_marker_dir, recorder_marker_result_dir, recorder_trigger_decision_dir,
}

module _ (S : Type 0) (d : Disk S) (j : Json) where
  abbrev written : String → S × AdcResult (Unit {0}) → S × AdcResult String
  written path (s, ok u) = (s, ok path)
  written path (s, err e) = (s, err e)

  abbrev into_dir :
      String → String → String → Artifact → S × IoResult (Unit {0}) → S × AdcResult String
  into_dir what dir name a (s, io_error e) = (
    s,
    err (artifact ("failed to create recorder " ++ what ++ " directory " ++ dir ++ ": " ++ e)),
  )
  into_dir what dir name a (s, done u) =
      written (dir ++ "/" ++ name) (write_artifact S d j (dir ++ "/" ++ name) a s)

  -- A name is checked, the directory made, and the file written.
  write_named :
      String → String → AdcResult (Unit {0}) → String → Artifact → S → S × AdcResult String
  unfolding write_artifact
  write_named what dir (err e) id a s = (s, err e)
  write_named what dir (ok u) id a s = into_dir what dir (id ++ ".json") a (d.create_dir_all dir s)

  unfoldable pub write_recorder_marker_result :
      String → RecorderMarkerResult → S → S × AdcResult String
  unfolding write_named validate_recorder_file_segment recorder_marker_result_dir
  write_recorder_marker_result root r s =
      write_named "marker result" (recorder_marker_result_dir root)
        (validate_recorder_file_segment r.marker.marker_id "marker_id") r.marker.marker_id
        (json (marker_result_document r)) s

  unfoldable pub write_pending_recorder_marker : String → RecorderMarker → S → S × AdcResult String
  unfolding write_named validate_recorder_file_segment recorder_pending_marker_dir
  write_pending_recorder_marker root m s =
      write_named "pending marker" (recorder_pending_marker_dir root)
        (validate_recorder_file_segment m.marker_id "marker_id") m.marker_id
        (json (marker_document m)) s

  unfoldable pub write_recorder_trigger_decision :
      String → TriggerDecision → S → S × AdcResult String
  unfolding write_named validate_recorder_file_segment recorder_trigger_decision_dir
  write_recorder_trigger_decision root t s =
      write_named "trigger decision" (recorder_trigger_decision_dir root)
        (validate_recorder_file_segment t.decision_id "decision_id") t.decision_id
        (json (trigger_decision_document t)) s

-- The directory of pending markers in a state of S: its entries by file name or the error of one,
-- its files, the removal of one, and serde_json's reading of a marker.
pub record Queue (S : Type 0) : Type 0 where
  pub read_dir : String → S → IoResult (List (IoResult String))
  pub read : String → S → IoResult String
  pub remove_file : String → S → S × IoResult (Unit {0})
  pub from_slice : String → IoResult RecorderMarker

-- `path.extension() == Some("json")`: a name that is only the extension has none.
unfoldable pub has_json_extension : String → Bool
has_json_extension name = ltb 5 (len name) && (slice name (len name - 5) (len name) =ₛ ".json")

abbrev push_name : String → AdcResult (List String) → AdcResult (List String)
push_name name (err e) = err e
push_name name (ok names) = if has_json_extension name then ok (name ∷ names) else ok names

-- The loop over the entries.
unfoldable pub json_names : String → List (IoResult String) → AdcResult (List String)
unfolding has_json_extension
json_names dir [] = ok []
json_names dir (io_error e ∷ es) =
    err (artifact ("failed to read recorder pending marker entry in " ++ dir ++ ": " ++ e))
json_names dir (done name ∷ es) = push_name name (json_names dir es)

module _ (S : Type 0) (q : Queue S) where
  abbrev pub parsed : String → IoResult RecorderMarker → AdcResult RecorderMarker
  parsed path (done m) = ok m
  parsed path (io_error e) =
      err (artifact ("failed to parse pending recorder marker " ++ path ++ ": " ++ e))

  abbrev pub loaded : String → IoResult String → AdcResult RecorderMarker
  loaded path (io_error e) =
      err (artifact ("failed to read pending recorder marker " ++ path ++ ": " ++ e))
  loaded path (done bytes) = do
    m ← parsed path (q.from_slice bytes)
    u ← validate_recorder_file_segment m.marker_id "marker_id"
    ok m

  abbrev pub push_marker :
      RecorderMarker → S × AdcResult (List RecorderMarker) → S × AdcResult (List RecorderMarker)
  push_marker m (s, ok ms) = (s, ok (m ∷ ms))
  push_marker m (s, err e) = (s, err e)

  abbrev pub on_removed :
      RecorderMarker
      → String
      → (S → S × AdcResult (List RecorderMarker))
      → S × IoResult (Unit {0})
      → S × AdcResult (List RecorderMarker)
  on_removed m path rest (s, io_error e) =
      (s, err (artifact ("failed to remove pending recorder marker " ++ path ++ ": " ++ e)))
  on_removed m path rest (s, done u) = push_marker m (rest s)

  abbrev pub on_loaded :
      String
      → (S → S × AdcResult (List RecorderMarker))
      → AdcResult RecorderMarker
      → S
      → S × AdcResult (List RecorderMarker)
  on_loaded path rest (err e) s = (s, err e)
  on_loaded path rest (ok m) s = on_removed m path rest (q.remove_file path s)

  -- The loop over the sorted paths: each is read, parsed, checked and removed before the next. On an
  -- error the markers that were taken before are not answered.
  unfoldable pub drain_loop : String → List String → S → S × AdcResult (List RecorderMarker)
  unfolding validate_recorder_file_segment
  drain_loop dir [] s = (s, ok [])
  drain_loop dir (n ∷ ns) s =
      on_loaded (dir ++ "/" ++ n) (drain_loop dir ns)
        (loaded (dir ++ "/" ++ n) (q.read (dir ++ "/" ++ n) s)) s

  abbrev on_names : String → AdcResult (List String) → S → S × AdcResult (List RecorderMarker)
  on_names dir (err e) s = (s, err e)
  on_names dir (ok names) s = drain_loop dir (sort names) s

  abbrev on_entries :
      String → IoResult (List (IoResult String)) → S → S × AdcResult (List RecorderMarker)
  on_entries dir (io_error e) s = (s, ok [])
  on_entries dir (done entries) s = on_names dir (json_names dir entries) s

  -- A directory that cannot be read has no markers.
  unfoldable pub drain_pending_recorder_markers : String → S → S × AdcResult (List RecorderMarker)
  unfolding drain_loop sort json_names recorder_pending_marker_dir
  drain_pending_recorder_markers root s =
      let dir = recorder_pending_marker_dir root in on_entries dir (q.read_dir dir s) s
