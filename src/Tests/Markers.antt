-- ===== src/Tests/Markers.antt =====
-- Runs of the queue of pending markers (crates/adc-core/src/recorder/marker.rs).
use agent_debug_compass.Prelude.{◌≡◌, refl, String, List, [], ◌∷◌, map, if◌then◌else◌, ◌=ₛ◌}
use agent_debug_compass.Error.{ok, err, artifact, done, io_error}
use agent_debug_compass.Recorder.Markers.{marker_at_received_time}
use agent_debug_compass.Recorder.Markers.Pending.{Queue, drain_pending_recorder_markers}

-- The state is the list of the names of the files; a text is the id of its marker.
abbrev others : String → List String → List String
others path [] = []
others path (n ∷ ns) = if path =ₛ n then others path ns else n ∷ others path ns

abbrev queue : Queue (List String)
queue = record {
  read_dir = λ dir s. done (map done ("b.json" ∷ "a.json" ∷ "notes.txt" ∷ []));
  read = λ path s. done (
      if path =ₛ "root/recorder/markers/pending/a.json"
      then "a"
      else if path =ₛ "root/recorder/markers/pending/b.json"
      then "b"
      else "c");
  remove_file = λ path s. (others path s, done tt);
  from_slice = λ text. done (marker_at_received_time text "app" "stutter" 7);
}

-- The same where the second marker cannot be read as JSON.
abbrev broken_queue : Queue (List String)
broken_queue = record queue {
  from_slice = λ text.
      if text =ₛ "b" then io_error "EOF" else done (marker_at_received_time text "app" "stutter" 7);
}

abbrev two_files : List String
two_files = "root/recorder/markers/pending/a.json" ∷ "root/recorder/markers/pending/b.json" ∷ []

drain_run : drain_pending_recorder_markers (List String) queue "root" two_files ≡ (
  [],
  ok (
      marker_at_received_time "a" "app" "stutter" 7
      ∷ marker_at_received_time "b" "app" "stutter" 7
      ∷ []),
)
unfolding drain_pending_recorder_markers marker_at_received_time
drain_run = refl

-- The file of the first marker is gone, and no marker is answered.
broken_drain_run : drain_pending_recorder_markers (List String) broken_queue "root" two_files ≡ (
  "root/recorder/markers/pending/b.json" ∷ [],
  err (
      artifact "failed to parse pending recorder marker root/recorder/markers/pending/b.json: EOF"),
)
unfolding drain_pending_recorder_markers marker_at_received_time
broken_drain_run = refl
