-- ===== src/Recorder/Freezer/Store.antt =====
-- The files that a freeze writes: crates/adc-core/src/recorder/io.rs. The disk and serde_json are
-- parameters; the laws of the disk are the contract of std::fs in the directory of an incident.
use Prim.Native.String.{◌++◌}
use agent_debug_compass.Prelude.{◌≡◌, ◌≢◌, ◌⊎◌, String, true, false, none, some, List, [], ◌∷◌}
use agent_debug_compass.Prelude.Text.{contains}
use agent_debug_compass.Error.{artifact, AdcResult, ok, err, IoResult, done, io_error}
use agent_debug_compass.Recorder.Model.{RecorderSample}
use agent_debug_compass.Recorder.Logs.Model.{RecorderLogEvent}
use agent_debug_compass.Recorder.Budget.Inventory.{FileSystem, Metadata, found, not_found}
use agent_debug_compass.Recorder.Freezer.Model.{Document, Artifact, json, sample_lines, event_lines}

-- serde_json::to_vec_pretty of a document, and serde_json::to_string of a line's value.
pub record Json : Type 0 where
  pub to_vec_pretty : Document → IoResult String
  pub sample_line : RecorderSample → IoResult String
  pub event_line : RecorderLogEvent → IoResult String

-- A disk in a state of S: what can be read of it, fs::create_dir_all and fs::write.
pub record Disk (S : Type 0) : Type 0 where
  pub view : S → FileSystem
  pub create_dir_all : String → S → S × IoResult (Unit {0})
  pub write : String → String → S → S × IoResult (Unit {0})

abbrev pub IsAbsent : FileSystem → String → Type 0
IsAbsent fs path = fs.symlink_metadata path ≡ not_found

pub record IsDirectory (fs : FileSystem) (path : String) : Type 0 where
  pub metadata : Metadata
  pub stat : fs.symlink_metadata path ≡ found metadata
  pub directory : metadata.is_dir ≡ true
  pub no_symlink : metadata.is_symlink ≡ false

-- A regular file with a text.
pub record IsFile (fs : FileSystem) (path text : String) : Type 0 where
  pub metadata : Metadata
  pub stat : fs.symlink_metadata path ≡ found metadata
  pub file : metadata.is_file ≡ true
  pub no_symlink : metadata.is_symlink ≡ false
  pub contents : fs.read path ≡ some text

-- A regular file that a failed write of a text left behind. What can be read of it, where it is text
-- at all, is a beginning of the text that is not the whole of it: std::io::Write::write_all fails on
-- a write that wrote none of the bytes that were left.
pub record IsCutOff (fs : FileSystem) (path text : String) : Type 0 where
  pub metadata : Metadata
  pub stat : fs.symlink_metadata path ≡ found metadata
  pub file : metadata.is_file ≡ true
  pub no_symlink : metadata.is_symlink ≡ false
  pub contents :
      (fs.read path ≡ none)
      ⊎ ((first : String) × (rest : String) × (fs.read path ≡ some first)
          × (text ≡ first ++ rest)
          × (rest ≢ ""))

-- The files of a freeze but incident.json.
abbrev pub other_files : List String
other_files =
    "marker.json" ∷ "trigger_event.json" ∷ "trigger_decision.json" ∷ "samples.jsonl"
    ∷ "loss_report.json" ∷ "coverage.json" ∷ "log_events.jsonl" ∷ "log_source_status.json"
    ∷ "blackout_report.json" ∷ "frozen_window.json" ∷ []

-- What std::fs does with one directory and the files of a freeze in it, while no one else changes
-- them: create_dir_all makes the directory and nothing in it, a write that succeeds leaves the whole
-- text in a new file, one that fails leaves no file or a part of the text, and a write of a file
-- touches neither the directory nor, by another name, incident.json.
pub record IsDisk (S : Type 0) (d : Disk S) (dir : String) : Type 0 where
  pub created :
      (s : S)
      → IsAbsent (d.view s) dir
      → (d.create_dir_all dir s).1 ≡ done tt
      → IsDirectory (d.view (d.create_dir_all dir s).0) dir
  pub created_empty :
      (s : S)
      → IsAbsent (d.view s) (dir ++ "/incident.json")
      → IsAbsent (d.view (d.create_dir_all dir s).0) (dir ++ "/incident.json")
  pub written :
      (text : String) (s : S)
      → IsAbsent (d.view s) (dir ++ "/incident.json")
      → (d.write (dir ++ "/incident.json") text s).1 ≡ done tt
      → IsFile (d.view (d.write (dir ++ "/incident.json") text s).0) (dir ++ "/incident.json") text
  pub cut_off :
      (text e : String) (s : S)
      → IsAbsent (d.view s) (dir ++ "/incident.json")
      → (d.write (dir ++ "/incident.json") text s).1 ≡ io_error e
      → IsAbsent (d.view (d.write (dir ++ "/incident.json") text s).0) (dir ++ "/incident.json")
        ⊎ IsCutOff
            (d.view (d.write (dir ++ "/incident.json") text s).0)
            (dir ++ "/incident.json")
            text
  pub still_absent :
      (name text : String) (s : S)
      → contains other_files name ≡ true
      → IsAbsent (d.view s) (dir ++ "/incident.json")
      → IsAbsent (d.view (d.write (dir ++ "/" ++ name) text s).0) (dir ++ "/incident.json")
  pub directory_stays :
      (name text : String) (s : S)
      → contains ("incident.json" ∷ other_files) name ≡ true
      → IsDirectory (d.view s) dir
      → IsDirectory (d.view (d.write (dir ++ "/" ++ name) text s).0) dir

-- The text of an artifact.
abbrev pub serialized : String → IoResult String → AdcResult String
serialized what (done text) = ok text
serialized what (io_error e) = err (artifact (what ++ " serialization failed: " ++ e))

abbrev pub with_line : AdcResult String → AdcResult String → AdcResult String
with_line (ok line) (ok rest) = ok (line ++ "\n" ++ rest)
with_line (err e) rest = err e
with_line (ok line) (err e) = err e

unfoldable pub lines_of : {A : Type 0} → (A → IoResult String) → List A → AdcResult String
lines_of f [] = ok ""
lines_of f (x ∷ xs) = with_line (serialized "recorder sample" (f x)) (lines_of f xs)

unfoldable pub text_of : Json → Artifact → AdcResult String
unfolding lines_of
text_of j (json d) = serialized "recorder json" (j.to_vec_pretty d)
text_of j (sample_lines xs) = lines_of j.sample_line xs
text_of j (event_lines xs) = lines_of j.event_line xs

module _ (S : Type 0) (d : Disk S) (j : Json) where
  abbrev pub write_result : String → S × IoResult (Unit {0}) → S × AdcResult (Unit {0})
  write_result path (s, done _) = (s, ok tt)
  write_result path (s, io_error e) = (s, err (artifact ("failed to write " ++ path ++ ": " ++ e)))

  abbrev pub write_text : String → AdcResult String → S → S × AdcResult (Unit {0})
  write_text path (err e) s = (s, err e)
  write_text path (ok text) s = write_result path (d.write path text s)

  -- write_json and write_jsonl
  unfoldable pub write_artifact : String → Artifact → S → S × AdcResult (Unit {0})
  unfolding text_of
  write_artifact path a s = write_text path (text_of j a) s

  abbrev pub and_then :
      S × AdcResult (Unit {0}) → (S → S × AdcResult (Unit {0})) → S × AdcResult (Unit {0})
  and_then (s, ok _) f = f s
  and_then (s, err e) f = (s, err e)

  -- The writes to a directory, one after the other: the first that fails is the last.
  unfoldable pub write_all : String → List (String × Artifact) → S → S × AdcResult (Unit {0})
  unfolding write_artifact
  write_all dir [] s = (s, ok tt)
  write_all dir ((name, a) ∷ rest) s =
      and_then (write_artifact (dir ++ "/" ++ name) a s) (write_all dir rest)
