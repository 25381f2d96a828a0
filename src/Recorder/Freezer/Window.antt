-- ===== src/Recorder/Freezer/Window.antt =====
-- What freezing for a marker and freezing for a trigger share: the frozen window, the references and
-- the order of the calls in crates/adc-core/src/recorder/freezer.rs.
use Prim.Native.String.{◌++◌, len}
use agent_debug_compass.Prelude.{
  ℕ, String, true, false, Option, none, some, List, [], ◌∷◌, head?, last?,
}
use agent_debug_compass.Prelude.Float.{F64}
use agent_debug_compass.Prelude.Maps.{BTreeMap, insert}
use agent_debug_compass.Prelude.Text.{format}
use agent_debug_compass.Quality.{DataQuality}
use agent_debug_compass.Error.{AdcResult, ok, err, artifact, IoResult, done, io_error}
use agent_debug_compass.Recorder.Model.{
  RecorderSample, RecorderBudget, TimeRange, LossReport, RecorderObservationCoverage,
}
use agent_debug_compass.Recorder.Ring.{RecorderRing, expected_signals}
use agent_debug_compass.Recorder.Ring.Status.{status}
use agent_debug_compass.Recorder.Budget.Inventory.{incidents_dir_of}
use agent_debug_compass.Recorder.Loss.{loss_report_for_buffer_with_quality}
use agent_debug_compass.Recorder.Coverage.{observation_coverage_for_freeze}
use agent_debug_compass.Recorder.Freezer.Model.{
  Artifact, FrozenWindowPersistence, RecorderFrozenWindow, RecorderIncident,
}
use agent_debug_compass.Recorder.Freezer.Store.{Disk, Json, write_all}

-- `artifact://recorder/incidents/{incident_id}/{name}`
unfoldable pub incident_ref : String → String → String
unfolding format
incident_ref incident_id name =
    format ("artifact://recorder/incidents/" ∷ incident_id ∷ "/" ∷ name ∷ [])

-- `artifact_refs.insert(key, ...)` for one name after the other.
unfoldable pub refs_of : String → List (String × String) → BTreeMap String → BTreeMap String
unfolding incident_ref insert
refs_of incident_id [] m = m
refs_of incident_id ((key, name) ∷ names) m =
    refs_of incident_id names (insert key (incident_ref incident_id name) m)

unfoldable pub incident_dir_of : String → String → String
incident_dir_of artifact_root incident_id = incidents_dir_of artifact_root ++ "/" ++ incident_id

abbrev time_or : ℕ → Option RecorderSample → ℕ
time_or time none = time
time_or time (some x) = x.time_mono_ns

-- From the first to the last retained sample, or the time of the call where there is none.
unfoldable pub time_range_of : RecorderRing → ℕ → TimeRange
time_range_of ring time = record {
  start = time_or time (head? ring.samples);
  end = time_or time (last? ring.samples);
}

abbrev persistence : FrozenWindowPersistence
persistence = record {
  persistence_mode = "bounded_artifact_bundle";
  survives_daemon_restart = true;
  survives_target_reboot = false;
  bounded_by =
      "max_freeze_bytes" ∷ "max_disk_bytes" ∷ "max_frozen_incidents" ∷ "retention_policy"
      ∷ "target_reboot_survival_storage_dependent" ∷ "write_durability_best_effort_no_fsync" ∷ [];
}

-- The names of a freeze, and what it is for.
pub record FreezeNames : Type 0 where
  pub incident_id : String
  pub window_id : String
  pub marker_id : Option String
  pub reason : String
  pub preserved_for : String
  pub time : ℕ
  pub refs : List (String × String)

unfoldable pub frozen_window_of :
    FreezeNames → RecorderRing → RecorderBudget → LossReport → RecorderFrozenWindow
unfolding status time_range_of refs_of
frozen_window_of n ring budget report = record {
  schema_version = "obs.recorder_frozen_window.v1";
  window_id = n.window_id;
  incident_id = n.incident_id;
  target_id = (status ring).target_id;
  marker_id = n.marker_id;
  freeze_reason = n.reason;
  preservation_reason = record { kind = n.reason; name = n.preserved_for };
  time_range_mono_ns = time_range_of ring n.time;
  pre_window_ms = budget.max_retention_ms;
  post_window_ms = 0;
  persistence = persistence;
  artifact_refs = refs_of n.incident_id n.refs [];
  loss_report = report;
  data_quality = report.data_quality;
}

unfoldable pub incident_of : FreezeNames → RecorderRing → RecorderFrozenWindow → RecorderIncident
unfolding status incident_ref
incident_of n ring window = record {
  schema_version = "obs.recorder_incident.v1";
  incident_id = n.incident_id;
  target_id = (status ring).target_id;
  incident_state = "frozen";
  previous_state = "freezing";
  marker_id = n.marker_id;
  freeze_reason = window.freeze_reason;
  frozen_window_ref = some (incident_ref n.incident_id "frozen_window.json");
  loss_report_ref = some (incident_ref n.incident_id "loss_report.json");
  created_at_mono_ns = n.time;
  updated_at_mono_ns = n.time;
  data_quality = window.data_quality;
}

unfoldable pub frozen_coverage_of :
    (ℕ → ℕ → F64)
    → FreezeNames
    → RecorderRing
    → RecorderBudget
    → LossReport
    → RecorderObservationCoverage
unfolding status observation_coverage_for_freeze time_range_of expected_signals
frozen_coverage_of percent n ring budget report =
    observation_coverage_for_freeze percent
      (record {
        incident_id = n.incident_id;
        window_id = n.window_id;
        target_id = (status ring).target_id;
        time_range = time_range_of ring n.time;
      })
      (status ring) (expected_signals ring) report budget

abbrev measured : IoResult String → AdcResult ℕ
measured (done line) = ok (len line)
measured (io_error e) = err (artifact ("recorder sample serialization failed: " ++ e))

-- The length that the selection goes by is that of the line that is written.
unfoldable pub line_len : Json → RecorderSample → AdcResult ℕ
line_len j x = measured (j.sample_line x)

unfoldable pub report_of :
    FreezeNames → RecorderRing → List RecorderSample → DataQuality → LossReport
unfolding status loss_report_for_buffer_with_quality
report_of n ring samples quality =
    loss_report_for_buffer_with_quality n.window_id (status ring) samples quality

-- What a freeze writes in order, and what it answers.
pub record FreezePlan (R : Type 0) : Type 0 where
  pub files : List (String × Artifact)
  pub answer : R

module _ (S R : Type 0) (d : Disk S) (j : Json) where
  abbrev pub answered : R → S × AdcResult (Unit {0}) → S × AdcResult R
  answered r (s, ok _) = (s, ok r)
  answered r (s, err e) = (s, err e)

  abbrev pub write_plan : String → FreezePlan R → S → S × AdcResult R
  write_plan dir p s = answered p.answer (write_all S d j dir p.files s)

  abbrev pub selected :
      String
      → (List RecorderSample → DataQuality → FreezePlan R)
      → AdcResult (List RecorderSample × DataQuality)
      → S
      → S × AdcResult R
  selected dir plan (err e) s = (s, err e)
  selected dir plan (ok (samples, quality)) s = write_plan dir (plan samples quality) s

  abbrev pub created :
      String
      → (List RecorderSample → DataQuality → FreezePlan R)
      → AdcResult (List RecorderSample × DataQuality)
      → S × IoResult (Unit {0})
      → S × AdcResult R
  created dir plan selection (s, io_error e) =
      (s, err (artifact ("failed to create recorder incident directory " ++ dir ++ ": " ++ e)))
  created dir plan selection (s, done _) = selected dir plan selection s

  -- The calls of a freeze after its arguments were checked: the directory is created, the samples
  -- are selected, and the files are written.
  unfoldable pub freeze_into :
      String
      → AdcResult (Unit {0})
      → AdcResult (List RecorderSample × DataQuality)
      → (List RecorderSample → DataQuality → FreezePlan R)
      → S
      → S × AdcResult R
  unfolding write_all
  freeze_into dir (err e) selection plan s = (s, err e)
  freeze_into dir (ok _) selection plan s = created dir plan selection (d.create_dir_all dir s)
