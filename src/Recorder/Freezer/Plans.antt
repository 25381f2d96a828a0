-- ===== src/Recorder/Freezer/Plans.antt =====
-- The files of both freezes of crates/adc-core/src/recorder/freezer.rs end with incident.json.
use agent_debug_compass.Prelude.{
  ℕ, ◌≡◌, refl, String, true, Option, none, some, List, [], ◌∷◌, ◌++◌ as ◌++ₗ◌, All,
}
use agent_debug_compass.Quality.{DataQuality}
use agent_debug_compass.Recorder.Model.{RecorderSample}
use agent_debug_compass.Prelude.Text.{contains}
use agent_debug_compass.Recorder.Freezer.Store.{other_files}
use agent_debug_compass.Recorder.Freezer.Model.{RecorderIncident, Artifact, json, incident_document}
use agent_debug_compass.Recorder.Freezer.Window.{FreezePlan, incident_of}
use agent_debug_compass.Prelude.Float.{F64}
use agent_debug_compass.Recorder.Model.{RecorderBudget}
use agent_debug_compass.Recorder.Ring.{RecorderRing}
use agent_debug_compass.Recorder.Logs.Model.{RecorderLogSnapshot}
use agent_debug_compass.Recorder.Freezer.Model.{RecorderMarker, RecorderTriggerFreezeRequest}
use agent_debug_compass.Recorder.Freezer.Marker.{marker_plan, log_files}
use agent_debug_compass.Recorder.Freezer.Trigger.{trigger_plan}

-- A plan that writes incident.json last.
pub record IsPlan {R : Type 0} (p : FreezePlan R) : Type 0 where
  pub incident : RecorderIncident
  pub version : incident.schema_version ≡ "obs.recorder_incident.v1"
  pub earlier : List (String × Artifact)
  pub others : All (λ f. contains other_files f.0 ≡ true) earlier
  pub ends : p.files ≡ earlier ++ₗ (("incident.json", json (incident_document incident)) ∷ [])

pub marker_plan-IsPlan :
    (percent : ℕ → ℕ → F64) (root incident_id window_id : String) (marker : RecorderMarker)
    (ring : RecorderRing) (budget : RecorderBudget) (snapshot : Option RecorderLogSnapshot)
    (xs : List RecorderSample) (q : DataQuality)
    → IsPlan (marker_plan percent root incident_id window_id marker ring budget snapshot xs q)
unfolding marker_plan incident_of log_files
marker_plan-IsPlan percent root incident_id window_id marker ring budget none xs q = record {
  incident = _;
  version = refl;
  earlier = (_, _) ∷ (_, _) ∷ (_, _) ∷ (_, _) ∷ (_, _) ∷ [];
  others = (refl, (refl, (refl, (refl, (refl, tt)))));
  ends = refl;
}
marker_plan-IsPlan percent root incident_id window_id marker ring budget (some snapshot) xs q =
    record {
      incident = _;
      version = refl;
      earlier = (_, _) ∷ (_, _) ∷ (_, _) ∷ (_, _) ∷ (_, _) ∷ (_, _) ∷ (_, _) ∷ (_, _) ∷ [];
      others = (refl, (refl, (refl, (refl, (refl, (refl, (refl, (refl, tt))))))));
      ends = refl;
    }

pub trigger_plan-IsPlan :
    (percent : ℕ → ℕ → F64) (root : String) (request : RecorderTriggerFreezeRequest)
    (ring : RecorderRing) (budget : RecorderBudget) (xs : List RecorderSample) (q : DataQuality)
    → IsPlan (trigger_plan percent root request ring budget xs q)
unfolding trigger_plan incident_of
trigger_plan-IsPlan percent root request ring budget xs q = record {
  incident = _;
  version = refl;
  earlier = (_, _) ∷ (_, _) ∷ (_, _) ∷ (_, _) ∷ (_, _) ∷ (_, _) ∷ [];
  others = (refl, (refl, (refl, (refl, (refl, (refl, tt))))));
  ends = refl;
}
