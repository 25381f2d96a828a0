-- ===== src/Recorder/Freezer/Validity.antt =====
-- A freeze of crates/adc-core/src/recorder/freezer.rs as the inventory of
-- crates/adc-core/src/recorder/budget.rs sees it afterwards.
use Prim.Native.String.{◌++◌}
use agent_debug_compass.Prelude.{ℕ, ◌≡◌, refl, sym, ap, ◌∙◌, subst, String, Option, List, arith}
use agent_debug_compass.Error.{is_ok, AdcResult, ok, err, IoResult, done, io_error, ◌>>◌}
use agent_debug_compass.Quality.{DataQuality}
use agent_debug_compass.Recorder.Model.{RecorderSample}
use agent_debug_compass.Recorder.Validation.{validate_recorder_file_segment}
use agent_debug_compass.Recorder.Budget.Inventory.{named, check_entry, incidents_dir_of}
use agent_debug_compass.Recorder.Freezer.Store.{
  Disk, Json, IsDisk, IsAbsent, IsDirectory, write_all,
}
use agent_debug_compass.Recorder.Freezer.Window.{
  FreezePlan, freeze_into, incident_dir_of, answered, selected, created,
}
use agent_debug_compass.Recorder.Freezer.Entry.{is_valid, IsSerde, entry-valid, entry-not_valid}
use agent_debug_compass.Prelude.Float.{F64}
use agent_debug_compass.Recorder.Model.{RecorderBudget}
use agent_debug_compass.Recorder.Ring.{RecorderRing}
use agent_debug_compass.Recorder.Logs.Model.{RecorderLogSnapshot}
use agent_debug_compass.Recorder.Freezer.Model.{
  RecorderMarker, RecorderFreeze, RecorderTriggerFreezeRequest, RecorderTriggerFreeze,
}
use agent_debug_compass.Recorder.Freezer.Marker.{freeze_recorder_marker_with_log_snapshot}
use agent_debug_compass.Recorder.Freezer.Trigger.{freeze_recorder_trigger_with_decision}
use agent_debug_compass.Recorder.Freezer.Plans.{IsPlan, marker_plan-IsPlan, trigger_plan-IsPlan}
use agent_debug_compass.Recorder.Freezer.Writes.{Ready, Outcome, write_all-Outcome}

-- The incident's directory and its incident.json are not there.
pub record IsFresh (S : Type 0) (d : Disk S) (root id : String) (s : S) : Type 0 where
  pub no_directory : IsAbsent (d.view s) (incident_dir_of root id)
  pub no_incident : IsAbsent (d.view s) (incident_dir_of root id ++ "/incident.json")

then-ok : (m k : AdcResult (Unit {0})) (u : Unit {0}) → (m >> k) ≡ ok u → m ≡ ok tt
then-ok (ok tt) k u h = refl
then-ok (err e) k u h = absurd (ground arith)

then-first : (m k : AdcResult (Unit {0})) (u : Unit {0}) → (m >> k) ≡ ok u → m ≡ ok tt
then-first m k u h = then-ok m k u h

-- The name of a file or a directory that stays within its parent.
abbrev pub IsSafe : String → Type 0
IsSafe id = validate_recorder_file_segment id "incident_id" ≡ ok tt

module _ (S R : Type 0) (d : Disk S) (j : Json) (back : IsSerde S d j) (root id : String)
    (laws : IsSafe id → IsDisk S d (incident_dir_of root id)) where
  -- The inventory takes the incident for valid exactly when the call succeeded.
  abbrev Agrees : S × AdcResult R → Type 0
  Agrees w = is_valid (check_entry (d.view w.0) (incidents_dir_of root) (named id)) ≡ is_ok w.1

  answered-Agrees :
      (r : R) (w : S × AdcResult (Unit {0}))
      → (v : IsSafe id) → Outcome S d j (incident_dir_of root id) (laws v) w
      → Agrees (answered S R d j r w)
  answered-Agrees r (s, ok u) v h = entry-valid (d.view s) root id v h.0 ∙ h.1
  answered-Agrees r (s, err e) v h = entry-valid (d.view s) root id v h.0 ∙ h.1

  selected-Agrees :
      (plan : List RecorderSample → DataQuality → FreezePlan R)
      (selection : AdcResult (List RecorderSample × DataQuality)) (s : S)
      → ((xs : List RecorderSample) (q : DataQuality) → IsPlan (plan xs q))
      → (v : IsSafe id) → Ready S d j (incident_dir_of root id) (laws v) s
      → Agrees (selected S R d j (incident_dir_of root id) plan selection s)
  selected-Agrees plan (err e) s p v h = entry-not_valid (d.view s) root id h.1
  selected-Agrees plan (ok (xs, q)) s p v h =
      let i = p xs q in
      let dir = incident_dir_of root id in
      answered-Agrees (plan xs q).answer (write_all S d j dir (plan xs q).files s) v (
        subst (λ files. Outcome S d j dir (laws v) (write_all S d j dir files s)) (sym i.ends)
          (write_all-Outcome S d j dir (laws v) i.incident i.earlier back i.version i.others s h))

  created-Agrees :
      (plan : List RecorderSample → DataQuality → FreezePlan R)
      (selection : AdcResult (List RecorderSample × DataQuality)) (s : S)
      (w : S × IoResult (Unit {0}))
      → w ≡ d.create_dir_all (incident_dir_of root id) s
      → ((xs : List RecorderSample) (q : DataQuality) → IsPlan (plan xs q))
      → IsSafe id
      → IsFresh S d root id s
      → Agrees (created S R d j (incident_dir_of root id) plan selection w)
  created-Agrees plan selection s (t, io_error e) h p v f =
      let dir = incident_dir_of root id in
      entry-not_valid (d.view t) root id (
        subst (λ x. IsAbsent (d.view x.0) (dir ++ "/incident.json")) (sym h)
          ((laws v).created_empty s f.no_incident))
  created-Agrees plan selection s (t, done u) h p v f =
      let dir = incident_dir_of root id in
      selected-Agrees plan selection t p v (
        subst (λ x. IsDirectory (d.view x.0) dir) (sym h)
            ((laws v).created s f.no_directory (sym (ap (λ x. x.1) h))),
        subst (λ x. IsAbsent (d.view x.0) (dir ++ "/incident.json")) (sym h)
            ((laws v).created_empty s f.no_incident),
      )

  freeze_into-Agrees :
      (valid_names : AdcResult (Unit {0}))
      (selection : AdcResult (List RecorderSample × DataQuality))
      (plan : List RecorderSample → DataQuality → FreezePlan R) (s : S)
      → ((xs : List RecorderSample) (q : DataQuality) → IsPlan (plan xs q))
      → ((u : Unit {0}) → valid_names ≡ ok u → IsSafe id)
      → IsFresh S d root id s
      → Agrees (freeze_into S R d j (incident_dir_of root id) valid_names selection plan s)
  unfolding freeze_into
  freeze_into-Agrees (err e) selection plan s p v f =
      entry-not_valid (d.view s) root id f.no_incident
  freeze_into-Agrees (ok u) selection plan s p v f =
      created-Agrees plan selection s (d.create_dir_all (incident_dir_of root id) s) refl p
        (v u refl) f

-- On a disk that keeps std::fs's contract in the incident's directory, if the incident id names one
-- safely, with serde_json reading back the version of the incidents that it wrote and no value from a
-- beginning of their text, after a freeze for a marker under an incident id that has no directory and
-- no incident.json, the budget's inventory takes the entry of that id for a valid incident exactly
-- when the freeze succeeded: incident.json is written last, and a failed write of it, which may leave
-- a beginning of its text, does not pass for an incident.
pub freeze_marker-valid_iff :
    (S : Type 0) (d : Disk S) (j : Json) (percent : ℕ → ℕ → F64)
    (root incident_id window_id : String) (marker : RecorderMarker) (ring : RecorderRing)
    (budget : RecorderBudget) (snapshot : Option RecorderLogSnapshot) (s : S)
    → (IsSafe incident_id → IsDisk S d (incident_dir_of root incident_id))
    → IsSerde S d j
    → IsFresh S d root incident_id s
    → is_valid (
        check_entry
          (d.view
            (freeze_recorder_marker_with_log_snapshot S d j percent root incident_id window_id
              marker ring budget snapshot s).0)
          (incidents_dir_of root)
          (named incident_id))
      ≡ is_ok
          (freeze_recorder_marker_with_log_snapshot S d j percent root incident_id window_id marker
            ring budget snapshot s).1
unfolding freeze_recorder_marker_with_log_snapshot
freeze_marker-valid_iff S d j percent root incident_id window_id marker ring budget snapshot s laws
      back fresh =
    freeze_into-Agrees S RecorderFreeze d j back root incident_id laws _ _ _ s
      (marker_plan-IsPlan percent root incident_id window_id marker ring budget snapshot)
      (λ u h.
        then-ok (validate_recorder_file_segment incident_id "incident_id")
          (validate_recorder_file_segment window_id "window_id") tt (then-first _ _ u h))
      fresh

-- The same of a freeze for a trigger, with the decision given or the default one: on such a disk,
-- with such a serde_json and under such an incident id, the inventory takes the entry for a valid incident exactly when the
-- freeze succeeded.
pub freeze_trigger-valid_iff :
    (S : Type 0) (d : Disk S) (j : Json) (percent : ℕ → ℕ → F64) (root : String)
    (request : RecorderTriggerFreezeRequest) (ring : RecorderRing) (budget : RecorderBudget) (s : S)
    → (IsSafe request.incident_id → IsDisk S d (incident_dir_of root request.incident_id))
    → IsSerde S d j
    → IsFresh S d root request.incident_id s
    → is_valid (
        check_entry
          (d.view
            (freeze_recorder_trigger_with_decision S d j percent root request ring budget s).0)
          (incidents_dir_of root)
          (named request.incident_id))
      ≡ is_ok (freeze_recorder_trigger_with_decision S d j percent root request ring budget s).1
unfolding freeze_recorder_trigger_with_decision
freeze_trigger-valid_iff S d j percent root request ring budget s laws back fresh =
    freeze_into-Agrees S RecorderTriggerFreeze d j back root request.incident_id laws _ _ _ s
      (trigger_plan-IsPlan percent root request ring budget)
      (λ u h.
        then-ok (validate_recorder_file_segment request.incident_id "incident_id")
          (validate_recorder_file_segment request.window_id "window_id") tt (then-first _ _ u h))
      fresh
