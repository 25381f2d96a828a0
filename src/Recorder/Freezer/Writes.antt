-- ===== src/Recorder/Freezer/Writes.antt =====
-- What the writes of crates/adc-core/src/recorder/freezer.rs leave, incident.json last.
use Prim.Native.String.{◌++◌}
use agent_debug_compass.Prelude.{
  true, none, Bool-cases, ◌=ₛ◌, ◌≡◌, ◌≢◌, refl, sym, ap, ◌∙◌, subst, inl, inr, String, some, List,
  [], ◌∷◌, ◌++◌ as ◌++ₗ◌, All,
}
use agent_debug_compass.Prelude.Text.{contains}
use agent_debug_compass.Error.{is_ok, AdcResult, ok, err, IoResult, done, io_error}
use agent_debug_compass.Recorder.Budget.Inventory.{validate_regular_incident_json}
use agent_debug_compass.Recorder.Freezer.Model.{RecorderIncident, Artifact, json, incident_document}
use agent_debug_compass.Recorder.Freezer.Store.{
  other_files, Disk, Json, IsDisk, IsAbsent, IsDirectory, IsFile, IsCutOff, text_of, serialized,
  write_artifact, write_result, write_text, and_then, write_all,
}
use agent_debug_compass.Recorder.Freezer.Entry.{
  is_valid, IsSerde, absent-not_valid, cut_off-not_valid, file-valid,
}

listed :
    (name : String)
    → contains other_files name ≡ true
    → contains ("incident.json" ∷ other_files) name ≡ true
listed name n = elim (Bool-cases ("incident.json" =ₛ name)) [
  | inl e ↦ rw (e) refl
  | inr e ↦ rw (e) n
]

module _ (S : Type 0) (d : Disk S) (j : Json) (dir : String) (laws : IsDisk S d dir) where
  -- The state of an incident's directory before its last write.
  abbrev pub Ready : S → Type 0
  Ready s = IsDirectory (d.view s) dir × IsAbsent (d.view s) (dir ++ "/incident.json")

  -- What a run of writes to the directory comes to.
  abbrev pub Outcome : {A : Type 0} → S × AdcResult A → Type 0
  Outcome w =
      IsDirectory (d.view w.0) dir
      × (is_valid (validate_regular_incident_json (d.view w.0) (dir ++ "/incident.json"))
          ≡ is_ok w.1)

  write_result-state :
      (path : String) (w : S × IoResult (Unit {0})) → (write_result S d j path w).0 ≡ w.0
  write_result-state path (s, done u) = refl
  write_result-state path (s, io_error e) = refl

  other-Ready :
      (name : String) (r : AdcResult String) (s : S)
      → contains other_files name ≡ true
      → Ready s
      → Ready (write_text S d j (dir ++ "/" ++ name) r s).0
  other-Ready name (err e) s n h = h
  other-Ready name (ok text) s n h =
      let path = dir ++ "/" ++ name in
      rw (write_result-state path (d.write path text s))
        (laws.directory_stays name text s (listed name n) h.0, laws.still_absent name text s n h.1)

  -- The text of an incident is read as one, and no beginning of it is.
  abbrev IsIncidentText : String → S → Type 0
  IsIncidentText text t =
      ((d.view t).schema_version text ≡ some (some "obs.recorder_incident.v1"))
      × ((first rest : String)
          → text ≡ first ++ rest
          → rest ≢ ""
          → (d.view t).schema_version first ≡ none)

  written-Outcome :
      (text : String) (s : S) (w : S × IoResult (Unit {0}))
      → w ≡ d.write (dir ++ "/incident.json") text s
      → ((t : S) → IsIncidentText text t)
      → Ready s
      → Outcome (write_result S d j (dir ++ "/incident.json") w)
  written-Outcome text s (t, done u) e k h =
      let path = dir ++ "/incident.json" in
      let file =
        subst (λ x. IsFile (d.view x.0) path text) (sym e)
          (laws.written text s h.1 (sym (ap (λ x. x.1) e))) in
      (
        subst (λ x. IsDirectory (d.view x.0) dir) (sym e)
            (laws.directory_stays "incident.json" text s refl h.0),
        file-valid (d.view t) path text file (k t).0,
      )
  written-Outcome text s (t, io_error m) e k h =
      let path = dir ++ "/incident.json" in
      (
        subst (λ x. IsDirectory (d.view x.0) dir) (sym e)
            (laws.directory_stays "incident.json" text s refl h.0),
        elim (laws.cut_off text m s h.1 (sym (ap (λ x. x.1) e))) [
          | inl a ↦
              absent-not_valid (d.view t) path (subst (λ x. IsAbsent (d.view x.0) path) (sym e) a)
          | inr a ↦
              cut_off-not_valid (d.view t) path text
                (subst (λ x. IsCutOff (d.view x.0) path text) (sym e) a) (k t).1
        ],
      )

  incident-Outcome :
      (i : RecorderIncident) (r : IoResult String) (s : S)
      → ((text : String) (t : S) → r ≡ done text → IsIncidentText text t)
      → Ready s
      → Outcome (write_text S d j (dir ++ "/incident.json") (serialized "recorder json" r) s)
  incident-Outcome i (done text) s k h =
      written-Outcome text s (d.write (dir ++ "/incident.json") text s) refl (λ t. k text t refl) h
  incident-Outcome i (io_error e) s k h =
      (h.0, absent-not_valid (d.view s) (dir ++ "/incident.json") h.1)

  then-Outcome :
      (w : S × AdcResult (Unit {0})) (f : S → S × AdcResult (Unit {0}))
      → Ready w.0
      → ((s : S) → Ready s → Outcome (f s))
      → Outcome (and_then S d j w f)
  then-Outcome (s, ok u) f h k = k s h
  then-Outcome (s, err e) f h k = (h.0, absent-not_valid (d.view s) (dir ++ "/incident.json") h.1)

  last-Outcome :
      (w : S × AdcResult (Unit {0}))
      → Outcome w
      → Outcome (and_then S d j w (write_all S d j dir []))
  unfolding write_all
  last-Outcome (s, ok u) h = h
  last-Outcome (s, err e) h = h

  -- Files of other names, then incident.json.
  pub write_all-Outcome :
      (i : RecorderIncident) (files : List (String × Artifact))
      → IsSerde S d j
      → i.schema_version ≡ "obs.recorder_incident.v1"
      → All (λ f. contains other_files f.0 ≡ true) files
      → (s : S) → Ready s
      → Outcome
          (write_all S d j dir (files ++ₗ (("incident.json", json (incident_document i)) ∷ [])) s)
  unfolding write_all write_artifact text_of
  write_all-Outcome i [] back version h s r =
      last-Outcome
        (write_text S d j (dir ++ "/incident.json")
          (serialized "recorder json" (j.to_vec_pretty (incident_document i))) s)
        (incident-Outcome i (j.to_vec_pretty (incident_document i)) s
          (λ text t e. (
            back.read_back i text t e ∙ ap (λ v. some (some v)) version,
            λ first rest. back.no_value i text first rest t e,
          ))
          r)
  write_all-Outcome i ((name, a) ∷ files) back version h s r =
      then-Outcome (write_text S d j (dir ++ "/" ++ name) (text_of j a) s)
        (write_all S d j dir (files ++ₗ (("incident.json", json (incident_document i)) ∷ [])))
        (other-Ready name (text_of j a) s h.0 r) (write_all-Outcome i files back version h.1)
