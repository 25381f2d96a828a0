-- ===== src/Tests/Freeze.antt =====
-- Admission and loss of a freeze (crates/adc-core/src/recorder) at concrete inputs.
use agent_debug_compass.Prelude.{
  ℕ, ◌+◌, ◌*◌, ◌/◌, ◌≤◌, ◌<◌, ◌≡◌, ◌≢◌, ◌↔◌, refl, String, true, false, not, some, [], ◌∷◌, max,
  All, arith, if◌then◌else◌, ◌=ₛ◌, ◌==◌,
}
use agent_debug_compass.Prelude.Float.{one}
use agent_debug_compass.Quality.{DataQuality, medium_quality}
use agent_debug_compass.Error.{AdcResult, ok, err, artifact, is_ok}
use agent_debug_compass.Recorder.Model.{RecorderSample, RecorderBudget}
use agent_debug_compass.Recorder.Ring.{RecorderRing}
use agent_debug_compass.Recorder.Ring.Status.{status}
use agent_debug_compass.Recorder.Validation.{
  all_codes, is_separator, validate_recorder_file_segment, validate_recorder_file_segment-safe,
}
use agent_debug_compass.Recorder.Budget.{accept, recorder_ring_capacity_for_budget}
use agent_debug_compass.Recorder.Budget.Inventory.{
  FileSystem, Metadata, found, not_found, named, recorder_incident_budget_status,
}
use agent_debug_compass.Recorder.Budget.Admission.{AllValid, accept_iff}
use agent_debug_compass.Recorder.Budget.Capacity.{capacity_bounds}
use agent_debug_compass.Recorder.Loss.{
  samples_within_freeze_budget, loss_report_for_buffer_with_quality,
}
use agent_debug_compass.Recorder.Loss.Selection.{Exported, samples_within_freeze_budget-Exported}
use agent_debug_compass.Recorder.Loss.Errors.{Fails, samples_within_freeze_budget-Fails_iff}
use agent_debug_compass.Recorder.Loss.Report.{IsExact, freeze_losses-IsExact}

abbrev pub budget : RecorderBudget
budget = record {
  schema_version = "obs.recorder_budget.v1";
  budget_id = "default-memory-ring-budget";
  max_memory_bytes = 8388608;
  max_samples_per_second = 16;
  max_collectors = 8;
  max_frozen_incidents = 4;
  max_freeze_bytes = 25;
  max_post_window_ms = 30000;
  max_retention_ms = 60000;
  max_status_write_interval_ms = 5000;
  max_ref_lines = 1000;
  max_cpu_percent = one;
  max_disk_bytes = 4194304;
  collector_priority = [];
  degradation_policies = [];
  data_quality = medium_quality;
}

validate_recorder_file_segment-safe_example :
    (◌≢◌ {A = String} "INC-1.a" "")
    × (◌≢◌ {A = String} "INC-1.a" ".")
    × (◌≢◌ {A = String} "INC-1.a" "..")
    × (all_codes (λ c. not (is_separator c)) "INC-1.a" ≡ true)
unfolding validate_recorder_file_segment
validate_recorder_file_segment-safe_example =
    validate_recorder_file_segment-safe "INC-1.a" "incident_id" refl

capacity_bounds_example :
    (1 ≤ recorder_ring_capacity_for_budget budget)
    × (recorder_ring_capacity_for_budget budget * 256 ≤ max 8388608 256)
    × (recorder_ring_capacity_for_budget budget ≤ max (16 * max ((60000 + 999) / 1000) 1) 1)
capacity_bounds_example = capacity_bounds budget (omega arith)

abbrev directory : Metadata
directory = record { is_dir = true; is_file = false; is_symlink = false; len = 0 }

abbrev json_file : Metadata
json_file = record { is_dir = false; is_file = true; is_symlink = false; len = 12 }

-- A root with one frozen incident.
abbrev one_incident : FileSystem
one_incident = record {
  symlink_metadata = λ path.
      if path =ₛ "root/recorder/incidents"
      then found directory
      else if path =ₛ "root/recorder/incidents/INC-1"
      then found directory
      else if path =ₛ "root/recorder/incidents/INC-1/incident.json"
      then found json_file
      else not_found;
  read_dir = λ path. some (named "INC-1" ∷ []);
  read = λ path. some "{}";
  schema_version = λ bytes. some (some "obs.recorder_incident.v1");
}

accept_iff_example :
    ((recorder_incident_budget_status one_incident "root" budget 0).admission_decision ≡ accept)
    ↔ (AllValid one_incident "root" (named "INC-1" ∷ []) × (1 < 4))
accept_iff_example =
    accept_iff one_incident "root" budget 0 directory (named "INC-1" ∷ []) refl refl refl refl
      (omega arith) (omega arith)

accept_run :
    (recorder_incident_budget_status one_incident "root" budget 0).admission_decision ≡ accept
unfolding recorder_incident_budget_status validate_recorder_file_segment
accept_run = refl

abbrev pub sample_at : ℕ → RecorderSample
sample_at t = record {
  time_mono_ns = t;
  signals = record { signal_id = "cpu.summary"; value = one } ∷ [];
}

abbrev pub ring : RecorderRing
ring = record {
  target_id = "target";
  capacity = 4;
  retention_ms = 1000;
  samples = sample_at 1 ∷ sample_at 2 ∷ sample_at 3 ∷ [];
  dropped_by_signal = [];
  expected_signals = [];
  throttled_sample_count = 0;
  throttle_notes = [];
}

-- Lines of nine bytes: two of them, with their newlines, fit a budget of 25.
abbrev pub nine_bytes : RecorderSample → AdcResult ℕ
nine_bytes x = ok 9

abbrev pub frozen_quality : DataQuality
frozen_quality = record medium_quality {
  truncated = true;
  notes = "freeze samples truncated to max_freeze_bytes=25 and max_disk_bytes=4194304" ∷ [];
}

pub samples_within_freeze_budget_run :
    samples_within_freeze_budget nine_bytes ring.samples budget
    ≡ ok (sample_at 2 ∷ sample_at 3 ∷ [], frozen_quality)
unfolding samples_within_freeze_budget
samples_within_freeze_budget_run = refl

samples_within_freeze_budget-Exported_example :
    Exported nine_bytes 25 ring.samples (sample_at 2 ∷ sample_at 3 ∷ []) true
samples_within_freeze_budget-Exported_example =
    samples_within_freeze_budget-Exported nine_bytes ring.samples (sample_at 2 ∷ sample_at 3 ∷ [])
      frozen_quality budget (omega arith) samples_within_freeze_budget_run

-- The second sample cannot be written.
abbrev broken_second : RecorderSample → AdcResult ℕ
broken_second x = if x.time_mono_ns == 2 then err (artifact "out of range") else ok 9

samples_within_freeze_budget-Fails_iff_example :
    (samples_within_freeze_budget broken_second ring.samples budget ≡ err (artifact "out of range"))
    ↔ Fails broken_second 25 ring.samples (artifact "out of range")
samples_within_freeze_budget-Fails_iff_example =
    samples_within_freeze_budget-Fails_iff broken_second ring.samples budget
      (artifact "out of range") (omega arith)

broken_second_run :
    samples_within_freeze_budget broken_second ring.samples budget ≡ err (artifact "out of range")
unfolding samples_within_freeze_budget
broken_second_run = refl

-- One line fits a budget of 10 bytes, and the first sample is not looked at.
broken_first_run :
    is_ok (
      samples_within_freeze_budget
        (λ x. if x.time_mono_ns == 1 then err (artifact "out of range") else ok 9)
        ring.samples
        (record budget { max_freeze_bytes = 10 }))
    ≡ true
unfolding samples_within_freeze_budget
broken_first_run = refl

freeze_losses-IsExact_example :
    All
      (IsExact ring (sample_at 2 ∷ sample_at 3 ∷ []))
      (loss_report_for_buffer_with_quality "W-1"
        (status ring)
        (sample_at 2 ∷ sample_at 3 ∷ [])
        frozen_quality).collector_loss
freeze_losses-IsExact_example =
    freeze_losses-IsExact nine_bytes ring budget "W-1" (sample_at 2 ∷ sample_at 3 ∷ [])
      frozen_quality (omega arith) (omega arith) samples_within_freeze_budget_run
