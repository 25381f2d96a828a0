-- ===== src/Profile.antt =====
-- Profiles: crates/adc-core/src/profile.rs. The YAML reader, the files and the splitting of a path in
-- components are parameters.
pub mod Accepted
use Prim.Native.String.{◌++◌}
use agent_debug_compass.Prelude.{
  ℕ, String, Bool, true, false, ◌||◌, Option, none, some, List, [], ◌∷◌, is_empty, ltb, ◌==◌,
  if◌then◌else◌,
}
use agent_debug_compass.Prelude.Maps.{BTreeMap}
use agent_debug_compass.Error.{
  AdcResult, ok, err, profile_parse, profile_validation, ◌>>=◌, ◌>>◌, IoResult, done, io_error,
}
use agent_debug_compass.Recorder.Validation.{is_blank}
use agent_debug_compass.Trigger.Model.{TriggerRule}

pub record Sampling : Type 0 where
  pub interval_ms : ℕ

pub record AlwaysOn : Type 0 where
  pub collectors : List String

pub record Budgets : Type 0 where
  pub max_daemon_cpu_percent : ℕ
  pub max_memory_mb : ℕ
  pub max_artifact_mb_per_run : ℕ

pub record CaptureProfile : Type 0 where
  pub duration_sec : ℕ
  pub collectors : List String

pub record Profile : Type 0 where
  pub id : String
  pub sampling : Sampling
  pub always_on : AlwaysOn
  pub budgets : Budgets
  pub triggers : List TriggerRule
  pub capture_profiles : BTreeMap CaptureProfile

abbrev pub require : Bool → String → AdcResult (Unit {0})
require bad message = if bad then err (profile_validation message) else ok tt

unfoldable pub require_non_empty : String → String → AdcResult (Unit {0})
unfolding is_blank
require_non_empty field value = require (is_blank value) (field ++ " must not be empty")

-- The loop over the collectors.
unfoldable pub require_collectors : List String → AdcResult (Unit {0})
unfolding require_non_empty
require_collectors [] = ok tt
require_collectors (c ∷ cs) = require_non_empty "always_on.collectors[]" c >> require_collectors cs

unfoldable pub validate_capture : Option String → AdcResult (Unit {0})
unfolding require_non_empty
validate_capture none = ok tt
validate_capture (some name) = require_non_empty "triggers[].capture_profile" name

unfoldable pub validate_trigger : TriggerRule → AdcResult (Unit {0})
unfolding require_non_empty validate_capture
validate_trigger t =
    require_non_empty "triggers[].name" t.name >> validate_capture t.capture_profile

-- The loop over the triggers.
unfoldable pub validate_triggers : List TriggerRule → AdcResult (Unit {0})
unfolding validate_trigger
validate_triggers [] = ok tt
validate_triggers (t ∷ ts) = validate_trigger t >> validate_triggers ts

unfoldable pub validate_profile : Profile → AdcResult (Unit {0})
unfolding require_non_empty require_collectors validate_triggers
validate_profile p = do
  a ← require_non_empty "profile" p.id
  b ← require (p.sampling.interval_ms == 0) "sampling.interval_ms must be greater than zero"
  c ←
      require (is_empty p.always_on.collectors)
        "always_on.collectors must contain at least one collector"
  d ← require_collectors p.always_on.collectors
  e ←
      require ((p.budgets.max_daemon_cpu_percent == 0) || ltb 100 p.budgets.max_daemon_cpu_percent)
        "budgets.max_daemon_cpu_percent must be between 1 and 100"
  f ← require (p.budgets.max_memory_mb == 0) "budgets.max_memory_mb must be greater than zero"
  g ←
      require (p.budgets.max_artifact_mb_per_run == 0)
        "budgets.max_artifact_mb_per_run must be greater than zero"
  validate_triggers p.triggers

-- std::path::Component, of which only the normal ones are told apart.
pub data Component : Type 0 where
  normal other : Component

abbrev single : List Component → AdcResult (Unit {0})
single (normal ∷ []) = ok tt
single _ = err (profile_validation "profile id must be a single relative path segment")

module _ (components : String → List Component) where
  unfoldable pub validate_profile_id : String → AdcResult (Unit {0})
  unfolding is_blank
  validate_profile_id profile_id =
      if is_blank profile_id
      then err (profile_validation "profile id must not be empty")
      else single (components profile_id)

module _ (from_str : String → IoResult Profile) where
  abbrev pub checked : IoResult Profile → AdcResult Profile
  checked (io_error e) = err (profile_parse e)
  checked (done p) = do u ← validate_profile p; ok p

  unfoldable pub parse_profile : String → AdcResult Profile
  unfolding validate_profile
  parse_profile input = checked (from_str input)

-- The files of the profile directory.
pub record ProfileFiles : Type 0 where
  pub is_file : String → Bool
  pub read_to_string : String → IoResult String

abbrev pub find_file : ProfileFiles → List String → Option String
find_file f [] = none
find_file f (path ∷ paths) = if f.is_file path then some path else find_file f paths

module _ (components : String → List Component) (from_str : String → IoResult Profile)
    (f : ProfileFiles) where
  abbrev pub on_text : String → IoResult String → AdcResult Profile
  on_text path (io_error e) = err (profile_parse ("failed to read profile " ++ path ++ ": " ++ e))
  on_text path (done text) = parse_profile from_str text

  abbrev pub on_path : String → String → Option String → AdcResult Profile
  on_path dir id none = err (profile_validation ("profile " ++ id ++ " not found in " ++ dir))
  on_path dir id (some path) = on_text path (f.read_to_string path)

  unfoldable pub load_profile : String → String → AdcResult Profile
  unfolding validate_profile_id parse_profile
  load_profile profile_dir profile_id = do
    u ← validate_profile_id components profile_id
    on_path profile_dir profile_id (
        find_file f (
          (profile_dir ++ "/" ++ profile_id ++ ".yaml")
          ∷ (profile_dir ++ "/" ++ profile_id ++ ".yml")
          ∷ []))
