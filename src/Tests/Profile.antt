-- ===== src/Tests/Profile.antt =====
-- Profiles (crates/adc-core/src/profile.rs) at concrete inputs.
use agent_debug_compass.Prelude.{◌≡◌, ◌↔◌, refl, String, true, [], ◌∷◌}
use agent_debug_compass.Error.{ok, err, profile_validation, IoResult, done}
use agent_debug_compass.Profile.{Profile, parse_profile}
use agent_debug_compass.Profile.Accepted.{is_well_formed, parse_profile_iff}

abbrev idle : Profile
idle = record {
  id = "idle";
  sampling = record { interval_ms = 500 };
  always_on = record { collectors = "cpu" ∷ "memory" ∷ [] };
  budgets = record { max_daemon_cpu_percent = 3; max_memory_mb = 64; max_artifact_mb_per_run = 16 };
  triggers = [];
  capture_profiles = [];
}

abbrev only_idle : String → IoResult Profile
only_idle text = done idle

parse_profile_iff_example :
    (parse_profile only_idle "profile: idle" ≡ ok idle)
    ↔ ((only_idle "profile: idle" ≡ done idle) × (is_well_formed idle ≡ true))
parse_profile_iff_example = parse_profile_iff only_idle "profile: idle" idle

parse_profile_run : parse_profile only_idle "profile: idle" ≡ ok idle
unfolding parse_profile
parse_profile_run = refl

overdrawn_run :
    parse_profile
      (λ text. done (record idle {
        budgets = record {
          max_daemon_cpu_percent = 101;
          max_memory_mb = 64;
          max_artifact_mb_per_run = 16;
        };
      }))
      "profile: idle"
    ≡ err (profile_validation "budgets.max_daemon_cpu_percent must be between 1 and 100")
unfolding parse_profile
overdrawn_run = refl
