-- ===== src/Profile/Accepted.antt =====
-- Which profiles crates/adc-core/src/profile.rs accepts.
use agent_debug_compass.Prelude.{
  ◌≡◌, ◌≢◌, ◌↔◌, refl, sym, ap, ◌∙◌, subst, inl, inr, String, Bool, true, false, not, ◌&&◌, Option,
  none, some, List, [], ◌∷◌, all, is_empty, ltb, leb, arith,
}
use agent_debug_compass.Error.{
  is_ok, AdcResult, AdcError, ok, err, ◌>>◌, IoResult, done, io_error, AdcResult-cases,
}
use agent_debug_compass.Recorder.Validation.{is_blank}
use agent_debug_compass.Trigger.Model.{TriggerRule}
use agent_debug_compass.Profile.{
  Profile, require, require_non_empty, require_collectors, validate_capture, validate_trigger,
  validate_triggers, validate_profile, parse_profile, checked,
}

-- A trigger with a name, and with one for its capture profile where it has one.
abbrev pub names_capture : Option String → Bool
names_capture none = true
names_capture (some name) = not (is_blank name)

-- What a profile has to be, as one test.
abbrev pub is_well_formed : Profile → Bool
is_well_formed p =
    not (is_blank p.id)
    && (ltb 0 p.sampling.interval_ms
        && (not (is_empty p.always_on.collectors)
            && (all (λ c. not (is_blank c)) p.always_on.collectors
                && ((ltb 0 p.budgets.max_daemon_cpu_percent
                      && leb p.budgets.max_daemon_cpu_percent 100)
                    && (ltb 0 p.budgets.max_memory_mb
                        && (ltb 0 p.budgets.max_artifact_mb_per_run
                            && all (λ t. not (is_blank t.name) && names_capture t.capture_profile)
                                p.triggers))))))

is_ok-then : (a b : AdcResult (Unit {0})) → is_ok (a >> b) ≡ (is_ok a && is_ok b)
is_ok-then (ok u) b = refl
is_ok-then (err e) b = refl

is_ok-require : (bad : Bool) (message : String) → is_ok (require bad message) ≡ not bad
is_ok-require true message = refl
is_ok-require false message = refl

is_ok-collectors :
    (cs : List String) → is_ok (require_collectors cs) ≡ all (λ c. not (is_blank c)) cs
unfolding require_collectors require_non_empty
is_ok-collectors [] = refl
is_ok-collectors (c ∷ cs) = ground (
  arith,
  is_ok-then (require_non_empty "always_on.collectors[]" c) (require_collectors cs),
  is_ok-collectors cs,
)

is_ok-capture : (o : Option String) → is_ok (validate_capture o) ≡ names_capture o
unfolding validate_capture require_non_empty
is_ok-capture none = refl
is_ok-capture (some name) = is_ok-require (is_blank name) _

is_ok-triggers :
    (ts : List TriggerRule)
    → is_ok (validate_triggers ts)
      ≡ all (λ t. not (is_blank t.name) && names_capture t.capture_profile) ts
unfolding validate_triggers validate_trigger require_non_empty
is_ok-triggers [] = refl
is_ok-triggers (t ∷ ts) = ground (
  arith,
  is_ok-then (validate_trigger t) (validate_triggers ts),
  is_ok-then (require_non_empty "triggers[].name" t.name) (validate_capture t.capture_profile),
  is_ok-capture t.capture_profile,
  is_ok-triggers ts,
)

is_ok-profile : (p : Profile) → is_ok (validate_profile p) ≡ is_well_formed p
unfolding validate_profile require_non_empty
is_ok-profile p = ground (arith, is_ok-collectors p.always_on.collectors, is_ok-triggers p.triggers)

abbrev profile_of : AdcResult Profile → Profile → Profile
profile_of (ok q) p = q
profile_of (err e) p = p

abbrev read_of : IoResult Profile → Profile → Profile
read_of (done q) p = q
read_of (io_error e) p = p

ok-eq : (q p : Profile) → ok q ≡ ok p → q ≡ p
ok-eq q p h = ap (λ r. profile_of r p) h

done-eq : (q p : Profile) → done q ≡ done p → q ≡ p
done-eq q p h = ap (λ r. read_of r p) h

refused :
    (q p : Profile) (e : AdcError)
    → validate_profile q ≡ err e
    → done q ≡ done p
    → is_well_formed p ≢ true
refused q p e v d h =
    let bad = sym (is_ok-profile q) ∙ ap is_ok v in
    let good = subst (λ x. is_well_formed x ≡ true) (sym (done-eq q p d)) h in
    ground (arith, bad, good)

checked-Accepted :
    (from_str : String → IoResult Profile) (r : IoResult Profile) (p : Profile)
    → (checked from_str r ≡ ok p) ↔ ((r ≡ done p) × (is_well_formed p ≡ true))
checked-Accepted from_str (io_error e) p = (λ h. absurd (ground arith), λ h. absurd (ground arith))
checked-Accepted from_str (done q) p = elim (AdcResult-cases (validate_profile q)) [
  | inl v ↦ rw (v.1) (
    λ h. (
      ap done (ok-eq q p h),
      subst (λ x. is_well_formed x ≡ true) (ok-eq q p h) (sym (is_ok-profile q) ∙ ap is_ok v.1),
    ),
    λ h. ap ok (done-eq q p h.0),
  )
  | inr v ↦ rw (v.1) (λ h. absurd (ground arith), λ h. absurd (refused q p v.0 v.1 h.0 h.1))
]

-- A text is parsed to a profile exactly when the YAML reader reads that profile from it and it is
-- well formed: a name, a positive interval, at least one collector and none blank, between 1 and 100
-- percent of CPU, positive memory and artifact budgets, and triggers with names that are not blank,
-- nor are the names of their capture profiles.
pub parse_profile_iff :
    (from_str : String → IoResult Profile) (text : String) (p : Profile)
    → (parse_profile from_str text ≡ ok p) ↔ ((from_str text ≡ done p) × (is_well_formed p ≡ true))
unfolding parse_profile
parse_profile_iff from_str text p = checked-Accepted from_str (from_str text) p
