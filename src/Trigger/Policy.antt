-- ===== src/Trigger/Policy.antt =====
-- The policy that a profile's rules make: trigger_policy_for_profile of
-- crates/adc-core/src/trigger.rs.
pub mod Agreement
use agent_debug_compass.Prelude.{
  ℕ, ◌≤◌, ◌≡◌, refl, String, Bool, true, false, Option, none, some, List, [], ◌∷◌, map, max,
  sat_mul, arith, All, length, eq_refl, ◌=ₛ◌,
}
use agent_debug_compass.Prelude.Float.{F64, one, at_least_one_u64}
use agent_debug_compass.Prelude.Text.{format}
use agent_debug_compass.Quality.{medium_quality}
use agent_debug_compass.Recorder.Model.{partial}
use agent_debug_compass.Trigger.Model.{
  TriggerRule, TriggerHysteresis, TriggerKind, TriggerPolicy, TriggerPolicyRule,
  TriggerPolicyHysteresis,
}
use agent_debug_compass.Trigger.Rules.{unwrap_or, trigger_kind_for_rule}
use agent_debug_compass.Trigger.Outcome.{coverage_signal_id_for_trigger_signal}

abbrev pub threshold_for : TriggerKind → Option F64 → Option F64
threshold_for TriggerKind.threshold value = value
threshold_for _ value = none

abbrev pub delta_for : TriggerKind → Option F64 → Option F64
delta_for TriggerKind.delta value = value
delta_for _ value = none

abbrev pub burst_count_for : TriggerKind → Option F64 → Option ℕ
unfolding at_least_one_u64
burst_count_for TriggerKind.burst_count value = some (at_least_one_u64 (unwrap_or one value))
burst_count_for _ value = none

abbrev pub burst_window_for : TriggerKind → Option ℕ → Option ℕ
burst_window_for TriggerKind.burst_count duration_sec =
    some (sat_mul (max (unwrap_or 1 duration_sec) 1) 1000)
burst_window_for _ duration_sec = none

abbrev pub hysteresis_for : Option TriggerHysteresis → Option TriggerPolicyHysteresis
hysteresis_for none = none
hysteresis_for (some h) = some (record {
  clear_below = h.clear_below;
  min_clear_duration_ms = unwrap_or 0 h.min_clear_duration_ms;
})

unfoldable pub trigger_policy_rule_for_profile_rule : TriggerRule → TriggerPolicyRule
unfolding trigger_kind_for_rule coverage_signal_id_for_trigger_signal format
trigger_policy_rule_for_profile_rule rule =
    let signal_id = unwrap_or "kmsg.message" rule.signal in
    let trigger_kind = trigger_kind_for_rule rule in
    record {
      rule_id = format (rule.name ∷ "_v1" ∷ []);
      trigger_name = rule.name;
      trigger_kind = trigger_kind;
      coverage_signal_id = coverage_signal_id_for_trigger_signal signal_id;
      signal_id = signal_id;
      operator = rule.op;
      threshold = threshold_for trigger_kind rule.value;
      delta = delta_for trigger_kind rule.value;
      burst_count = burst_count_for trigger_kind rule.value;
      burst_window_ms = burst_window_for trigger_kind rule.duration_sec;
      min_coverage_state = partial;
      required_signal_state = "covered_or_partial";
      cooldown_ms = unwrap_or 0 rule.cooldown_ms;
      hysteresis = hysteresis_for rule.hysteresis;
      freeze_profile = unwrap_or "default_pre_window" rule.capture_profile;
      root_cause_claim = false;
      data_quality = medium_quality;
    }

-- The rules stand for `profile.triggers`, the part of the profile that the function reads.
unfoldable pub trigger_policy_for_profile : String → List TriggerRule → TriggerPolicy
unfolding trigger_policy_rule_for_profile_rule
trigger_policy_for_profile policy_id triggers = record {
  schema_version = "obs.trigger_policy.v1";
  policy_id = policy_id;
  policy_scope = "recorder";
  rules = map trigger_policy_rule_for_profile_rule triggers;
  default_decision = "evaluate";
  data_quality = medium_quality;
}
