-- ===== src/Trigger/Runtime.antt =====
-- trigger_decision_with_runtime_state of crates/adc-core/src/trigger.rs: the cooldown and the
-- hysteresis of a service run. `&mut TriggerRuntimeState` is an argument and a result; an error
-- leaves the state as it was.
pub mod Firing
pub mod Cooldown
pub mod Hysteresis
use agent_debug_compass.Prelude.{
  ℕ, ◌-◌, String, Bool, true, false, ◌||◌, Option, none, some, List, [], ◌∷◌, ltb, sat_mul,
  if◌then◌else◌,
}
use agent_debug_compass.Prelude.Float.{F64, le}
use agent_debug_compass.Prelude.Maps.{get, insert}
use agent_debug_compass.Quality.{push_note}
use agent_debug_compass.Error.{AdcResult, ok, err}
use agent_debug_compass.Recorder.Model.{RecorderSignalCoverage}
use agent_debug_compass.Trigger.Model.{
  Printer, TriggerRule, TriggerHysteresis, TriggerInput, TriggerDecision, TriggerDecisionOutcome,
  TriggerDecisionReason, TriggerBudgetDecision, TriggerRuntimeState, fired, not_fired,
  suppressed_cooldown, suppressed_hysteresis, suppressed_storm, skipped_missing_coverage,
  skipped_budget_exhausted, skipped_policy_invalid, cooldown_active, hysteresis_not_cleared,
}
use agent_debug_compass.Trigger.Decide.{trigger_decision_for_rule}

unfoldable pub is_fired : TriggerDecisionOutcome → Bool
is_fired fired = true
is_fired not_fired = false
is_fired suppressed_cooldown = false
is_fired suppressed_hysteresis = false
is_fired suppressed_storm = false
is_fired skipped_missing_coverage = false
is_fired skipped_budget_exhausted = false
is_fired skipped_policy_invalid = false

-- `elapsed_ns < cooldown_ms.saturating_mul(1_000_000)`
unfoldable pub cooling : Option ℕ → ℕ → ℕ → Bool
cooling none now last_fired = false
cooling (some cooldown_ms) now last_fired = ltb (now - last_fired) (sat_mul cooldown_ms 1000000)

-- `value >= clear_below`, where there are both
unfoldable pub not_cleared : Option TriggerHysteresis → Option F64 → Bool
unfolding le
not_cleared none value = false
not_cleared (some h) none = false
not_cleared (some h) (some value) = elim h.clear_below [
  | none ↦ false
  | some clear_below ↦ le clear_below value
]

unfoldable pub suppress :
    TriggerDecisionOutcome → TriggerDecisionReason → String → TriggerDecision → TriggerDecision
suppress outcome reason note d = record d {
  decision = outcome;
  decision_reason = reason;
  budget_decision = TriggerBudgetDecision.not_required;
  incident_id = none;
  trigger_event_ref = none;
  data_quality = push_note note d.data_quality;
}

unfoldable pub fire :
    TriggerRule → ℕ → TriggerRuntimeState → TriggerDecision → TriggerDecision × TriggerRuntimeState
unfolding insert
fire rule now state d = (
  d,
  record { last_fired_mono_ns_by_rule = insert rule.name now state.last_fired_mono_ns_by_rule },
)

unfoldable pub after_last :
    Option ℕ
    → TriggerRule
    → ℕ
    → TriggerRuntimeState
    → TriggerDecision
    → TriggerDecision × TriggerRuntimeState
unfolding cooling not_cleared suppress fire
after_last none rule now state d = fire rule now state d
after_last (some last_fired) rule now state d = elim (cooling rule.cooldown_ms now last_fired) [
  | true ↦ (
    suppress suppressed_cooldown cooldown_active "trigger fire suppressed by service-run cooldown"
        d,
    state,
  )
  | false ↦ elim (not_cleared rule.hysteresis d.observed_value) [
    | true ↦ (
      suppress suppressed_hysteresis hysteresis_not_cleared
          "trigger fire suppressed until hysteresis clear condition" d,
      state,
    )
    | false ↦ fire rule now state d
  ]
]

unfoldable pub with_state :
    TriggerRule
    → ℕ
    → TriggerRuntimeState
    → AdcResult TriggerDecision
    → AdcResult TriggerDecision × TriggerRuntimeState
unfolding get is_fired after_last
with_state rule now state (err e) = (err e, state)
with_state rule now state (ok d) = elim (is_fired d.decision) [
  | false ↦ (ok d, state)
  | true ↦
      let (d', state') =
        after_last (get rule.name state.last_fired_mono_ns_by_rule) rule now state d in
      (ok d', state')
]

unfoldable pub trigger_decision_with_runtime_state :
    Printer
    → String
    → TriggerRule
    → Option TriggerInput
    → Option RecorderSignalCoverage
    → Option String
    → ℕ
    → TriggerRuntimeState
    → AdcResult TriggerDecision × TriggerRuntimeState
unfolding with_state trigger_decision_for_rule
trigger_decision_with_runtime_state print policy_id rule input coverage coverage_ref now state =
    with_state rule now state
      (trigger_decision_for_rule print policy_id rule input coverage coverage_ref none)
