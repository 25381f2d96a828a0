-- ===== src/Trigger/Runtime/Firing.antt =====
-- One call and runs of calls of trigger_decision_with_runtime_state.
use agent_debug_compass.Prelude.{
  ℕ, ◌≤◌, String, Bool, true, false, Option, none, some, ◌≡◌, refl, arith, sat_mul, Bool-cases, inl,
  inr,
}
use agent_debug_compass.Prelude.Maps.{get, insert}
use agent_debug_compass.Error.{AdcResult, ok, err}
use agent_debug_compass.Trigger.Model.{TriggerRule, TriggerDecision, TriggerRuntimeState}
use agent_debug_compass.Trigger.Runtime.{is_fired, not_cleared, with_state, after_last}
use agent_debug_compass.Recorder.Governor.Spacing.{After}

unfoldable pub fires : AdcResult TriggerDecision → Bool
unfolding is_fired
fires (err x) = false
fires (ok d) = is_fired d.decision

-- The time of the last fire of a rule.
abbrev pub last_fired : String → TriggerRuntimeState → Option ℕ
last_fired name state = get name state.last_fired_mono_ns_by_rule

pub after_last-quiet :
    (o : Option ℕ) (rule : TriggerRule) (now : ℕ) (state : TriggerRuntimeState)
    (d : TriggerDecision)
    → is_fired d.decision ≡ true
    → is_fired (after_last o rule now state d).0.decision ≡ false
    → (after_last o rule now state d).1 ≡ state
unfolding is_fired after_last
after_last-quiet none rule now state d f h = ground arith
after_last-quiet (some last) rule now state d f h = ground arith

pub after_last-held :
    (rule : TriggerRule) (now last : ℕ) (state : TriggerRuntimeState) (d : TriggerDecision)
    → not_cleared rule.hysteresis d.observed_value ≡ true
    → (is_fired (after_last (some last) rule now state d).0.decision ≡ false)
      × ((after_last (some last) rule now state d).1 ≡ state)
unfolding is_fired after_last
after_last-held rule now last state d h = (ground arith, ground arith)

pub after_last-fires :
    (o : Option ℕ) (rule : TriggerRule) (now : ℕ) (state : TriggerRuntimeState)
    (d : TriggerDecision)
    → is_fired (after_last o rule now state d).0.decision ≡ true
    → (after_last o rule now state d).1.last_fired_mono_ns_by_rule
      ≡ insert rule.name now state.last_fired_mono_ns_by_rule
unfolding is_fired after_last
after_last-fires none rule now state d h = ground arith
after_last-fires (some last) rule now state d h = ground arith

pub after_last-After :
    (o : Option ℕ) (rule : TriggerRule) (now ms : ℕ) (state : TriggerRuntimeState)
    (d : TriggerDecision)
    → rule.cooldown_ms ≡ some ms
    → 1 ≤ ms
    → is_fired (after_last o rule now state d).0.decision ≡ true
    → After (sat_mul ms 1000000) o now
unfolding is_fired after_last
after_last-After none rule now ms state d c p h = tt
after_last-After (some last) rule now ms state d c p h = ground arith

module _ (rule : TriggerRule) (now : ℕ) (state : TriggerRuntimeState) where
  pub with_state-quiet :
      (r : AdcResult TriggerDecision)
      → fires (with_state rule now state r).0 ≡ false
      → (with_state rule now state r).1 ≡ state
  unfolding with_state fires
  with_state-quiet (err x) = λ h. refl
  with_state-quiet (ok d) = elim (Bool-cases (is_fired d.decision)) [
    | inl f ↦
        rw (f, with_state, fires)
          (λ h. after_last-quiet (last_fired rule.name state) rule now state d f h)
    | inr f ↦ rw (f, with_state, fires) (λ h. refl)
  ]

  pub with_state-fires :
      (r : AdcResult TriggerDecision)
      → fires (with_state rule now state r).0 ≡ true
      → (fires r ≡ true)
        × ((with_state rule now state r).1.last_fired_mono_ns_by_rule
            ≡ insert rule.name now state.last_fired_mono_ns_by_rule)
  unfolding with_state fires
  with_state-fires (err x) = λ h. absurd (ground arith)
  with_state-fires (ok d) = elim (Bool-cases (is_fired d.decision)) [
    | inl f ↦
        rw (f, with_state, fires)
          (λ h. (refl, after_last-fires (last_fired rule.name state) rule now state d h))
    | inr f ↦ rw (f, with_state, fires) (λ h. absurd (cc))
  ]

  pub with_state-After :
      (ms : ℕ) (r : AdcResult TriggerDecision)
      → rule.cooldown_ms ≡ some ms
      → 1 ≤ ms
      → fires (with_state rule now state r).0 ≡ true
      → After (sat_mul ms 1000000) (last_fired rule.name state) now
  unfolding with_state fires
  with_state-After ms (err x) c p = λ h. absurd (ground arith)
  with_state-After ms (ok d) c p = elim (Bool-cases (is_fired d.decision)) [
    | inl f ↦
        rw (f, with_state, fires)
          (λ h. after_last-After (last_fired rule.name state) rule now ms state d c p h)
    | inr f ↦ rw (f, with_state, fires) (λ h. absurd (cc))
  ]

  -- A fire that the hysteresis holds back.
  pub with_state-held :
      (last : ℕ) (r : AdcResult TriggerDecision)
      → last_fired rule.name state ≡ some last
      → ((d : TriggerDecision)
          → r ≡ ok d
          → is_fired d.decision ≡ true
          → not_cleared rule.hysteresis d.observed_value ≡ true)
      → (fires (with_state rule now state r).0 ≡ false) × ((with_state rule now state r).1 ≡ state)
  unfolding with_state fires
  with_state-held last (err x) l held = (refl, refl)
  with_state-held last (ok d) l held = elim (Bool-cases (is_fired d.decision)) [
    | inl f ↦ rw (f, l, with_state, fires) (after_last-held rule now last state d (held d refl f))
    | inr f ↦ rw (f, with_state, fires) (f, refl)
  ]
