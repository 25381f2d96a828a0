-- ===== src/Trigger/Runtime/Cooldown.antt =====
-- Runs of calls that share one state: when the rules of a service run fire.
use agent_debug_compass.Prelude.{
  ℕ, ◌≤◌, String, Bool, true, false, Option, some, List, [], ◌∷◌, ◌≡◌, refl, arith, sat_mul, sym,
  subst, ap, ◌∙◌, if◌then◌else◌, ◌=ₛ◌, Bool-cases, inl, inr, eq_iff, All, last?,
}
use agent_debug_compass.Prelude.Maps.{get, get-insert}
use agent_debug_compass.Error.{AdcResult}
use agent_debug_compass.Recorder.Model.{RecorderSignalCoverage}
use agent_debug_compass.Recorder.Governor.Spacing.{After, SpacedFrom}
use agent_debug_compass.Trigger.Model.{
  Printer, TriggerRule, TriggerInput, TriggerDecision, TriggerRuntimeState,
}
use agent_debug_compass.Trigger.Rules.{or_else}
use agent_debug_compass.Trigger.Runtime.{trigger_decision_with_runtime_state}
use agent_debug_compass.Trigger.Runtime.Firing.{
  fires, last_fired, with_state-quiet, with_state-fires, with_state-After,
}

-- The arguments of one call.
pub record Call : Type 0 where
  pub rule : TriggerRule
  pub input : Option TriggerInput
  pub coverage : Option RecorderSignalCoverage
  pub coverage_ref : Option String
  pub now_mono_ns : ℕ

abbrev pub note_fire : Bool → Bool → ℕ → List ℕ → List ℕ
note_fire true true now later = now ∷ later
note_fire true false now later = later
note_fire false named now later = later

-- What a call does to the last fire of the rule of a name.
abbrev Moves : Bool → Bool → ℕ → Option ℕ → Option ℕ → Type 0
Moves true true now before after = after ≡ some now
Moves true false now before after = after ≡ before
Moves false named now before after = after ≡ before

note_fire-spaced :
    (d : ℕ) (fired named : Bool) (now : ℕ) (before after : Option ℕ) (later : List ℕ)
    → Moves fired named now before after
    → (fired ≡ true → named ≡ true → After d before now)
    → SpacedFrom d after later
    → SpacedFrom d before (note_fire fired named now later)
note_fire-spaced d true true now before after later m a h =
    (a refl refl, subst (λ o. SpacedFrom d o later) m h)
note_fire-spaced d true false now before after later m a h = subst (λ o. SpacedFrom d o later) m h
note_fire-spaced d false named now before after later m a h = subst (λ o. SpacedFrom d o later) m h

last?-some : (x : ℕ) (xs : List ℕ) → (y : ℕ) × (last? (x ∷ xs) ≡ some y)
last?-some x [] = (x, refl)
last?-some x (y ∷ ys) = last?-some y ys

last?-cons : (x : ℕ) (xs : List ℕ) → last? (x ∷ xs) ≡ or_else (last? xs) (some x)
last?-cons x [] = refl
last?-cons x (y ∷ ys) = let (z, p) = last?-some y ys in p ∙ sym (ap (λ o. or_else o (some x)) p)

note_fire-last :
    (fired named : Bool) (now : ℕ) (before after : Option ℕ) (later : List ℕ)
    → Moves fired named now before after
    → or_else (last? later) after ≡ or_else (last? (note_fire fired named now later)) before
note_fire-last true true now before after later m = ground (arith, last?-cons now later)
note_fire-last true false now before after later m = ap (or_else (last? later)) m
note_fire-last false named now before after later m = ap (or_else (last? later)) m

module _ (print : Printer) (policy_id : String) where
  unfoldable pub step : Call → TriggerRuntimeState → AdcResult TriggerDecision × TriggerRuntimeState
  unfolding trigger_decision_with_runtime_state
  step c state =
      trigger_decision_with_runtime_state print policy_id c.rule c.input c.coverage c.coverage_ref
        c.now_mono_ns state

  -- The times at which the rule of a name fires.
  unfoldable pub fire_times : String → TriggerRuntimeState → List Call → List ℕ
  unfolding step fires
  fire_times name state [] = []
  fire_times name state (c ∷ cs) =
      note_fire (fires (step c state).0) (c.rule.name =ₛ name) c.now_mono_ns
        (fire_times name (step c state).1 cs)

  unfoldable pub final_state : TriggerRuntimeState → List Call → TriggerRuntimeState
  unfolding step
  final_state state [] = state
  final_state state (c ∷ cs) = final_state (step c state).1 cs

  step-quiet :
      (c : Call) (state : TriggerRuntimeState)
      → fires (step c state).0 ≡ false
      → (step c state).1 ≡ state
  unfolding step trigger_decision_with_runtime_state
  step-quiet c state h = with_state-quiet c.rule c.now_mono_ns state _ h

  step-last_fired :
      (c : Call) (state : TriggerRuntimeState) (name : String)
      → fires (step c state).0 ≡ true
      → last_fired name (step c state).1
        ≡ (if c.rule.name =ₛ name then some c.now_mono_ns else last_fired name state)
  unfolding step trigger_decision_with_runtime_state
  step-last_fired c state name h =
      ap (get name) (with_state-fires c.rule c.now_mono_ns state _ h).1
      ∙ get-insert c.rule.name name c.now_mono_ns state.last_fired_mono_ns_by_rule

  step-After :
      (c : Call) (state : TriggerRuntimeState) (ms : ℕ)
      → c.rule.cooldown_ms ≡ some ms
      → 1 ≤ ms
      → fires (step c state).0 ≡ true
      → After (sat_mul ms 1000000) (last_fired c.rule.name state) c.now_mono_ns
  unfolding step trigger_decision_with_runtime_state
  step-After c state ms e p h = with_state-After c.rule c.now_mono_ns state ms _ e p h

  step-Moves :
      (c : Call) (state : TriggerRuntimeState) (name : String)
      → Moves
          (fires (step c state).0)
          (c.rule.name =ₛ name)
          c.now_mono_ns
          (last_fired name state)
          (last_fired name (step c state).1)
  step-Moves c state name = elim (Bool-cases (fires (step c state).0)) [
    | inl e ↦ elim (Bool-cases (c.rule.name =ₛ name)) [
      | inl n ↦
          rw (e, n)
            (step-last_fired c state name e
              ∙ ap (λ b. if b then some c.now_mono_ns else last_fired name state) n)
      | inr n ↦
          rw (e, n)
            (step-last_fired c state name e
              ∙ ap (λ b. if b then some c.now_mono_ns else last_fired name state) n)
    ]
    | inr e ↦ rw (e) (ap (last_fired name) (step-quiet c state e))
  ]

  -- The rule of a name has this cooldown in every call.
  abbrev pub HasCooldown : String → ℕ → Call → Type 0
  HasCooldown name ms c = c.rule.name ≡ name → c.rule.cooldown_ms ≡ some ms

  -- In a run of calls for any rules, in any order and also when the clock goes back, two fires of a
  -- rule that has a cooldown of at least a millisecond are at least the cooldown apart, the first of
  -- the run counted from the fire that the state remembers.
  pub fires-spaced :
      (name : String) (ms : ℕ) (state : TriggerRuntimeState) (calls : List Call)
      → 1 ≤ ms
      → All (HasCooldown name ms) calls
      → SpacedFrom (sat_mul ms 1000000) (last_fired name state) (fire_times name state calls)
  unfolding fire_times
  fires-spaced name ms state [] p h = tt
  fires-spaced name ms state (c ∷ cs) p h =
      note_fire-spaced (sat_mul ms 1000000) _ _ c.now_mono_ns _ _ _ (step-Moves c state name)
        (λ e n.
          let same = (eq_iff c.rule.name name).0 n in
          subst (λ k. After (sat_mul ms 1000000) (last_fired k state) c.now_mono_ns) same
            (step-After c state ms (h.0 same) p e))
        (fires-spaced name ms (step c state).1 cs p h.1)

  -- After a run of calls, the state remembers for each rule its last fire of the run, or the fire
  -- that it remembered before where there is none.
  pub final_state-last_fire :
      (name : String) (state : TriggerRuntimeState) (calls : List Call)
      → last_fired name (final_state state calls)
        ≡ or_else (last? (fire_times name state calls)) (last_fired name state)
  unfolding fire_times final_state
  final_state-last_fire name state [] = refl
  final_state-last_fire name state (c ∷ cs) =
      final_state-last_fire name (step c state).1 cs
      ∙ note_fire-last _ _ c.now_mono_ns _ _ (fire_times name (step c state).1 cs)
          (step-Moves c state name)
