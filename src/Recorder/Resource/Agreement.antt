-- ===== src/Recorder/Resource/Agreement.antt =====
-- The parts of the power policy of crates/adc-core/src/recorder/resource.rs agree with each other,
-- and with the loss report of crates/adc-core/src/recorder/loss.rs.
use agent_debug_compass.Recorder.Resource.Reasons.{policy_reasons-low, policy_reasons-critical}
use agent_debug_compass.Prelude.{
  ℕ, ◌≡◌, refl, sym, ap, ◌∙◌, ◌⊎◌, inl, inr, String, Bool, true, false, not, ◌||◌, Option, none,
  some, List, [], ◌∷◌, ◌++◌, append_assoc, any, arith, eq_iff, Bool-cases, &&-eq-true, subst, ◌=ₛ◌,
  if◌then◌else◌,
}
use agent_debug_compass.Prelude.Text.{contains, includes, format}
use agent_debug_compass.Quality.{DataQuality, push_missing, push_note}
use agent_debug_compass.Recorder.Model.{RecorderSignalStatus}
use agent_debug_compass.Recorder.Loss.{loss_reasons_for}
use agent_debug_compass.Recorder.Coverage.Expected.{signal_id_for_collector}
use agent_debug_compass.Recorder.Resource.Model.{
  RecorderPowerMode, RecorderDegradationDecision, battery_low, battery_critical, battery_normal,
}
use agent_debug_compass.Recorder.Resource.Policy.{
  collector_enabled_by_power_mode, signal_disabled_by_power_mode, is_scarce,
  annotate_expected_signal_for_power_mode, resource_policy_loss_reason_for_signal,
  recorder_degradation_decisions_for_power_mode, disabled_text, reason_of,
}

-- Whether a decision of a list names a signal as affected.
abbrev pub names : List RecorderDegradationDecision → String → Bool
names ds id = any (λ d. contains d.affected_signals id) ds

abbrev is_low : String → Bool
is_low id = (id =ₛ "network.counters") || (id =ₛ "process.topN")

abbrev is_low_at : Option String → Bool
is_low_at none = false
is_low_at (some id) = is_low id

collector-low :
    (c : String) → ((c =ₛ "network") || (c =ₛ "process")) ≡ is_low_at (signal_id_for_collector c)
unfolding signal_id_for_collector
collector-low c = elim (Bool-cases (c =ₛ "network")) [
  | inl h ↦
      subst (λ c. ((c =ₛ "network") || (c =ₛ "process")) ≡ is_low_at (signal_id_for_collector c))
        (sym ((eq_iff c "network").0 h)) refl
  | inr h ↦ elim (Bool-cases (c =ₛ "process")) [
    | inl k ↦
        subst (λ c. ((c =ₛ "network") || (c =ₛ "process")) ≡ is_low_at (signal_id_for_collector c))
          (sym ((eq_iff c "process").0 k)) refl
    | inr k ↦ ground arith
  ]
]

collector-disabled :
    (c id : String) (mode : RecorderPowerMode)
    → signal_id_for_collector c ≡ some id
    → collector_enabled_by_power_mode c mode ≡ not (signal_disabled_by_power_mode id mode)
unfolding collector_enabled_by_power_mode signal_disabled_by_power_mode
collector-disabled c id mode h = let e = collector-low c ∙ ap is_low_at h in ground (arith, e)

decisions-disabled :
    (id : String) (mode : RecorderPowerMode)
    → names (recorder_degradation_decisions_for_power_mode mode) id
      ≡ signal_disabled_by_power_mode id mode
unfolding recorder_degradation_decisions_for_power_mode signal_disabled_by_power_mode
decisions-disabled id mode = ground (
  arith,
  eq_iff id "network.counters",
  eq_iff "network.counters" id,
  eq_iff id "process.topN",
  eq_iff "process.topN" id,
)

-- A row with the missing texts of an expected signal that was annotated for a mode, and the texts that
-- the status adds after them.
abbrev pub annotated :
    RecorderSignalStatus → RecorderPowerMode → DataQuality → List String → RecorderSignalStatus
annotated s mode q later =
    let expected = annotate_expected_signal_for_power_mode s.signal_id mode q in
    record s { data_quality = record expected { missing = expected.missing ++ later } }

low-cases : (id : String) → is_low id ≡ true → (id ≡ "network.counters") ⊎ (id ≡ "process.topN")
low-cases id h = elim (Bool-cases (id =ₛ "network.counters")) [
  | inl k ↦ inl ((eq_iff id "network.counters").0 k)
  | inr k ↦ inr ((eq_iff id "process.topN").0 (ground arith))
]

-- The text of a disabled signal names the policy of its mode.
text-names :
    (id : String)
    → is_low id ≡ true
    → (includes (disabled_text id battery_low) "battery_low policy" ≡ true)
      × (includes (disabled_text id battery_critical) "battery_critical policy" ≡ true)
unfolding disabled_text format
text-names id h = elim (low-cases id h) [
  | inl e ↦
      subst
        (λ i.
          (includes (disabled_text i battery_low) "battery_low policy" ≡ true)
          × (includes (disabled_text i battery_critical) "battery_critical policy" ≡ true))
        (sym e) (refl, refl)
  | inr e ↦
      subst
        (λ i.
          (includes (disabled_text i battery_low) "battery_low policy" ≡ true)
          × (includes (disabled_text i battery_critical) "battery_critical policy" ≡ true))
        (sym e) (refl, refl)
]

annotated-missing :
    (id : String) (mode : RecorderPowerMode) (q : DataQuality)
    → signal_disabled_by_power_mode id mode ≡ true
    → (annotate_expected_signal_for_power_mode id mode q).missing
      ≡ q.missing ++ disabled_text id mode ∷ []
unfolding annotate_expected_signal_for_power_mode
annotated-missing id mode q h =
    ap
      (λ b.
        (if b
          then push_note "resource policy disabled a low-priority recorder signal"
              (push_missing (disabled_text id mode) (record q { throttled = true }))
          else q).missing)
      h

reasons-note :
    (s : RecorderSignalStatus) (mode : RecorderPowerMode) (q : DataQuality) (later : List String)
    (exported truncated : ℕ)
    → is_low s.signal_id ≡ true
    → is_scarce mode ≡ true
    → contains (loss_reasons_for (annotated s mode q later) exported truncated) (reason_of mode)
      ≡ true
unfolding loss_reasons_for signal_disabled_by_power_mode
reasons-note s battery_low q later exported truncated h k =
    let text = disabled_text s.signal_id battery_low in
    rw (annotated-missing s.signal_id battery_low q h, append_assoc q.missing (text ∷ []) later)
      (policy_reasons-low q.missing text later _ (text-names s.signal_id h).0)
reasons-note s battery_critical q later exported truncated h k =
    let text = disabled_text s.signal_id battery_critical in
    rw
      (annotated-missing s.signal_id battery_critical q h, append_assoc q.missing (text ∷ []) later)
      (policy_reasons-critical q.missing text later _ (text-names s.signal_id h).1)
reasons-note s RecorderPowerMode.unknown q later exported truncated h k = absurd (ground arith)
reasons-note s RecorderPowerMode.ac_power q later exported truncated h k = absurd (ground arith)
reasons-note s battery_normal q later exported truncated h k = absurd (ground arith)

disabled-low :
    (id : String) (mode : RecorderPowerMode)
    → signal_disabled_by_power_mode id mode ≡ true
    → (is_scarce mode ≡ true) × (is_low id ≡ true)
unfolding signal_disabled_by_power_mode
disabled-low id mode h = &&-eq-true (is_scarce mode) (is_low id) h

-- Whether the reason, where there is one, stands in a list.
abbrev pub is_reported : Option String → List String → Bool
is_reported none rs = true
is_reported (some reason) rs = contains rs reason

abbrev pub has_reason : Option String → Bool
has_reason none = false
has_reason (some reason) = true

reason-reported :
    (s : RecorderSignalStatus) (mode : RecorderPowerMode) (q : DataQuality) (later : List String)
    (exported truncated : ℕ)
    → is_reported
        (resource_policy_loss_reason_for_signal s.signal_id mode)
        (loss_reasons_for (annotated s mode q later) exported truncated)
      ≡ true
unfolding resource_policy_loss_reason_for_signal
reason-reported s mode q later exported truncated =
    elim (Bool-cases (signal_disabled_by_power_mode s.signal_id mode)) [
      | inl d ↦ rw (d) (
          let low = disabled-low s.signal_id mode d in
          reasons-note s mode q later exported truncated low.1 low.0)
      | inr d ↦ rw (d) refl
    ]

-- For every collector of a signal, a power mode turns the collector off exactly where it disables the
-- signal, a degradation decision of the mode names the signal exactly then, and the mode has a loss
-- reason for the signal exactly then; that reason stands in the loss report's reasons of every row
-- with the missing texts of an expected signal that was annotated for the mode, whatever texts follow.
pub disabled-agrees :
    (s : RecorderSignalStatus) (mode : RecorderPowerMode) (q : DataQuality) (later : List String)
    (exported truncated : ℕ) (c : String)
    → signal_id_for_collector c ≡ some s.signal_id
    → (collector_enabled_by_power_mode c mode
        ≡ not (signal_disabled_by_power_mode s.signal_id mode))
      × (names (recorder_degradation_decisions_for_power_mode mode) s.signal_id
          ≡ signal_disabled_by_power_mode s.signal_id mode)
      × (has_reason (resource_policy_loss_reason_for_signal s.signal_id mode)
          ≡ signal_disabled_by_power_mode s.signal_id mode)
      × (is_reported
            (resource_policy_loss_reason_for_signal s.signal_id mode)
            (loss_reasons_for (annotated s mode q later) exported truncated)
          ≡ true)
unfolding resource_policy_loss_reason_for_signal
disabled-agrees s mode q later exported truncated c h = (
  collector-disabled c s.signal_id mode h,
  decisions-disabled s.signal_id mode,
  ground arith,
  reason-reported s mode q later exported truncated,
)
