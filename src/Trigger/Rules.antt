-- ===== src/Trigger/Rules.antt =====
-- What the rules of crates/adc-core/src/trigger.rs are made of: kinds, severities and operators.
use agent_debug_compass.Prelude.{
  ℕ, String, Bool, true, false, Option, none, some, leb, if◌then◌else◌, ◌=ₛ◌,
}
use agent_debug_compass.Prelude.Float.{F64, lt, le, near}
use agent_debug_compass.Prelude.Text.{to_ascii_lowercase}
use agent_debug_compass.Trigger.Model.{
  RuleType, threshold, threshold_duration, delta, delta_rate, missing_sample, kmsg_pattern, burst,
  baseline_deviation, sequence_pattern, TriggerRule, TriggerInput, TriggerKind,
}

abbrev pub or_else {ℓ} : {A : Type ℓ} → Option A → Option A → Option A
or_else (some x) o = some x
or_else none o = o

abbrev pub unwrap_or {ℓ} : {A : Type ℓ} → A → Option A → A
unwrap_or d (some x) = x
unwrap_or d none = d

unfoldable pub trigger_kind_for : RuleType → TriggerKind
trigger_kind_for delta = TriggerKind.delta
trigger_kind_for delta_rate = TriggerKind.delta
trigger_kind_for burst = TriggerKind.burst_count
trigger_kind_for kmsg_pattern = TriggerKind.burst_count
trigger_kind_for sequence_pattern = TriggerKind.burst_count
trigger_kind_for threshold = TriggerKind.threshold
trigger_kind_for threshold_duration = TriggerKind.threshold
trigger_kind_for missing_sample = TriggerKind.threshold
trigger_kind_for baseline_deviation = TriggerKind.threshold

unfoldable pub trigger_kind_for_rule : TriggerRule → TriggerKind
unfolding trigger_kind_for
trigger_kind_for_rule rule = trigger_kind_for rule.rule_type

unfoldable pub severity_rank : String → ℕ
unfolding to_ascii_lowercase
severity_rank severity =
    let s = to_ascii_lowercase severity in
    if s =ₛ "emerg"
    then 7
    else if s =ₛ "emergency"
    then 7
    else if s =ₛ "alert"
    then 6
    else if s =ₛ "crit"
    then 5
    else if s =ₛ "critical"
    then 5
    else if s =ₛ "err"
    then 4
    else if s =ₛ "error"
    then 4
    else if s =ₛ "warn"
    then 3
    else if s =ₛ "warning"
    then 3
    else if s =ₛ "notice"
    then 2
    else if s =ₛ "info"
    then 1
    else 0

unfoldable pub severity_at_least : Option String → String → Bool
unfolding severity_rank
severity_at_least actual required =
    leb (severity_rank required) (severity_rank (unwrap_or "debug" actual))

-- `rule.signal.as_deref() == Some(signal)`
unfoldable pub names_signal : Option String → String → Bool
names_signal none signal = false
names_signal (some s) signal = s =ₛ signal

-- The test that an operator stands for, where it is one.
abbrev pub pick : String → Bool → Bool → Bool → Bool → Bool → Option Bool
pick op above at_least below at_most equal =
    if ">" =ₛ op
    then some above
    else if ">=" =ₛ op
    then some at_least
    else if "<" =ₛ op
    then some below
    else if "<=" =ₛ op
    then some at_most
    else if "==" =ₛ op
    then some equal
    else none

unfoldable pub compare_with : String → F64 → F64 → Option Bool
unfolding lt le near
compare_with op actual limit =
    pick op (lt limit actual) (le limit actual) (lt actual limit) (le actual limit)
      (near actual limit)

is_threshold_duration : RuleType → Bool
is_threshold_duration threshold_duration = true
is_threshold_duration _ = false

-- The duration that a matching threshold_duration rule asks for besides.
unfoldable pub lasts : TriggerRule → TriggerInput → Bool
unfolding is_threshold_duration
lasts rule input =
    if is_threshold_duration rule.rule_type
    then leb (unwrap_or 0 rule.duration_sec) (unwrap_or 0 input.duration_sec)
    else true
