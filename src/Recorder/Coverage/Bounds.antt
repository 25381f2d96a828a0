-- ===== src/Recorder/Coverage/Bounds.antt =====
-- Intervals and counts of crates/adc-core/src/recorder/coverage.rs.
use agent_debug_compass.Prelude.{
  ℕ, zero, suc, ◌+◌, ◌-◌, min, sat_add, max, ◌*◌, ◌/◌, ◌%◌, ◌≤◌, ◌<◌, ◌≡◌, refl, String, Bool, true,
  ◌==◌, if◌then◌else◌, Option, none, some, List, [], ◌∷◌, ◌++◌, ◌&&◌, ◌||◌, all, length, arith,
}
use native.Mathlib.Omega.{div_any, mod_fact}
use native.Mathlib.Nat.{mul-le-mul_right, mul-le-mul_left}
use agent_debug_compass.Prelude.Float.{F64}
use agent_debug_compass.Recorder.Model.{
  RecorderCoverageState, covered, partial, missing, unavailable, not_expected, degraded, unknown,
  RecorderSignalStatus, RecorderExpectedSignal, RecorderBudget, TimeRange, RecorderSignalCoverage,
  RecorderCoverageSummary, CollectorLoss, LossReport, RecorderBufferStatus,
}
use agent_debug_compass.Recorder.Coverage.{
  coverage_row, CoverageLoop, coverage_step, coverage_loop, CoverageBuildContext,
  observation_coverage_for_freeze,
}
use agent_debug_compass.Recorder.Coverage.Summary.{
  coverage_summary, count, is_covered, is_missing, is_partial, is_unavailable,
  coverage_state_for_loss,
}
use agent_debug_compass.Quality.{medium_quality}
use agent_debug_compass.Prelude.Maps.{BTreeMap}
use agent_debug_compass.Recorder.Coverage.Expected.{
  effective_recorder_interval_ms, effective_of, configured_of, expected_signal_for_status,
  expected_samples_for_interval, div_ceil,
}

rounded_up : (n q m : ℕ) → n * q + m ≡ 1000 → m < n → 1000 ≤ n * (if m == 0 then q else q + 1)
rounded_up n q zero split small = omega arith
rounded_up n q (suc m) split small = grind arith

-- The interval keeps to the rate of samples that a budget allows, rounded up.
effective_interval-rate : (n : ℕ) → min n 1 * 1000 ≤ n * effective_recorder_interval_ms n
unfolding effective_recorder_interval_ms
effective_interval-rate zero = omega arith
effective_interval-rate (suc n) = grind (
  arith,
  rounded_up (suc n) (1000 / suc n) (1000 % suc n) (div_any 1000 (suc n)) (mod_fact 1000 n),
  mul-le-mul_left {m = div_ceil 1000 (suc n)} {n = max (div_ceil 1000 (suc n)) 1} (suc n)
      (omega arith),
)

abbrev samples_of : Option ℕ → ℕ
samples_of none = 0
samples_of (some n) = n

-- What the intervals and the number of samples of an expected signal keep to.
pub record IsBounded (range : TimeRange) (budget : RecorderBudget) (e : RecorderExpectedSignal)
    : Type 0 where
  pub positive : 1 ≤ e.configured_interval_ms
  pub slower : e.configured_interval_ms ≤ e.effective_interval_ms
  pub rate :
      min budget.max_samples_per_second 1 * 1000
      ≤ budget.max_samples_per_second * e.effective_interval_ms
  pub derived : 1 ≤ samples_of e.expected_samples
  pub fits :
      (samples_of e.expected_samples - 1) * e.effective_interval_ms * 1000000
      ≤ range.end - range.start

samples-fit :
    (range : TimeRange) (n : ℕ)
    → 1 ≤ n
    → (1 ≤ samples_of (expected_samples_for_interval range n))
      × ((samples_of (expected_samples_for_interval range n) - 1) * n * 1000000
          ≤ range.end - range.start)
unfolding expected_samples_for_interval
samples-fit range n h =
    let ms = (range.end - range.start) / 1000000 in
    let k = sat_add (ms / n) 1 - 1 in
    let shrinks = mul-le-mul_right {m = k} {n = ms / n} n (omega arith) in
    let split = div_any ms n in ground (arith, split, shrinks)

effective-bounds :
    (model : Option RecorderExpectedSignal) (s : RecorderSignalStatus) (budget : RecorderBudget)
    → (1 ≤ configured_of model s)
      × (configured_of model s ≤ effective_of model s budget)
      × (effective_recorder_interval_ms budget.max_samples_per_second ≤ effective_of model s budget)
unfolding configured_of effective_of
effective-bounds none s budget = (omega arith, omega arith, omega arith)
effective-bounds (some e) s budget = (omega arith, omega arith, omega arith)

-- An expected signal has a configured interval of at least a millisecond and an effective one that
-- is no shorter. With a sample rate of at least 1, a thousand milliseconds hold no more effective
-- intervals than the rate allows. A number of samples is always derived, and between the first and
-- the last of that many there is no more time than the range has.
pub expected_signal-IsBounded :
    (s : RecorderSignalStatus) (range : TimeRange) (budget : RecorderBudget)
    (model : Option RecorderExpectedSignal)
    → IsBounded range budget (expected_signal_for_status s range budget model)
unfolding expected_signal_for_status
expected_signal-IsBounded s range budget model =
    let eff = effective_of model s budget in
    let large = effective-bounds model s budget in
    let fit = samples-fit range eff (omega (arith, large.0)) in
    record {
      positive = large.0;
      slower = large.1;
      rate = omega (
        arith,
        effective_interval-rate budget.max_samples_per_second,
        mul-le-mul_left budget.max_samples_per_second large.2,
      );
      derived = fit.0;
      fits = fit.1;
    }

-- A row whose signal is expected and in one of the four states that the summary counts.
abbrev is_counted : RecorderSignalCoverage → Bool
is_counted c =
    c.expected
    && (is_covered c.coverage_state
        || (is_missing c.coverage_state
            || (is_partial c.coverage_state || is_unavailable c.coverage_state)))

row-counted :
    (range : TimeRange) (ref : String) (s : RecorderSignalStatus) (l : CollectorLoss)
    (e : RecorderExpectedSignal)
    → is_counted (coverage_row range ref s l e) ≡ true
unfolding coverage_row coverage_state_for_loss is_covered is_missing is_partial is_unavailable
row-counted range ref s l e = ground arith

all-snoc {ℓ} :
    {A : Type ℓ} (p : A → Bool) (xs : List A) (x : A)
    → all p xs ≡ true
    → p x ≡ true
    → all p (xs ++ x ∷ []) ≡ true
all-snoc p [] x h k = ground arith
all-snoc p (y ∷ xs) x h k = ground (arith, all-snoc p xs x)

step-counted :
    (range : TimeRange) (ref : String) (s : RecorderSignalStatus) (e : RecorderExpectedSignal)
    (o : Option CollectorLoss) (l : CoverageLoop)
    → all is_counted l.signals ≡ true
    → all is_counted (coverage_step range ref s e o l).signals ≡ true
unfolding coverage_step
step-counted range ref s e none l h = h
step-counted range ref s e (some loss) l h =
    all-snoc is_counted l.signals (coverage_row range ref s loss e) h
      (row-counted range ref s loss e)

loop-counted :
    (range : TimeRange) (ref : String) (budget : RecorderBudget)
    (expected_by : BTreeMap RecorderExpectedSignal) (loss_by : BTreeMap CollectorLoss)
    (ss : List RecorderSignalStatus) (l : CoverageLoop)
    → all is_counted l.signals ≡ true
    → all is_counted (coverage_loop range ref budget expected_by loss_by ss l).signals ≡ true
unfolding coverage_loop
loop-counted range ref budget expected_by loss_by [] l h = h
loop-counted range ref budget expected_by loss_by (s ∷ ss) l h =
    loop-counted range ref budget expected_by loss_by ss _ (step-counted range ref s _ _ l h)

-- How many rows have each state, in one pass over the rows.
pub record Tally : Type 0 where
  pub covers : ℕ
  pub misses : ℕ
  pub partials : ℕ
  pub unavailables : ℕ

abbrev pub tally_state : RecorderCoverageState → Tally → Tally
tally_state covered t = record t { covers = suc t.covers }
tally_state partial t = record t { partials = suc t.partials }
tally_state missing t = record t { misses = suc t.misses }
tally_state unavailable t = record t { unavailables = suc t.unavailables }
tally_state not_expected t = t
tally_state degraded t = t
tally_state unknown t = t

abbrev pub tally : List RecorderSignalCoverage → Tally
tally [] = record { covers = 0; misses = 0; partials = 0; unavailables = 0 }
tally (c ∷ cs) = tally_state c.coverage_state (tally cs)

-- Each count of a summary is that of the tally, and they add up to the number of rows, which are
-- all expected.
abbrev pub AddsUp : List RecorderSignalCoverage → RecorderCoverageSummary → Type 0
AddsUp cs s =
    (s.covered_signal_count ≡ (tally cs).covers)
    × (s.missing_signal_count ≡ (tally cs).misses)
    × (s.partial_signal_count ≡ (tally cs).partials)
    × (s.unavailable_signal_count ≡ (tally cs).unavailables)
    × (s.expected_signal_count ≡ length cs)
    × (s.covered_signal_count + s.missing_signal_count + s.partial_signal_count
          + s.unavailable_signal_count
        ≡ length cs)

summary-AddsUp :
    (percent : ℕ → ℕ → F64) (cs : List RecorderSignalCoverage)
    → all is_counted cs ≡ true
    → AddsUp cs (coverage_summary percent cs)
unfolding coverage_summary count is_covered is_missing is_partial is_unavailable
summary-AddsUp percent [] h = (refl, refl, refl, refl, refl, refl)
summary-AddsUp percent (c ∷ cs) h = ground (arith, summary-AddsUp percent cs)

-- For any status, expected signals, loss report and budget, every row of a freeze's coverage is
-- expected, the summary's counts are the numbers of the rows that are covered, missing, partial and
-- unavailable, and these add up to the number of rows.
pub coverage_summary-AddsUp :
    (percent : ℕ → ℕ → F64) (context : CoverageBuildContext) (status : RecorderBufferStatus)
    (model : List RecorderExpectedSignal) (report : LossReport) (budget : RecorderBudget)
    → AddsUp
        (observation_coverage_for_freeze percent context status model report budget).signals
        (observation_coverage_for_freeze percent context status model report budget).summary
unfolding observation_coverage_for_freeze
coverage_summary-AddsUp percent context status model report budget = summary-AddsUp percent _ (
    loop-counted context.time_range _ budget _ _ status.signals
      (record { expected_signals = []; signals = []; coverage_quality = medium_quality }) refl)
