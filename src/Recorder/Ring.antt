-- ===== src/Recorder/Ring.antt =====
-- The memory ring of samples: RecorderRing of crates/adc-core/src/recorder/ring.rs.
-- The two `while` loops take fuel: a round removes a sample, so the number of samples is enough
-- (Ring/Window). The counters are u64 and wrap as in a release build.
pub mod Window
pub mod Bounds
pub mod Accounting
pub mod Status
use agent_debug_compass.Prelude.{
  ℕ, zero, suc, ◌-◌, String, Bool, true, false, Option, none, some, List, [], ◌∷◌, ◌++◌, length,
  last?, leb, ltb, sat_add, sat_mul, if◌then◌else◌, max,
}
use agent_debug_compass.Prelude.Maps.{BTreeMap, BTreeSet, insert, set_insert, get, values}
use agent_debug_compass.Recorder.Model.{RecorderSample, RecorderExpectedSignal}
use agent_debug_compass.Recorder.Counts.{count_signals}

pub record RecorderRing : Type 0 where
  pub target_id : String
  pub capacity : ℕ
  pub retention_ms : ℕ
  pub samples : List RecorderSample
  pub dropped_by_signal : BTreeMap ℕ
  pub expected_signals : BTreeMap RecorderExpectedSignal
  pub throttled_sample_count : ℕ
  pub throttle_notes : BTreeSet

-- `.map(|signal| (signal.signal_id.clone(), signal)).collect()`: a later entry replaces an earlier.
abbrev pub by_signal_id :
    List RecorderExpectedSignal → BTreeMap RecorderExpectedSignal → BTreeMap RecorderExpectedSignal
by_signal_id [] m = m
by_signal_id (s ∷ ss) m = by_signal_id ss (insert s.signal_id s m)

unfoldable pub with_expected_signal_model :
    String → ℕ → ℕ → List RecorderExpectedSignal → RecorderRing
unfolding insert
with_expected_signal_model target_id capacity retention_ms expected = record {
  target_id = target_id;
  capacity = max capacity 1;
  retention_ms = retention_ms;
  samples = [];
  dropped_by_signal = [];
  expected_signals = by_signal_id expected [];
  throttled_sample_count = 0;
  throttle_notes = [];
}

abbrev drop_first : List RecorderSample → RecorderRing → RecorderRing
drop_first [] r = r
drop_first (removed ∷ rest) r = record r {
  samples = rest;
  dropped_by_signal = count_signals removed.signals r.dropped_by_signal;
}

unfoldable pub drop_oldest_sample : RecorderRing → RecorderRing
unfolding count_signals
drop_oldest_sample r = drop_first r.samples r

-- `while self.samples.len() >= self.capacity`
make_room : ℕ → RecorderRing → RecorderRing
make_room zero r = r
make_room (suc f) r = elim (leb r.capacity (length r.samples)) [
  | true ↦ make_room f (drop_oldest_sample r)
  | false ↦ r
]

abbrev pub first_before : ℕ → List RecorderSample → Bool
first_before cutoff [] = false
first_before cutoff (x ∷ xs) = ltb x.time_mono_ns cutoff

-- `while self.samples.first().is_some_and(|sample| sample.time_mono_ns < cutoff)`
evict_before : ℕ → ℕ → RecorderRing → RecorderRing
evict_before zero cutoff r = r
evict_before (suc f) cutoff r = elim (first_before cutoff r.samples) [
  | true ↦ evict_before f cutoff (drop_oldest_sample r)
  | false ↦ r
]

abbrev pub cutoff_for : ℕ → ℕ → ℕ
cutoff_for newest_time retention_ms = newest_time - sat_mul retention_ms 1000000

unfoldable pub evict_expired_samples : RecorderRing → RecorderRing
unfolding evict_before drop_oldest_sample
evict_expired_samples r = elim (last? r.samples) [
  | none ↦ r
  | some newest ↦ evict_before (length r.samples) (cutoff_for newest.time_mono_ns r.retention_ms) r
]

unfoldable pub push : RecorderRing → RecorderSample → RecorderRing
unfolding make_room evict_expired_samples
push r sample =
    let roomy = make_room (length r.samples) r in
    evict_expired_samples (record roomy { samples = roomy.samples ++ sample ∷ [] })

unfoldable pub record_throttled_sample : RecorderRing → String → RecorderRing
unfolding set_insert
record_throttled_sample r note = record r {
  throttled_sample_count = sat_add r.throttled_sample_count 1;
  throttle_notes = set_insert note r.throttle_notes;
}

unfoldable pub expected_signals : RecorderRing → List RecorderExpectedSignal
expected_signals r = values r.expected_signals

unfoldable pub expected_signal : RecorderRing → String → Option RecorderExpectedSignal
unfolding get
expected_signal r signal_id = get signal_id r.expected_signals

-- A run of the recorder: samples pushed one after the other.
abbrev pub push_all : RecorderRing → List RecorderSample → RecorderRing
push_all r [] = r
push_all r (x ∷ xs) = push_all (push r x) xs
