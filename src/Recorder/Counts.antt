-- ===== src/Recorder/Counts.antt =====
-- Counters by signal, `*map.entry(signal_id).or_default() += 1`, as ring.rs and loss.rs keep them.
use agent_debug_compass.Prelude.{
  ℕ, refl, ◌≤◌, ◌≢◌, true, length, ◌+◌, ◌<◌, String, ◌≡◌, none, some, List, [], ◌∷◌, arith, ◌=ₛ◌,
  eq_iff, wrap_add, u64_modulus, if◌then◌else◌,
}
use agent_debug_compass.Prelude.Maps.{BTreeMap, keys, get, insert, get-insert}
use agent_debug_compass.Prelude.Text.{contains}
use agent_debug_compass.Recorder.Model.{RecorderSignalSample, RecorderSample}

-- `map.get(k).copied().unwrap_or(0)`
unfoldable pub count_of : String → BTreeMap ℕ → ℕ
count_of k m = elim (get k m) [ none ↦ 0 | some n ↦ n ]

count_up : String → BTreeMap ℕ → BTreeMap ℕ
unfolding insert get count_of
count_up k m = insert k (wrap_add (count_of k m) 1) m

-- The loop over the signals of one sample.
unfoldable pub count_signals : List RecorderSignalSample → BTreeMap ℕ → BTreeMap ℕ
unfolding count_up
count_signals [] m = m
count_signals (s ∷ ss) m = count_signals ss (count_up s.signal_id m)

-- The loop over the samples.
count_samples : List RecorderSample → BTreeMap ℕ → BTreeMap ℕ
unfolding count_signals
count_samples [] m = m
count_samples (x ∷ xs) m = count_samples xs (count_signals x.signals m)

unfoldable pub recorded_counts_by_signal : List RecorderSample → BTreeMap ℕ
unfolding count_samples
recorded_counts_by_signal samples = count_samples samples []

-- How often a signal occurs in a sample, and in a list of samples, as plain numbers.
abbrev pub occurs : String → List RecorderSignalSample → ℕ
occurs k [] = 0
occurs k (s ∷ ss) = (if s.signal_id =ₛ k then 1 else 0) + occurs k ss

abbrev pub occurrences : String → List RecorderSample → ℕ
occurrences k [] = 0
occurrences k (x ∷ xs) = occurs k x.signals + occurrences k xs

count_of-count_up :
    (k j : String) (m : BTreeMap ℕ)
    → count_of j (count_up k m) ≡ (if k =ₛ j then wrap_add (count_of j m) 1 else count_of j m)
unfolding count_of count_up
count_of-count_up k j m = ground (arith, eq_iff k j, get-insert k j (wrap_add (count_of k m) 1) m)

-- The counter of a signal is exact while the count fits in 64 bits.
pub count_of-count_signals :
    (k : String) (ss : List RecorderSignalSample) (m : BTreeMap ℕ)
    → count_of k m + occurs k ss < u64_modulus
    → count_of k (count_signals ss m) ≡ count_of k m + occurs k ss
unfolding count_signals
count_of-count_signals k [] m h = omega arith
count_of-count_signals k (s ∷ ss) m h =
    ground (
      arith,
      count_of-count_up s.signal_id k m,
      count_of-count_signals k ss (count_up s.signal_id m),
    )

count_of-count_samples :
    (k : String) (xs : List RecorderSample) (m : BTreeMap ℕ)
    → count_of k m + occurrences k xs < u64_modulus
    → count_of k (count_samples xs m) ≡ count_of k m + occurrences k xs
unfolding count_samples
count_of-count_samples k [] m h = omega arith
count_of-count_samples k (x ∷ xs) m h = omega (
  arith,
  count_of-count_signals k x.signals m (omega arith),
  count_of-count_samples k xs (count_signals x.signals m)
      (omega (arith, count_of-count_signals k x.signals m (omega arith))),
)

pub count_of-recorded :
    (k : String) (xs : List RecorderSample)
    → occurrences k xs < u64_modulus
    → count_of k (recorded_counts_by_signal xs) ≡ occurrences k xs
unfolding recorded_counts_by_signal count_of get
count_of-recorded k xs h = omega (arith, count_of-count_samples k xs [] (omega arith))

-- The number of signal samples in all.
abbrev pub signal_count : List RecorderSample → ℕ
signal_count [] = 0
signal_count (x ∷ xs) = length x.signals + signal_count xs

occurs-le : (k : String) (ss : List RecorderSignalSample) → occurs k ss ≤ length ss
occurs-le k [] = omega arith
occurs-le k (s ∷ ss) = ground (arith, occurs-le k ss)

pub occurrences-le : (k : String) (xs : List RecorderSample) → occurrences k xs ≤ signal_count xs
occurrences-le k [] = omega arith
occurrences-le k (x ∷ xs) = omega (arith, occurs-le k x.signals, occurrences-le k xs)

-- A signal with a count has a key.
pub contains-keys : (k : String) (m : BTreeMap ℕ) → count_of k m ≢ 0 → contains (keys m) k ≡ true
unfolding count_of get
contains-keys k [] h = absurd (h refl)
contains-keys k ((j, n) ∷ m) h = ground (arith, contains-keys k m)
