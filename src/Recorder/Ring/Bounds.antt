-- ===== src/Recorder/Ring/Bounds.antt =====
-- The bounds of the ring of crates/adc-core/src/recorder/ring.rs: its capacity and its retention
-- time.
use agent_debug_compass.Prelude.{
  ℕ, zero, suc, ◌-◌, ◌≤◌, String, ◌≡◌, ap, ◌∙◌, some, List, [], ◌∷◌, ◌++◌, length, length-append,
  length-drop, drop-append, last?, last?-snoc, drop, All, arith,
}
use agent_debug_compass.Recorder.Model.{RecorderSample, RecorderExpectedSignal}
use agent_debug_compass.Recorder.Ring.{
  RecorderRing, push, push_all, cutoff_for, with_expected_signal_model,
}
use agent_debug_compass.Recorder.Ring.Window.{newest, unexpired, push-window, capacity-push}

length-unexpired-le : (c : ℕ) (xs : List RecorderSample) → length (unexpired c xs) ≤ length xs
length-unexpired-le c [] = omega arith
length-unexpired-le c (x ∷ xs) = ground (arith, length-unexpired-le c xs)

last?-unexpired :
    (c : ℕ) (xs : List RecorderSample) (s : RecorderSample)
    → c ≤ s.time_mono_ns
    → last? (unexpired c (xs ++ s ∷ [])) ≡ some s
last?-unexpired c [] s h = ground arith
last?-unexpired c (x ∷ xs) s h = ground (arith, last?-unexpired c xs s h, last?-snoc (x ∷ xs) s)

drop-snoc :
    (n : ℕ) (xs : List RecorderSample) (s : RecorderSample)
    → n ≤ length xs
    → drop n (xs ++ s ∷ []) ≡ drop n xs ++ s ∷ []
drop-snoc n xs s h = drop-append n xs (s ∷ []) h

-- The invariant of the ring: it has room for a sample and never more than its capacity.
pub record IsBounded (r : RecorderRing) : Type 0 where
  pub room : 1 ≤ r.capacity
  pub within : length r.samples ≤ r.capacity

pub new-IsBounded :
    (target : String) (capacity retention : ℕ) (expected : List RecorderExpectedSignal)
    → IsBounded (with_expected_signal_model target capacity retention expected)
unfolding with_expected_signal_model
new-IsBounded target capacity retention expected = omega arith

pub push-IsBounded : (r : RecorderRing) (s : RecorderSample) → IsBounded r → IsBounded (push r s)
push-IsBounded r s v = record {
  room = omega (arith, capacity-push r s);
  within = omega (
    arith,
    capacity-push r s,
    ap length (push-window r s v.room),
    length-unexpired-le (cutoff_for s.time_mono_ns r.retention_ms)
        (newest r.capacity (r.samples ++ s ∷ [])),
    length-drop (length (r.samples ++ s ∷ []) - r.capacity) (r.samples ++ s ∷ []),
  );
}

-- A ring that has room for a sample and is within its capacity stays so over any run of pushes.
pub push_all-IsBounded :
    (r : RecorderRing) (xs : List RecorderSample) → IsBounded r → IsBounded (push_all r xs)
push_all-IsBounded r [] v = v
push_all-IsBounded r (x ∷ xs) v = push_all-IsBounded (push r x) xs (push-IsBounded r x v)

-- In a ring with room for a sample, the pushed sample is retained, as the newest one: its own
-- eviction cutoff never drops it.
push-keeps_newest :
    (r : RecorderRing) (s : RecorderSample) → 1 ≤ r.capacity → last? (push r s).samples ≡ some s
push-keeps_newest r s h =
    let n = length (r.samples ++ s ∷ []) - r.capacity in
    ap last? (push-window r s h)
    ∙ rw (drop-snoc n r.samples s (omega (arith, length-append r.samples (s ∷ [])))) (
        last?-unexpired (cutoff_for s.time_mono_ns r.retention_ms) (drop n r.samples) s
          (omega arith))

-- Times do not fall along the list.
abbrev pub InOrder : List RecorderSample → Type 0
InOrder [] = Unit {0}
InOrder (x ∷ xs) = All (λ y. x.time_mono_ns ≤ y.time_mono_ns) xs × InOrder xs

InOrder-drop : (n : ℕ) (xs : List RecorderSample) → InOrder xs → InOrder (drop n xs)
InOrder-drop zero xs h = h
InOrder-drop (suc n) [] h = h
InOrder-drop (suc n) (x ∷ xs) h = InOrder-drop n xs h.1

All-le_trans :
    (a b : ℕ) (xs : List RecorderSample)
    → a ≤ b
    → All (λ y. b ≤ y.time_mono_ns) xs
    → All (λ y. a ≤ y.time_mono_ns) xs
All-le_trans a b [] h k = tt
All-le_trans a b (x ∷ xs) h k = (omega arith, All-le_trans a b xs h k.1)

unexpired-All :
    (c : ℕ) (xs : List RecorderSample) → InOrder xs → All (λ y. c ≤ y.time_mono_ns) (unexpired c xs)
unexpired-All c [] h = tt
unexpired-All c (x ∷ xs) h =
    ground (arith, unexpired-All c xs h.1, All-le_trans c x.time_mono_ns xs)

-- In a ring with room for a sample, when the samples arrive in the order of their times, every
-- sample that the ring retains after a push is at most the retention time older than the pushed
-- one.
pub push-within_retention :
    (r : RecorderRing) (s : RecorderSample)
    → 1 ≤ r.capacity
    → InOrder (r.samples ++ s ∷ [])
    → All (λ y. cutoff_for s.time_mono_ns r.retention_ms ≤ y.time_mono_ns) (push r s).samples
push-within_retention r s h order = rw (push-window r s h) (
    unexpired-All (cutoff_for s.time_mono_ns r.retention_ms) _
      (InOrder-drop (length (r.samples ++ s ∷ []) - r.capacity) (r.samples ++ s ∷ []) order))
