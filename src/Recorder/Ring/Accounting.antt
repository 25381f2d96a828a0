-- ===== src/Recorder/Ring/Accounting.antt =====
-- No sample is lost silently: what leaves the ring (crates/adc-core/src/recorder/ring.rs) is counted
-- by signal.
use agent_debug_compass.Prelude.{
  ℕ, zero, suc, ◌+◌, ◌<◌, ◌≡◌, refl, ap, String, List, [], ◌∷◌, ◌++◌, length, last?, arith,
  Option-cases, inl, inr, u64_modulus,
}
use agent_debug_compass.Prelude.Maps.{get}
use agent_debug_compass.Recorder.Model.{RecorderSample, RecorderExpectedSignal}
use agent_debug_compass.Recorder.Counts.{count_of, count_of-count_signals, occurs, occurrences}
use agent_debug_compass.Recorder.Ring.{
  RecorderRing, drop_oldest_sample, make_room, evict_before, evict_expired_samples, push, push_all,
  with_expected_signal_model,
}

pub occurrences-append :
    (k : String) (xs ys : List RecorderSample)
    → occurrences k (xs ++ ys) ≡ occurrences k xs + occurrences k ys
occurrences-append k [] ys = omega arith
occurrences-append k (x ∷ xs) ys = omega (arith, occurrences-append k xs ys)

-- How often the ring has seen a signal: what it retains and what it has counted as dropped.
abbrev pub seen : String → RecorderRing → ℕ
seen k r = occurrences k r.samples + count_of k r.dropped_by_signal

module _ (k : String) where
  drop_first-seen :
      (r : RecorderRing) (xs : List RecorderSample)
      → r.samples ≡ xs
      → seen k r < u64_modulus
      → seen k (drop_oldest_sample r) ≡ seen k r
  unfolding drop_oldest_sample
  drop_first-seen r [] e h = ground arith
  drop_first-seen r (x ∷ xs) e h =
      ground (arith, ap (occurrences k) e, count_of-count_signals k x.signals r.dropped_by_signal)

  make_room-seen :
      (f : ℕ) (r : RecorderRing) → seen k r < u64_modulus → seen k (make_room f r) ≡ seen k r
  unfolding make_room
  make_room-seen zero r h = refl
  make_room-seen (suc f) r h =
      ground (arith, make_room-seen f (drop_oldest_sample r), drop_first-seen r r.samples refl h)

  evict_before-seen :
      (f c : ℕ) (r : RecorderRing) → seen k r < u64_modulus → seen k (evict_before f c r) ≡ seen k r
  unfolding evict_before
  evict_before-seen zero c r h = refl
  evict_before-seen (suc f) c r h =
      ground
        (arith, evict_before-seen f c (drop_oldest_sample r), drop_first-seen r r.samples refl h)

  evict_expired-seen :
      (r : RecorderRing) → seen k r < u64_modulus → seen k (evict_expired_samples r) ≡ seen k r
  unfolding evict_expired_samples
  evict_expired-seen r h = elim (Option-cases (last? r.samples)) [
    | inl e ↦ rw (e, evict_expired_samples)
    | inr (y, e) ↦ rw (e, evict_expired_samples) (evict_before-seen _ _ r h)
  ]

  -- A push adds to what the ring has seen of a signal exactly what the pushed sample carries.
  pub push-seen :
      (r : RecorderRing) (s : RecorderSample)
      → seen k r + occurs k s.signals < u64_modulus
      → seen k (push r s) ≡ seen k r + occurs k s.signals
  unfolding push
  push-seen r s h =
      let room = make_room (length r.samples) r in
      omega (
        arith,
        make_room-seen (length r.samples) r (omega arith),
        occurrences-append k room.samples (s ∷ []),
        evict_expired-seen (record room { samples = room.samples ++ s ∷ [] })
            (omega (
              arith,
              make_room-seen (length r.samples) r (omega arith),
              occurrences-append k room.samples (s ∷ []),
            )),
      )

  -- Over any run of pushes, the retained and the dropped occurrences of a signal together grow by
  -- those that are pushed, as long as all of them are fewer than 2^64.
  pub push_all-seen :
      (r : RecorderRing) (xs : List RecorderSample)
      → seen k r + occurrences k xs < u64_modulus
      → seen k (push_all r xs) ≡ seen k r + occurrences k xs
  push_all-seen r [] h = omega arith
  push_all-seen r (x ∷ xs) h = omega (
    arith,
    push-seen r x (omega arith),
    push_all-seen (push r x) xs (omega (arith, push-seen r x (omega arith))),
  )

pub seen-new :
    (k target : String) (capacity retention : ℕ) (expected : List RecorderExpectedSignal)
    → seen k (with_expected_signal_model target capacity retention expected) ≡ 0
unfolding with_expected_signal_model count_of get
seen-new k target capacity retention expected = omega arith
