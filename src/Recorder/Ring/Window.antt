-- ===== src/Recorder/Ring/Window.antt =====
-- What the ring retains: `push` of crates/adc-core/src/recorder/ring.rs against a bounded window.
use agent_debug_compass.Prelude.{
  ℕ, zero, suc, ◌-◌, ◌≤◌, ◌≡◌, refl, ap, sym, ◌∙◌, List, [], ◌∷◌, ◌++◌, length, length-append,
  drop-nil, drop-of_zero, drop-of_pos, drop-append, last?, last?-snoc, drop, ltb, arith,
  if◌then◌else◌,
}
use agent_debug_compass.Recorder.Model.{RecorderSample}
use agent_debug_compass.Recorder.Ring.{
  RecorderRing, drop_oldest_sample, make_room, evict_before, evict_expired_samples, push,
  cutoff_for,
}

-- The newest `n` samples.
abbrev pub newest : ℕ → List RecorderSample → List RecorderSample
newest n xs = drop (length xs - n) xs

-- Without the samples at the front that are older than the cutoff.
abbrev pub unexpired : ℕ → List RecorderSample → List RecorderSample
unexpired cutoff [] = []
unexpired cutoff (x ∷ xs) =
    let rest = unexpired cutoff xs in if ltb x.time_mono_ns cutoff then rest else x ∷ xs

drop_oldest-samples :
    (r : RecorderRing) (x : RecorderSample) (xs : List RecorderSample)
    → r.samples ≡ x ∷ xs
    → (drop_oldest_sample r).samples ≡ xs
unfolding drop_oldest_sample
drop_oldest-samples r x xs e = ground arith

module _ (r : RecorderRing) where
  capacity-drop_oldest : (drop_oldest_sample r).capacity ≡ r.capacity
  unfolding drop_oldest_sample
  capacity-drop_oldest = ground arith

  retention-drop_oldest : (drop_oldest_sample r).retention_ms ≡ r.retention_ms
  unfolding drop_oldest_sample
  retention-drop_oldest = ground arith

capacity-make_room : (f : ℕ) (r : RecorderRing) → (make_room f r).capacity ≡ r.capacity
unfolding make_room
capacity-make_room zero r = refl
capacity-make_room (suc f) r =
    ground (arith, capacity-make_room f (drop_oldest_sample r), capacity-drop_oldest r)

retention-make_room : (f : ℕ) (r : RecorderRing) → (make_room f r).retention_ms ≡ r.retention_ms
unfolding make_room
retention-make_room zero r = refl
retention-make_room (suc f) r =
    ground (arith, retention-make_room f (drop_oldest_sample r), retention-drop_oldest r)

capacity-evict_before : (f c : ℕ) (r : RecorderRing) → (evict_before f c r).capacity ≡ r.capacity
unfolding evict_before
capacity-evict_before zero c r = refl
capacity-evict_before (suc f) c r =
    ground (arith, capacity-evict_before f c (drop_oldest_sample r), capacity-drop_oldest r)

retention-evict_before :
    (f c : ℕ) (r : RecorderRing) → (evict_before f c r).retention_ms ≡ r.retention_ms
unfolding evict_before
retention-evict_before zero c r = refl
retention-evict_before (suc f) c r =
    ground (arith, retention-evict_before f c (drop_oldest_sample r), retention-drop_oldest r)

-- The loop has stopped by its test once the fuel covers the samples: it leaves the newest
-- `capacity - 1`.
make_room-samples :
    (f : ℕ) (r : RecorderRing) (xs : List RecorderSample)
    → r.samples ≡ xs
    → length xs ≤ f
    → 1 ≤ r.capacity
    → (make_room f r).samples ≡ newest (r.capacity - 1) xs
unfolding make_room
make_room-samples zero r [] e h c = e ∙ sym (drop-nil (0 - (r.capacity - 1)))
make_room-samples zero r (x ∷ xs) e h c = absurd (omega arith)
make_room-samples (suc f) r [] e h c =
    ground (arith, drop-nil {A = RecorderSample} (0 - (r.capacity - 1)))
make_room-samples (suc f) r (x ∷ xs) e h c = ground (
  arith,
  ap length e,
  make_room-samples f (drop_oldest_sample r) xs (drop_oldest-samples r x xs e),
  capacity-drop_oldest r,
  drop-of_pos (suc (length xs) - (r.capacity - 1)) x xs,
  drop-of_zero (suc (length xs) - (r.capacity - 1)) (x ∷ xs),
)

evict_before-samples :
    (f cutoff : ℕ) (r : RecorderRing) (xs : List RecorderSample)
    → r.samples ≡ xs
    → length xs ≤ f
    → (evict_before f cutoff r).samples ≡ unexpired cutoff xs
unfolding evict_before
evict_before-samples zero cutoff r [] e h = e
evict_before-samples zero cutoff r (x ∷ xs) e h = absurd (omega arith)
evict_before-samples (suc f) cutoff r [] e h = ground arith
evict_before-samples (suc f) cutoff r (x ∷ xs) e h =
    ground (
      arith,
      evict_before-samples f cutoff (drop_oldest_sample r) xs (drop_oldest-samples r x xs e),
    )

evict_expired-samples :
    (r : RecorderRing) (xs : List RecorderSample) (s : RecorderSample)
    → r.samples ≡ xs ++ s ∷ []
    → (evict_expired_samples r).samples
      ≡ unexpired (cutoff_for s.time_mono_ns r.retention_ms) (xs ++ s ∷ [])
unfolding evict_expired_samples
evict_expired-samples r xs s e =
    rw (ap last? e ∙ last?-snoc xs s, evict_expired_samples)
      (evict_before-samples _ _ r (xs ++ s ∷ []) e (omega (arith, ap length e)))

newest-snoc :
    (n : ℕ) (xs : List RecorderSample) (s : RecorderSample)
    → 1 ≤ n
    → newest (n - 1) xs ++ s ∷ [] ≡ newest n (xs ++ s ∷ [])
newest-snoc n xs s h =
    sym (drop-append (length xs - (n - 1)) xs (s ∷ []) (omega arith))
    ∙ ap (λ k. drop k (xs ++ s ∷ [])) (omega (arith, length-append xs (s ∷ [])))

-- In a ring with room for a sample, `push` keeps the newest `capacity` samples, the pushed one
-- among them, and of those drops the ones at the front that are older than the retention time
-- before the pushed sample.
pub push-window :
    (r : RecorderRing) (s : RecorderSample)
    → 1 ≤ r.capacity
    → (push r s).samples
      ≡ unexpired
          (cutoff_for s.time_mono_ns r.retention_ms)
          (newest r.capacity (r.samples ++ s ∷ []))
unfolding push
push-window r s h =
    let room = length r.samples in
    evict_expired-samples
      (record (make_room room r) { samples = (make_room room r).samples ++ s ∷ [] })
      (make_room room r).samples s refl
    ∙ rw (
      retention-make_room room r,
      make_room-samples room r r.samples refl (omega arith) h,
      newest-snoc r.capacity r.samples s h,
    )

pub capacity-push : (r : RecorderRing) (s : RecorderSample) → (push r s).capacity ≡ r.capacity
unfolding push
capacity-push r s =
    let room = length r.samples in
    ground (
      arith,
      capacity-make_room room r,
      capacity-evict_before (length ((make_room room r).samples ++ s ∷ []))
          (cutoff_for s.time_mono_ns (make_room room r).retention_ms)
          (record (make_room room r) { samples = (make_room room r).samples ++ s ∷ [] }),
      last?-snoc (make_room room r).samples s,
    )

pub retention-push :
    (r : RecorderRing) (s : RecorderSample) → (push r s).retention_ms ≡ r.retention_ms
unfolding push
retention-push r s =
    let room = length r.samples in
    ground (
      arith,
      retention-make_room room r,
      retention-evict_before (length ((make_room room r).samples ++ s ∷ []))
          (cutoff_for s.time_mono_ns (make_room room r).retention_ms)
          (record (make_room room r) { samples = (make_room room r).samples ++ s ∷ [] }),
      last?-snoc (make_room room r).samples s,
    )
