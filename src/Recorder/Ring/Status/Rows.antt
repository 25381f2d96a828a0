-- ===== src/Recorder/Ring/Status/Rows.antt =====
-- The rows of a buffer status are the ring's own counts.
use agent_debug_compass.Prelude.{
  ℕ, ◌+◌, ◌<◌, ◌≡◌, ◌≢◌, refl, ap, sym, ◌∙◌, String, true, some, List, [], ◌∷◌, ◌++◌, map,
  append_assoc, append-nil, All, arith, u64_modulus,
}
use agent_debug_compass.Prelude.Text.{contains, contains-append}
use agent_debug_compass.Prelude.Maps.{BTreeMap, keys, contains-set_of}
use agent_debug_compass.Recorder.Model.{
  RecorderSample, RecorderSignalStatus, RecorderExpectedSignal,
}
use agent_debug_compass.Recorder.Counts.{
  count_of, recorded_counts_by_signal, count_of-recorded, occurrences, occurrences-le, signal_count,
  contains-keys,
}
use agent_debug_compass.Recorder.Ring.{RecorderRing, push_all, with_expected_signal_model}
use agent_debug_compass.Recorder.Ring.Accounting.{seen, push_all-seen, seen-new}
use agent_debug_compass.Recorder.Ring.Status.{
  signal_ids, signal_row, StatusLoop, status_step, status_loop, status,
}

-- The row that the loop pushes for an id.
abbrev pub row : RecorderRing → BTreeMap ℕ → String → RecorderSignalStatus
row r recorded_by id = signal_row r id (count_of id recorded_by) (count_of id r.dropped_by_signal)

status_loop-signals :
    (r : RecorderRing) (recorded_by : BTreeMap ℕ) (ids : List String) (s : StatusLoop)
    → (status_loop r recorded_by ids s).signals ≡ s.signals ++ map (row r recorded_by) ids
unfolding status_loop
status_loop-signals r m [] s = sym (append-nil s.signals)
status_loop-signals r m (id ∷ ids) s =
    status_loop-signals r m ids (status_step r m id s)
    ∙ append_assoc s.signals (row r m id ∷ []) (map (row r m) ids)

pub signals-status :
    (r : RecorderRing)
    → (status r).signals ≡ map (row r (recorded_counts_by_signal r.samples)) (signal_ids r)
unfolding status
signals-status r = status_loop-signals r _ (signal_ids r) _

pub All-map {ℓ κ ι} :
    {A : Type ℓ} {B : Type κ} (P : B → Type ι) (f : A → B) (xs : List A)
    → ((a : A) → P (f a))
    → All P (map f xs)
All-map P f [] h = tt
All-map P f (x ∷ xs) h = (h x, All-map P f xs h)

-- A row tells the truth of a ring if its counts are those of the samples and of the drop counter.
pub record IsTrue (r : RecorderRing) (s : RecorderSignalStatus) : Type 0 where
  pub recorded : s.recorded_samples ≡ occurrences s.signal_id r.samples
  pub dropped : s.dropped_samples ≡ count_of s.signal_id r.dropped_by_signal
  pub lossy : s.dropped_samples ≢ 0 → s.degraded ≡ true

pub row-IsTrue :
    (r : RecorderRing) (id : String)
    → signal_count r.samples < u64_modulus
    → IsTrue r (row r (recorded_counts_by_signal r.samples) id)
row-IsTrue r id h = record {
  recorded = count_of-recorded id r.samples (omega (arith, occurrences-le id r.samples));
  dropped = refl;
  lossy = λ n. ground arith;
}

-- Every row of the status gives the number of retained samples of its signal and the number that was
-- dropped, and is degraded if any was, while fewer than 2^64 signal samples are retained.
pub status-IsTrue :
    (r : RecorderRing) → signal_count r.samples < u64_modulus → All (IsTrue r) (status r).signals
status-IsTrue r h = rw (signals-status r) (
    All-map (IsTrue r) (row r (recorded_counts_by_signal r.samples)) (signal_ids r)
      (λ id. row-IsTrue r id h))

-- What a row says of the samples that were ever pushed.
pub record Accounts (xs : List RecorderSample) (s : RecorderSignalStatus) : Type 0 where
  pub complete : s.recorded_samples + s.dropped_samples ≡ occurrences s.signal_id xs
  pub expected : s.expected_samples ≡ some (occurrences s.signal_id xs)

row-Accounts :
    (r : RecorderRing) (xs : List RecorderSample) (id : String)
    → occurrences id xs < u64_modulus
    → seen id r ≡ occurrences id xs
    → Accounts xs (row r (recorded_counts_by_signal r.samples) id)
row-Accounts r xs id h e =
    let counted = count_of-recorded id r.samples (omega arith) in
    record { complete = omega arith; expected = ap some (omega arith) }

pub ids-map :
    (r : RecorderRing) (m : BTreeMap ℕ) (ids : List String)
    → map (λ s. s.signal_id) (map (row r m) ids) ≡ ids
ids-map r m [] = refl
ids-map r m (id ∷ ids) = ap (λ l. id ∷ l) (ids-map r m ids)

-- A signal with a retained or a dropped sample is among the reported ids.
contains-signal_ids :
    (r : RecorderRing) (id : String)
    → count_of id (recorded_counts_by_signal r.samples) + count_of id r.dropped_by_signal ≢ 0
    → contains (signal_ids r) id ≡ true
unfolding signal_ids
contains-signal_ids r id h =
    let recorded = keys (recorded_counts_by_signal r.samples) in
    let dropped = keys r.dropped_by_signal in
    let expected = keys r.expected_signals in
    ground (
      arith,
      contains-set_of id (recorded ++ (dropped ++ expected)),
      contains-append recorded (dropped ++ expected) id,
      contains-append dropped expected id,
      contains-keys id (recorded_counts_by_signal r.samples),
      contains-keys id r.dropped_by_signal,
    )

module _ (target : String) (capacity retention : ℕ) (model : List RecorderExpectedSignal)
    (xs : List RecorderSample) (fits : signal_count xs < u64_modulus) where
  abbrev fed : RecorderRing
  fed = push_all (with_expected_signal_model target capacity retention model) xs

  fed-seen : (id : String) → seen id fed ≡ occurrences id xs
  fed-seen id = omega (
    arith,
    seen-new id target capacity retention model,
    occurrences-le id xs,
    push_all-seen id (with_expected_signal_model target capacity retention model) xs
        (omega (arith, seen-new id target capacity retention model, occurrences-le id xs)),
  )

  -- After any run of pushes to a new ring, fewer than 2^64 signal samples, each row of the status
  -- accounts for every occurrence of its signal in them: recorded and dropped samples add up to
  -- them, and they are the expected samples.
  pub status-Accounts : All (Accounts xs) (status fed).signals
  status-Accounts = rw (signals-status fed) (
      All-map (Accounts xs) (row fed (recorded_counts_by_signal fed.samples)) (signal_ids fed)
        (λ id. row-Accounts fed xs id (omega (arith, occurrences-le id xs)) (fed-seen id)))

  -- After any run of pushes to a new ring, fewer than 2^64 signal samples, a signal that occurs in
  -- any of them has a row in the status.
  pub status-reports_all :
      (id : String)
      → occurrences id xs ≢ 0
      → contains (map (λ s. s.signal_id) (status fed).signals) id ≡ true
  status-reports_all id h =
      rw (signals-status fed, ids-map fed (recorded_counts_by_signal fed.samples) (signal_ids fed))
        (contains-signal_ids fed id (
          omega (
            arith,
            fed-seen id,
            occurrences-le id xs,
            count_of-recorded id fed.samples (omega (arith, fed-seen id, occurrences-le id xs)),
          )))
