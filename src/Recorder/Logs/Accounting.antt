-- ===== src/Recorder/Logs/Accounting.antt =====
-- What the cursor of crates/adc-core/src/recorder/logs.rs counts through any run of polls.
use agent_debug_compass.Prelude.{
  ℕ, ◌+◌, ◌-◌, ◌≤◌, ◌≡◌, refl, String, Bool, true, false, not, Option, some, List, [], ◌∷◌, ◌++◌,
  length, length-append, length-drop, is_empty, ltb, arith, u64_max, Bool-cases, inl, inr, sat_add,
  ◌=ₛ◌,
}
use agent_debug_compass.Recorder.Logs.{
  new_app_log, after_rotation, limit_events, push_event, log_event, observe_line, observe_lines,
  absorb, drain, on_metadata, on_open, on_seek, on_read, poll_inner, is_rotated,
}
use agent_debug_compass.Recorder.Logs.Model.{
  AppendOnlyLogCursor, FileMetadata, LogFile, FileIdentity,
}
use agent_debug_compass.Error.{IoResult, done, io_error}
use agent_debug_compass.Recorder.Logs.Snapshot.{poll}

-- The state of the cursor between polls.
pub record IsSound (c : AppendOnlyLogCursor) : Type 0 where
  pub bounded : length c.retained_events ≤ 1000
  pub observed : c.events_observed ≤ u64_max
  pub accounted : c.events_observed ≤ length c.retained_events + c.events_truncated
  pub marked : c.rotation_detected ≡ not (is_empty c.blackout_ranges)

-- The same while the lines of a read are taken in, before the oldest events are drained.
pub record IsCounted (c : AppendOnlyLogCursor) : Type 0 where
  pub observed : c.events_observed ≤ u64_max
  pub accounted : c.events_observed ≤ length c.retained_events + c.events_truncated
  pub marked : c.rotation_detected ≡ not (is_empty c.blackout_ranges)

limit_events-IsSound : (c : AppendOnlyLogCursor) → IsCounted c → IsSound (limit_events c)
unfolding limit_events
limit_events-IsSound c h =
    let n = length-drop (length c.retained_events - 1000) c.retained_events in
    record {
      bounded = ground (arith, n);
      observed = ground (arith, h.observed);
      accounted = ground (arith, n, h.accounted, h.observed);
      marked = ground (arith, h.marked);
    }

not_empty-snoc {ℓ} : {A : Type ℓ} (xs : List A) (x : A) → is_empty (xs ++ x ∷ []) ≡ false
not_empty-snoc [] x = refl
not_empty-snoc (y ∷ xs) x = refl

after_rotation-IsSound :
    (time : ℕ) (c : AppendOnlyLogCursor) → IsSound c → IsSound (after_rotation time c)
unfolding after_rotation
after_rotation-IsSound time c h = record {
  bounded = h.bounded;
  observed = h.observed;
  accounted = h.accounted;
  marked = ground (arith, not_empty-snoc c.blackout_ranges);
}

module _ (lines : List ℕ → List String) (trim : String → String) where
  push_event-IsCounted :
      (time : ℕ) (l : String) (c : AppendOnlyLogCursor)
      → IsCounted c
      → IsCounted (push_event lines trim time l c)
  unfolding push_event
  push_event-IsCounted time l c h =
      let longer =
        length-append c.retained_events
          (log_event lines trim c time l (sat_add c.events_observed 1) ∷ []) in
      record {
        observed = omega (arith, h.observed);
        accounted = omega (arith, h.accounted, longer);
        marked = h.marked;
      }

  observe_line-IsCounted :
      (time : ℕ) (l : String) (c : AppendOnlyLogCursor)
      → IsCounted c
      → IsCounted (observe_line lines trim time l c)
  unfolding observe_line
  observe_line-IsCounted time l c h = elim (Bool-cases (trim l =ₛ "")) [
    | inl e ↦ rw (e) h
    | inr e ↦ rw (e) (push_event-IsCounted time l c h)
  ]

  observe_lines-IsCounted :
      (time : ℕ) (ls : List String) (c : AppendOnlyLogCursor)
      → IsCounted c
      → IsCounted (observe_lines lines trim time ls c)
  unfolding observe_lines
  observe_lines-IsCounted time [] c h = h
  observe_lines-IsCounted time (l ∷ ls) c h =
      observe_lines-IsCounted time ls (observe_line lines trim time l c)
        (observe_line-IsCounted time l c h)

  absorb-IsSound :
      (time available : ℕ) (rotated : Bool) (bytes : List ℕ) (c : AppendOnlyLogCursor)
      → IsSound c
      → IsSound (absorb lines trim time available rotated bytes c).cursor
  unfolding absorb
  absorb-IsSound time available rotated bytes c h = limit_events-IsSound _ (
      observe_lines-IsCounted time (lines bytes) _ (record {
        observed = h.observed;
        accounted = ground (arith, h.accounted, h.observed);
        marked = h.marked;
      }))

  on_read-IsSound :
      (time available : ℕ) (rotated : Bool) (r : IoResult (List ℕ)) (c : AppendOnlyLogCursor)
      → IsSound c
      → IsSound (on_read lines trim time available rotated r c).cursor
  on_read-IsSound time available rotated (done bytes) c h =
      absorb-IsSound time available rotated bytes c h
  on_read-IsSound time available rotated (io_error e) c h = h

  on_seek-IsSound :
      (f : LogFile) (time available : ℕ) (rotated : Bool) (r : IoResult (Unit {0}))
      (c : AppendOnlyLogCursor)
      → IsSound c
      → IsSound (on_seek lines trim f time available rotated r c).cursor
  on_seek-IsSound f time available rotated (done u) c h =
      on_read-IsSound time available rotated _ c h
  on_seek-IsSound f time available rotated (io_error e) c h = h

  on_open-IsSound :
      (f : LogFile) (time available : ℕ) (rotated : Bool) (r : IoResult (Unit {0}))
      (c : AppendOnlyLogCursor)
      → IsSound c
      → IsSound (on_open lines trim f time available rotated r c).cursor
  on_open-IsSound f time available rotated (done u) c h =
      on_seek-IsSound f time available rotated (f.seek c.offset) c h
  on_open-IsSound f time available rotated (io_error e) c h = h

  drain-IsSound :
      (f : LogFile) (time size : ℕ) (rotated : Bool) (c : AppendOnlyLogCursor)
      → IsSound c
      → IsSound (drain lines trim f time size rotated c).cursor
  unfolding drain
  drain-IsSound f time size rotated c h = elim (Bool-cases (ltb c.offset size)) [
    | inl e ↦ rw (e) (on_open-IsSound f time (size - c.offset) rotated f.open_file c h)
    | inr e ↦ rw (e) h
  ]

  known-IsSound :
      (i : Option FileIdentity) (c : AppendOnlyLogCursor)
      → IsSound c
      → IsSound (record c { identity = i })
  known-IsSound i c h = record {
    bounded = h.bounded;
    observed = h.observed;
    accounted = h.accounted;
    marked = h.marked;
  }

  on_metadata-IsSound :
      (f : LogFile) (time : ℕ) (r : IoResult FileMetadata) (c : AppendOnlyLogCursor)
      → IsSound c
      → IsSound (on_metadata lines trim f time r c).cursor
  unfolding on_metadata
  on_metadata-IsSound f time (io_error e) c h = h
  on_metadata-IsSound f time (done m) c h = elim (Bool-cases (is_rotated c m)) [
    | inl e ↦ rw (e) (
        drain-IsSound f time m.len true
          (record (after_rotation time c) { identity = some m.identity })
          (known-IsSound (some m.identity) (after_rotation time c)
            (after_rotation-IsSound time c h)))
    | inr e ↦ rw (e) (
        drain-IsSound f time m.len false (record c { identity = some m.identity })
          (known-IsSound (some m.identity) c h))
  ]

  -- The cursor after polls, the first of the list first, each with the file it finds and its time.
  abbrev pub poll_all : List (LogFile × String × ℕ) → AppendOnlyLogCursor → AppendOnlyLogCursor
  poll_all [] c = c
  poll_all ((f, target, time) ∷ ps) c = poll_all ps (poll lines trim f target time c).0

  poll_all-IsSound :
      (ps : List (LogFile × String × ℕ)) (c : AppendOnlyLogCursor)
      → IsSound c
      → IsSound (poll_all ps c)
  unfolding poll poll_inner
  poll_all-IsSound [] c h = h
  poll_all-IsSound ((f, target, time) ∷ ps) c h =
      poll_all-IsSound ps _ (on_metadata-IsSound f time f.metadata c h)

  -- After any run of polls of a new cursor, whatever files they find and whichever of them fail: at
  -- most 1000 events are retained, the events observed are no more than those retained and those
  -- counted as truncated together, and the blackout ranges tell whether a rotation was detected.
  pub polls-IsSound :
      (path : String) (ps : List (LogFile × String × ℕ)) → IsSound (poll_all ps (new_app_log path))
  unfolding new_app_log
  polls-IsSound path ps = poll_all-IsSound ps (new_app_log path) (record {
    bounded = omega arith;
    observed = omega arith;
    accounted = omega arith;
    marked = refl;
  })
