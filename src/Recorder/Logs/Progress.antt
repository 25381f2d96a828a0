-- ===== src/Recorder/Logs/Progress.antt =====
-- Polls of a readable file that does not change catch up with it:
-- AppendOnlyLogCursor::poll of crates/adc-core/src/recorder/logs.rs.
use agent_debug_compass.Prelude.{
  ℕ, ◌-◌, ◌≤◌, ◌<◌, ◌≡◌, refl, ◌∙◌, String, Bool, true, false, some, List, [], ◌∷◌, length, All,
  ltb, arith, u64_modulus, Bool-cases, inl, inr, sat_add, min, ltb→lt, ltb→ge, ge→ltb, ◌=ₛ◌,
}
use agent_debug_compass.Recorder.Logs.{
  after_rotation, limit_events, push_event, observe_line, observe_lines, absorb, drain, on_metadata,
  on_read, poll_inner, is_rotated, changed, same_identity,
}
use agent_debug_compass.Recorder.Logs.Model.{
  AppendOnlyLogCursor, FileIdentity, FileMetadata, LogFile,
}
use agent_debug_compass.Error.{IoResult, done}
use agent_debug_compass.Recorder.Logs.Snapshot.{
  poll, snapshot_of, log_source_status_has_continuity, status,
}
use agent_debug_compass.Recorder.Logs.Accounting.{poll_all}

-- A read as std::io::Read documents it for a file: no more bytes than the buffer and the file have,
-- and at least one where both have one.
pub record IsRead (size offset n : ℕ) (r : IoResult (List ℕ)) : Type 0 where
  pub bytes : List ℕ
  pub succeeds : r ≡ done bytes
  pub some_bytes : min 1 (min n (size - offset)) ≤ length bytes
  pub no_more : length bytes ≤ min n (size - offset)

-- A file of a size that can be opened, sought and read.
pub record IsReadable (identity : FileIdentity) (size : ℕ) (f : LogFile) : Type 0 where
  pub stat : f.metadata ≡ done (record { identity = identity; len = size })
  pub opens : f.open_file ≡ done tt
  pub seeks : (o : ℕ) → f.seek o ≡ done tt
  pub reads : (o n : ℕ) → IsRead size o n (f.read o n)

-- The position of a cursor in a file that it has seen.
pub record IsTracking (identity : FileIdentity) (size : ℕ) (c : AppendOnlyLogCursor) : Type 0 where
  pub known : c.identity ≡ some identity
  pub within : c.offset ≤ size

-- Two cursors stand at the same place of the same file.
abbrev SamePlace : AppendOnlyLogCursor → AppendOnlyLogCursor → Type 0
SamePlace a b = (a.offset ≡ b.offset) × (a.identity ≡ b.identity)

limit_events-SamePlace : (c : AppendOnlyLogCursor) → SamePlace (limit_events c) c
unfolding limit_events
limit_events-SamePlace c = (ground arith, ground arith)

module _ (lines : List ℕ → List String) (trim : String → String) where
  observe_line-SamePlace :
      (time : ℕ) (l : String) (c : AppendOnlyLogCursor)
      → SamePlace (observe_line lines trim time l c) c
  unfolding observe_line push_event
  observe_line-SamePlace time l c = elim (Bool-cases (trim l =ₛ "")) [
    | inl e ↦ rw (e) (refl, refl)
    | inr e ↦ rw (e) (refl, refl)
  ]

  observe_lines-SamePlace :
      (time : ℕ) (ls : List String) (c : AppendOnlyLogCursor)
      → SamePlace (observe_lines lines trim time ls c) c
  unfolding observe_lines
  observe_lines-SamePlace time [] c = (refl, refl)
  observe_lines-SamePlace time (l ∷ ls) c =
      let first = observe_line-SamePlace time l c in
      let rest = observe_lines-SamePlace time ls (observe_line lines trim time l c) in
      (rest.0 ∙ first.0, rest.1 ∙ first.1)

  absorb-offset :
      (time available : ℕ) (rotated : Bool) (bytes : List ℕ) (c : AppendOnlyLogCursor)
      → ((absorb lines trim time available rotated bytes c).cursor.offset
          ≡ sat_add c.offset (length bytes))
        × ((absorb lines trim time available rotated bytes c).cursor.identity ≡ c.identity)
  unfolding absorb
  absorb-offset time available rotated bytes c =
      let limited = limit_events-SamePlace (observe_lines lines trim time (lines bytes) _) in
      let observed = observe_lines-SamePlace time (lines bytes) _ in
      (limited.0 ∙ observed.0, limited.1 ∙ observed.1)

  -- One drain moves on towards the size.
  abbrev Moves : FileIdentity → ℕ → ℕ → AppendOnlyLogCursor → Type 0
  Moves identity size offset c = IsTracking identity size c × (size - c.offset ≤ size - offset - 1)

  module _ (identity : FileIdentity) (size : ℕ) (small : size < u64_modulus) where
    read-Moves :
        (time : ℕ) (rotated : Bool) (r : IoResult (List ℕ)) (c : AppendOnlyLogCursor)
        → IsTracking identity size c
        → c.offset < size
        → IsRead size c.offset (min (size - c.offset) 65536) r
        → Moves identity size c.offset
            (on_read lines trim time (size - c.offset) rotated r c).cursor
    read-Moves time rotated r c t h i =
        let a = absorb-offset time (size - c.offset) rotated i.bytes c in
        let few = i.no_more in
        let one = i.some_bytes in
        rw (i.succeeds)
          (record { known = a.1 ∙ t.known; within = omega (arith, a.0) }, omega (arith, a.0))

    drain-Moves :
        (f : LogFile) (time : ℕ) (rotated : Bool) (c : AppendOnlyLogCursor)
        → IsReadable identity size f
        → IsTracking identity size c
        → Moves identity size c.offset (drain lines trim f time size rotated c).cursor
    unfolding drain
    drain-Moves f time rotated c i t = elim (Bool-cases (ltb c.offset size)) [
      | inl e ↦
          rw (e, i.opens, i.seeks c.offset)
            (read-Moves time rotated _ c t (ltb→lt c.offset size e)
              (i.reads c.offset (min (size - c.offset) 65536)))
      | inr e ↦ rw (e) (t, omega (arith, ltb→ge c.offset size e))
    ]

    abbrev seen : FileMetadata
    seen = record { identity = identity; len = size }

    not_rotated : (c : AppendOnlyLogCursor) → IsTracking identity size c → is_rotated c seen ≡ false
    unfolding is_rotated changed same_identity
    not_rotated c t = rw (t.known) (ground (arith, t.within))

    restarted : (time : ℕ) (c : AppendOnlyLogCursor) → (after_rotation time c).offset ≤ size
    unfolding after_rotation
    restarted time c = omega arith

    unrotated : (c : AppendOnlyLogCursor) → is_rotated c seen ≡ false → c.offset ≤ size
    unfolding is_rotated
    unrotated c e = ground arith

    inner-Moves :
        (f : LogFile) (time : ℕ) (c : AppendOnlyLogCursor)
        → IsReadable identity size f
        → IsTracking identity size c
        → Moves identity size c.offset (poll_inner lines trim f time c).cursor
    unfolding poll_inner on_metadata
    inner-Moves f time c i t =
        rw (i.stat, not_rotated c t)
          (drain-Moves f time false (record c { identity = some identity }) i
            (record { known = refl; within = t.within }))

    -- Whatever the cursor saw before, a poll of the file makes it track the file.
    inner-IsTracking :
        (f : LogFile) (time : ℕ) (c : AppendOnlyLogCursor)
        → IsReadable identity size f
        → IsTracking identity size (poll_inner lines trim f time c).cursor
    unfolding poll_inner on_metadata
    inner-IsTracking f time c i = elim (Bool-cases (is_rotated c seen)) [
      | inl e ↦
          rw (i.stat, e)
            ((drain-Moves f time true (record (after_rotation time c) { identity = some identity })
              i (record { known = refl; within = restarted time c })).0)
      | inr e ↦
          rw (i.stat, e)
            ((drain-Moves f time false (record c { identity = some identity }) i
              (record { known = refl; within = unrotated c e })).0)
    ]

    tracked-catches_up :
        (ps : List (LogFile × String × ℕ)) (c : AppendOnlyLogCursor)
        → All (λ p. IsReadable identity size p.0) ps
        → IsTracking identity size c
        → size - c.offset ≤ length ps
        → IsTracking identity size (poll_all lines trim ps c)
          × ((poll_all lines trim ps c).offset ≡ size)
    unfolding poll
    tracked-catches_up [] c h t k = (t, omega (arith, t.within))
    tracked-catches_up ((f, target, time) ∷ ps) c h t k =
        let moved = inner-Moves f time c h.0 t in
        tracked-catches_up ps _ h.1 moved.0 (omega (arith, moved.1))

    caught_up-continuous :
        (f : LogFile) (target : String) (time : ℕ) (c : AppendOnlyLogCursor)
        → IsReadable identity size f
        → IsTracking identity size c
        → c.offset ≡ size
        → log_source_status_has_continuity (poll lines trim f target time c).1.source_status ≡ true
    unfolding poll poll_inner on_metadata drain snapshot_of status log_source_status_has_continuity
    caught_up-continuous f target time c i t e =
        rw (i.stat, not_rotated c t, ge→ltb c.offset size (omega (arith, e))) refl

-- Polls that find one readable file of a size below 2^64, each read giving at least a byte where one
-- is left, catch up with it from any state of the cursor, be it one of another file: after more polls
-- than the file has bytes, the cursor stands at the end of the file, and the next poll of the file
-- reports continuity.
pub polls-catch_up :
    (lines : List ℕ → List String) (trim : String → String) (identity : FileIdentity) (size : ℕ)
    (ps : List (LogFile × String × ℕ)) (c : AppendOnlyLogCursor) (f : LogFile) (target : String)
    (time : ℕ)
    → size < u64_modulus
    → All (λ p. IsReadable identity size p.0) ps
    → IsReadable identity size f
    → size < length ps
    → ((poll_all lines trim ps c).offset ≡ size)
      × (log_source_status_has_continuity
            (poll lines trim f target time (poll_all lines trim ps c)).1.source_status
          ≡ true)
unfolding poll
polls-catch_up lines trim identity size [] c f target time small h i k = absurd (omega arith)
polls-catch_up lines trim identity size ((g, who, when) ∷ ps) c f target time small h i k =
    let c1 = (poll_inner lines trim g when c).cursor in
    let first = inner-IsTracking lines trim identity size small g when c h.0 in
    let rest = tracked-catches_up lines trim identity size small ps c1 h.1 first (omega arith) in
    (
      rest.1,
      caught_up-continuous lines trim identity size small f target time (poll_all lines trim ps c1)
          i rest.0 rest.1,
    )
