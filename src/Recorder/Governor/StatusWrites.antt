-- ===== src/Recorder/Governor/StatusWrites.antt =====
-- How often the status write governor of crates/adc-core/src/recorder/ring.rs lets a write through.
use agent_debug_compass.Prelude.{
  ℕ, ◌≤◌, ◌≡◌, refl, Bool, true, false, Option, none, some, List, [], ◌∷◌, arith, if◌then◌else◌,
}
use agent_debug_compass.Recorder.Governor.{RecorderStatusWriteGovernor, writes, new_status_governor}
use agent_debug_compass.Recorder.Governor.Spacing.{After}

-- An unforced write comes at least the interval after the write before it.
abbrev pub WritesSpacedFrom : ℕ → Option ℕ → List (ℕ × Bool) → Type 0
WritesSpacedFrom d last [] = Unit {0}
WritesSpacedFrom d last ((t, force) ∷ ts) =
    (force ≡ false → After d last t) × WritesSpacedFrom d (some t) ts

abbrev pub forced : List (ℕ × Bool) → List (ℕ × Bool)
forced [] = []
forced ((t, force) ∷ ts) = let rest = forced ts in if force then (t, force) ∷ rest else rest

writes-SpacedFrom :
    (d : ℕ) (last : Option ℕ) (g : RecorderStatusWriteGovernor) (calls : List (ℕ × Bool))
    → 1 ≤ d
    → g.interval_ns ≡ d
    → g.last_write_mono_ns ≡ last
    → WritesSpacedFrom d last (writes g calls)
unfolding writes
writes-SpacedFrom d last g [] h e l = tt
writes-SpacedFrom d none g ((now, force) ∷ later) h e l = ground (
  arith,
  writes-SpacedFrom d (some now) (record g { last_write_mono_ns = some now }) later h e refl,
)
writes-SpacedFrom d (some last) g ((now, force) ∷ later) h e l = ground (
  arith,
  writes-SpacedFrom d (some now) (record g { last_write_mono_ns = some now }) later h e refl,
  writes-SpacedFrom d (some last) g later h e l,
)

forced-writes :
    (g : RecorderStatusWriteGovernor) (calls : List (ℕ × Bool))
    → forced (writes g calls) ≡ forced calls
unfolding writes
forced-writes g [] = refl
forced-writes g ((now, true) ∷ later) =
    ground (arith, forced-writes (record g { last_write_mono_ns = some now }) later)
forced-writes g ((now, false) ∷ later) =
    ground (
      arith,
      forced-writes (record g { last_write_mono_ns = some now }) later,
      forced-writes g later,
    )

-- A new status governor lets every forced write through, and an unforced one only its interval, of
-- at least a millisecond, after the last write.
pub writes_throttled :
    (interval_ms : ℕ) (calls : List (ℕ × Bool))
    → let g = new_status_governor interval_ms in
      (forced (writes g calls) ≡ forced calls)
      × WritesSpacedFrom g.interval_ns none (writes g calls)
      × (1000000 ≤ g.interval_ns)
unfolding new_status_governor
writes_throttled interval_ms calls =
    let g = new_status_governor interval_ms in
    (
      forced-writes g calls,
      writes-SpacedFrom g.interval_ns none g calls (omega arith) refl refl,
      omega arith,
    )
