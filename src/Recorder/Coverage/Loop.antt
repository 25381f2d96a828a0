-- ===== src/Recorder/Coverage/Loop.antt =====
-- The loop of observation_coverage_for_freeze in crates/adc-core/src/recorder/coverage.rs.
use agent_debug_compass.Prelude.{
  ◌≡◌, refl, sym, ap, ◌∙◌, String, true, some, List, [], ◌∷◌, ◌++◌, map, append_assoc, append-nil,
  All, arith, eq_iff,
}
use agent_debug_compass.Prelude.Text.{contains}
use agent_debug_compass.Prelude.Maps.{BTreeMap, get}
use agent_debug_compass.Recorder.Model.{
  RecorderSignalStatus, RecorderExpectedSignal, RecorderBudget, CollectorLoss, TimeRange,
  RecorderSignalCoverage,
}
use agent_debug_compass.Recorder.Coverage.{CoverageLoop, coverage_row, coverage_step, coverage_loop}
use agent_debug_compass.Recorder.Coverage.Expected.{expected_signal_for_status}

pub All-of_contains {κ} :
    (P : String → Type κ) (ids : List String)
    → ((k : String) → contains ids k ≡ true → P k)
    → All P ids
All-of_contains P [] h = tt
All-of_contains P (x ∷ xs) h =
    (h x (ground (arith, eq_iff x x)), All-of_contains P xs (λ k c. h k (ground arith)))

pub map-map {ℓ κ ι} :
    {A : Type ℓ} {B : Type κ} {C : Type ι} (g : B → C) (f : A → B) (xs : List A)
    → map g (map f xs) ≡ map (λ a. g (f a)) xs
map-map g f [] = refl
map-map g f (x ∷ xs) = ap (λ l. g (f x) ∷ l) (map-map g f xs)

-- The row that the loop pushes for a status with its loss entry.
abbrev pub row_with :
    TimeRange
    → String
    → RecorderBudget
    → BTreeMap RecorderExpectedSignal
    → RecorderSignalStatus
    → CollectorLoss
    → RecorderSignalCoverage
row_with range ref budget expected_by s loss =
    coverage_row range ref s loss
      (expected_signal_for_status s range budget (get s.signal_id expected_by))

module _ (range : TimeRange) (ref : String) (budget : RecorderBudget)
    (expected_by : BTreeMap RecorderExpectedSignal) (loss_by : BTreeMap CollectorLoss)
    (f : String → RecorderSignalStatus) (g : String → CollectorLoss) where
  pub coverage_loop-signals :
      (ids : List String) (l : CoverageLoop)
      → All (λ id. get (f id).signal_id loss_by ≡ some (g id)) ids
      → (coverage_loop range ref budget expected_by loss_by (map f ids) l).signals
        ≡ l.signals ++ map (λ id. row_with range ref budget expected_by (f id) (g id)) ids
  unfolding coverage_loop coverage_step
  coverage_loop-signals [] l h = sym (append-nil l.signals)
  coverage_loop-signals (id ∷ ids) l h =
      rw (coverage_loop, h.0)
        (coverage_loop-signals ids _ h.1
          ∙ append_assoc l.signals (row_with range ref budget expected_by (f id) (g id) ∷ [])
              (map (λ id. row_with range ref budget expected_by (f id) (g id)) ids))
