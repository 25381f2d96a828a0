-- ===== src/Recorder/Loss/Report.antt =====
-- The loss report of crates/adc-core/src/recorder/loss.rs against the ring that was frozen.
use mathlib.Core.List.{reverse}
use agent_debug_compass.Prelude.{
  ℕ, ◌+◌, ◌<◌, ◌≡◌, sym, ap, ◌∙◌, String, List, [], ◌∷◌, ◌++◌, map, append_assoc, append-nil, All,
  arith, u64_max, u64_modulus,
}
use agent_debug_compass.Prelude.Maps.{BTreeMap}
use agent_debug_compass.Error.{AdcResult, ok}
use agent_debug_compass.Quality.{DataQuality}
use agent_debug_compass.Recorder.Model.{
  RecorderSample, RecorderSignalStatus, RecorderBufferStatus, RecorderBudget, CollectorLoss,
}
use agent_debug_compass.Recorder.Counts.{
  count_of, recorded_counts_by_signal, count_of-recorded, occurrences, occurrences-le, signal_count,
}
use agent_debug_compass.Recorder.Ring.{RecorderRing}
use agent_debug_compass.Recorder.Ring.Accounting.{occurrences-append}
use agent_debug_compass.Recorder.Ring.Status.{status}
use agent_debug_compass.Recorder.Ring.Status.Rows.{IsTrue, status-IsTrue}
use agent_debug_compass.Recorder.Loss.{
  collector_loss_for, LossLoop, loss_step, loss_loop, loss_report_for_buffer_with_quality,
  freeze_bytes, samples_within_freeze_budget,
}
use agent_debug_compass.Recorder.Loss.Selection.{samples_within_freeze_budget-Exported}

loss_loop-losses :
    (m : BTreeMap ℕ) (signals : List RecorderSignalStatus) (s : LossLoop)
    → (loss_loop m signals s).collector_loss
      ≡ s.collector_loss ++ map (collector_loss_for m) signals
unfolding loss_loop
loss_loop-losses m [] s = sym (append-nil s.collector_loss)
loss_loop-losses m (x ∷ xs) s =
    loss_loop-losses m xs (loss_step m x s)
    ∙ append_assoc s.collector_loss (collector_loss_for m x ∷ []) (map (collector_loss_for m) xs)

pub losses-report :
    (window : String) (b : RecorderBufferStatus) (exported : List RecorderSample) (q : DataQuality)
    → (loss_report_for_buffer_with_quality window b exported q).collector_loss
      ≡ map (collector_loss_for (recorded_counts_by_signal exported)) b.signals
unfolding loss_report_for_buffer_with_quality
losses-report window b exported q = loss_loop-losses _ b.signals _

-- A loss entry is exact for a ring and the samples exported from it: of the retained samples of its
-- signal, those not exported are the truncated ones.
pub record IsExact (r : RecorderRing) (exported : List RecorderSample) (l : CollectorLoss)
    : Type 0 where
  pub exports : l.exported_samples ≡ occurrences l.collector_id exported
  pub retained : l.retained_samples_before_freeze ≡ occurrences l.collector_id r.samples
  pub truncated :
      l.exported_samples + l.truncated_samples_due_to_freeze_budget
      ≡ l.retained_samples_before_freeze
  pub dropped : l.dropped_samples ≡ count_of l.collector_id r.dropped_by_signal

pub All-map_of {ℓ κ ι υ} :
    {A : Type ℓ} {B : Type κ} (P : B → Type ι) (Q : A → Type υ) (f : A → B) (xs : List A)
    → ((a : A) → Q a → P (f a))
    → All Q xs
    → All P (map f xs)
All-map_of P Q f [] h q = tt
All-map_of P Q f (x ∷ xs) h q = (h x q.0, All-map_of P Q f xs h q.1)

module _ (r : RecorderRing) (older exported : List RecorderSample)
    (split : r.samples ≡ older ++ exported) (few : signal_count r.samples < u64_modulus) where
  fewer : (k : String) → occurrences k r.samples ≡ occurrences k older + occurrences k exported
  fewer k = ap (occurrences k) split ∙ occurrences-append k older exported

  pub loss-IsExact :
      (s : RecorderSignalStatus)
      → IsTrue r s
      → IsExact r exported (collector_loss_for (recorded_counts_by_signal exported) s)
  loss-IsExact s t =
      let counted =
        count_of-recorded s.signal_id exported
          (omega (arith, fewer s.signal_id, occurrences-le s.signal_id r.samples)) in
      record {
        exports = counted;
        retained = t.recorded;
        truncated = omega (arith, fewer s.signal_id, t.recorded);
        dropped = t.dropped;
      }

-- When the selection succeeds, with a byte budget below 2^64 - 1 and fewer than 2^64 signal
-- samples retained, the loss report of a freeze is exact for every signal of the ring: exported
-- and truncated samples add up to the retained ones, and the dropped count is the ring's.
pub freeze_losses-IsExact :
    (line_len : RecorderSample → AdcResult ℕ) (r : RecorderRing) (budget : RecorderBudget)
    (window : String) (exported : List RecorderSample) (q : DataQuality)
    → signal_count r.samples < u64_modulus
    → freeze_bytes budget < u64_max
    → samples_within_freeze_budget line_len r.samples budget ≡ ok (exported, q)
    → All
        (IsExact r exported)
        (loss_report_for_buffer_with_quality window (status r) exported q).collector_loss
freeze_losses-IsExact line_len r budget window exported q few m e =
    let x = samples_within_freeze_budget-Exported line_len r.samples exported q budget m e in
    rw (losses-report window (status r) exported q) (
      All-map_of (IsExact r exported) (IsTrue r)
        (collector_loss_for (recorded_counts_by_signal exported)) (status r).signals
        (loss-IsExact r (reverse x.left_out) exported x.split few) (status-IsTrue r few))
