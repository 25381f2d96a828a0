-- ===== src/Recorder/Loss/Selection.antt =====
-- Which samples a freeze exports: crates/adc-core/src/recorder/loss.rs.
use mathlib.Core.List.{reverse, reverse-cons, reverse-reverse}
use agent_debug_compass.Prelude.{
  ℕ, suc, ◌+◌, ◌≤◌, ◌<◌, ◌≡◌, ◌⊎◌, inl, inr, refl, subst, sym, ap, ◌∙◌, Bool, not, List, [], ◌∷◌,
  ◌++◌, append_assoc, append-nil, length, length-append, is_empty, ltb, arith, sat_add, u64_max,
  Bool-cases,
}
use mathlib.Core.Path.{subst₂}
use agent_debug_compass.Error.{AdcResult, ok, err, AdcResult-cases}
use agent_debug_compass.Quality.{DataQuality}
use agent_debug_compass.Recorder.Model.{RecorderSample, RecorderBudget}
use agent_debug_compass.Recorder.Loss.{
  selection_quality, select_newest, freeze_bytes, samples_within_freeze_budget,
}

length-reverse-cons :
    (x : RecorderSample) (xs : List RecorderSample)
    → length (reverse (x ∷ xs)) ≡ suc (length (reverse xs))
length-reverse-cons x xs =
    omega (arith, ap length (reverse-cons x xs), length-append (reverse xs) (x ∷ []))

length-split :
    (xs out left : List RecorderSample)
    → xs ≡ reverse left ++ out
    → ltb (length out) (length xs) ≡ not (is_empty left)
length-split xs out [] e = ground (arith, ap length e)
length-split xs out (x ∷ left) e =
    ground (arith, ap length e, length-append (reverse (x ∷ left)) out, length-reverse-cons x left)

truncated-selection :
    (samples selected : List RecorderSample) (budget : RecorderBudget)
    → (selection_quality samples selected budget).truncated ≡ ltb (length selected) (length samples)
unfolding selection_quality
truncated-selection samples selected budget = ground arith

ok-eq : (xs ys : List RecorderSample) → ok xs ≡ ok ys → xs ≡ ys
ok-eq xs ys h = ground arith

module _ (line_len : RecorderSample → AdcResult ℕ) where
  -- The bytes of a sample's line with its newline.
  abbrev pub line_bytes : RecorderSample → ℕ
  line_bytes x = elim (line_len x) [ ok n ↦ n + 1 | err e ↦ 0 ]

  abbrev pub total_bytes : List RecorderSample → ℕ
  total_bytes [] = 0
  total_bytes (x ∷ xs) = line_bytes x + total_bytes xs

  -- Nothing was left out, or the newest sample left out does not fit.
  abbrev pub Full : ℕ → List RecorderSample → List RecorderSample → Type 0
  Full max_bytes [] selected = Unit {0}
  Full max_bytes (x ∷ older) selected = max_bytes < line_bytes x + total_bytes selected

  -- The result of the loop, newest left-out sample first.
  pub record Selected (max_bytes : ℕ) (newest_first start result : List RecorderSample)
      : Type 0 where
    pub left_out : List RecorderSample
    pub split : reverse newest_first ++ start ≡ reverse left_out ++ result
    pub fits : total_bytes result ≤ max_bytes
    pub full : Full max_bytes left_out result

  -- A round ends the loop with what is selected, because the line does not fit, or selects the
  -- sample and goes on with the exact sum.
  abbrev pub Round :
      ℕ
      → RecorderSample
      → List RecorderSample
      → List RecorderSample
      → AdcResult (List RecorderSample)
      → Type 0
  Round max_bytes x older selected result =
      ((result ≡ ok selected) × (max_bytes < line_bytes x + total_bytes selected))
      ⊎ ((select_newest line_len max_bytes older (x ∷ selected) (total_bytes (x ∷ selected))
            ≡ result)
          × (total_bytes (x ∷ selected) ≤ max_bytes))

  pub Round-cases :
      (max_bytes n : ℕ) (x : RecorderSample) (older selected : List RecorderSample)
      (result : AdcResult (List RecorderSample)) (total : ℕ)
      → max_bytes < u64_max
      → total ≡ total_bytes selected
      → total ≤ max_bytes
      → line_len x ≡ ok n
      → select_newest line_len max_bytes (x ∷ older) selected total ≡ result
      → Round max_bytes x older selected result
  unfolding select_newest
  Round-cases max_bytes n x older [] result total m t f l e =
      elim (Bool-cases (ltb max_bytes (n + 1))) [
        | inl big ↦ inl (ground arith, ground arith)
        | inr small ↦ inr (
          (let exact : sat_add total (n + 1) ≡ total_bytes (x ∷ []) = ground arith in
              subst (λ k. select_newest line_len max_bytes older (x ∷ []) k ≡ result) exact
                (ground arith)),
          ground arith,
        )
      ]
  Round-cases max_bytes n x older (y ∷ ys) result total m t f l e =
      elim (Bool-cases (ltb max_bytes (sat_add total (n + 1)))) [
        | inl big ↦ inl (ground arith, ground arith)
        | inr small ↦ inr (
          (let exact : sat_add total (n + 1) ≡ total_bytes (x ∷ y ∷ ys) = ground arith in
              subst (λ k. select_newest line_len max_bytes older (x ∷ y ∷ ys) k ≡ result) exact
                (ground arith)),
          ground arith,
        )
      ]

  select_newest-Selected :
      (max_bytes : ℕ) (xs selected result : List RecorderSample) (total : ℕ)
      → max_bytes < u64_max
      → total ≡ total_bytes selected
      → total ≤ max_bytes
      → select_newest line_len max_bytes xs selected total ≡ ok result
      → Selected max_bytes xs selected result
  unfolding select_newest
  select_newest-Selected max_bytes [] selected result total m t f e = record {
    left_out = [];
    split = ground arith;
    fits = ground arith;
    full = tt;
  }
  select_newest-Selected max_bytes (x ∷ older) selected result total m t f e =
      elim (AdcResult-cases (line_len x)) [
        | inl (n, l) ↦ elim (Round-cases max_bytes n x older selected (ok result) total m t f l e) [
          | inl (same, big) ↦ record {
            left_out = x ∷ older;
            split = ap (λ v. reverse (x ∷ older) ++ v) (sym (ok-eq result selected same));
            fits = ground (arith, ok-eq result selected same);
            full = rw (ok-eq result selected same) big;
          }
          | inr (more, fits) ↦
              let r =
                select_newest-Selected max_bytes older (x ∷ selected) result
                  (total_bytes (x ∷ selected)) m refl fits more in
              record {
                left_out = r.left_out;
                split =
                    ap (λ v. v ++ selected) (reverse-cons x older)
                    ∙ append_assoc (reverse older) (x ∷ []) selected
                    ∙ r.split;
                fits = r.fits;
                full = r.full;
              }
        ]
        | inr (failure, l) ↦ absurd (ground arith)
      ]

  -- What a freeze exports of the samples of a ring.
  pub record Exported (max_bytes : ℕ) (samples exported : List RecorderSample) (truncated : Bool)
      : Type 0 where
    pub left_out : List RecorderSample
    pub split : samples ≡ reverse left_out ++ exported
    pub fits : total_bytes exported ≤ max_bytes
    pub full : Full max_bytes left_out exported
    pub told : truncated ≡ not (is_empty left_out)

  Exported-selection :
      (samples selected : List RecorderSample) (budget : RecorderBudget)
      → Selected (freeze_bytes budget) (reverse samples) [] selected
      → Exported
          (freeze_bytes budget)
          samples
          selected
          (selection_quality samples selected budget).truncated
  Exported-selection samples selected budget r =
      let split : samples ≡ reverse r.left_out ++ selected =
        sym (reverse-reverse samples) ∙ sym (append-nil (reverse (reverse samples))) ∙ r.split in
      record {
        left_out = r.left_out;
        split = split;
        fits = r.fits;
        full = r.full;
        told =
            truncated-selection samples selected budget
            ∙ length-split samples selected r.left_out split;
      }

  -- When the selection succeeds, with a byte budget below 2^64 - 1, the exported samples are the
  -- newest ones: their lines fit the byte budget of the freeze, the next older sample, if there is
  -- one, would not fit, and the quality says truncated exactly when a sample was left out.
  pub samples_within_freeze_budget-Exported :
      (samples exported : List RecorderSample) (quality : DataQuality) (budget : RecorderBudget)
      → freeze_bytes budget < u64_max
      → samples_within_freeze_budget line_len samples budget ≡ ok (exported, quality)
      → Exported (freeze_bytes budget) samples exported quality.truncated
  unfolding samples_within_freeze_budget
  samples_within_freeze_budget-Exported samples exported quality budget m e =
      elim (AdcResult-cases (select_newest line_len (freeze_bytes budget) (reverse samples) [] 0)) [
        | inl (selected, l) ↦
            let exported_eq : selected ≡ exported = ground arith in
            let quality_eq : selection_quality samples selected budget ≡ quality = ground arith in
            subst₂ (λ out (q : DataQuality). Exported (freeze_bytes budget) samples out q.truncated)
              exported_eq quality_eq
              (Exported-selection samples selected budget (
                select_newest-Selected (freeze_bytes budget) (reverse samples) [] selected 0 m refl
                  (omega arith) l))
        | inr (failure, l) ↦ absurd (ground arith)
      ]
