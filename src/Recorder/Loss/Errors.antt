-- ===== src/Recorder/Loss/Errors.antt =====
-- When a freeze fails for a sample that cannot be written: samples_within_freeze_budget of
-- crates/adc-core/src/recorder/loss.rs.
use mathlib.Core.List.{reverse, reverse-cons, reverse-append, reverse-reverse}
use agent_debug_compass.Prelude.{
  ℕ, ◌≤◌, ◌<◌, ◌≡◌, ◌↔◌, inl, inr, refl, subst, sym, ap, ◌∙◌, true, List, [], ◌∷◌, ◌++◌,
  append_assoc, append-nil, arith, u64_max, All, All-append,
}
use agent_debug_compass.Error.{AdcError, AdcResult, ok, err, AdcResult-cases, is_ok}
use agent_debug_compass.Recorder.Model.{RecorderSample, RecorderBudget}
use agent_debug_compass.Recorder.Loss.{select_newest, freeze_bytes, samples_within_freeze_budget}
use agent_debug_compass.Recorder.Loss.Selection.{total_bytes, Round-cases}

module _ (line_len : RecorderSample → AdcResult ℕ) where
  abbrev pub Writable : RecorderSample → Type 0
  Writable x = is_ok (line_len x) ≡ true

  -- The newest sample that cannot be written, with that error, and all newer ones fit the byte budget.
  pub record Fails (max_bytes : ℕ) (samples : List RecorderSample) (e : AdcError) : Type 0 where
    pub older : List RecorderSample
    pub failing : RecorderSample
    pub newer : List RecorderSample
    pub split : samples ≡ older ++ failing ∷ newer
    pub error : line_len failing ≡ err e
    pub writable : All Writable newer
    pub fits : total_bytes line_len newer ≤ max_bytes

  reverse-split :
      (x : RecorderSample) (xs ys : List RecorderSample)
      → reverse (x ∷ xs) ++ ys ≡ reverse xs ++ x ∷ ys
  reverse-split x xs ys =
      ap (λ v. v ++ ys) (reverse-cons x xs) ∙ append_assoc (reverse xs) (x ∷ []) ys

  reverse-Writable : (xs : List RecorderSample) → All Writable xs → All Writable (reverse xs)
  reverse-Writable [] h = tt
  reverse-Writable (x ∷ xs) h =
      subst (All Writable) (sym (reverse-cons x xs))
        (All-append Writable (reverse xs) (x ∷ []) (reverse-Writable xs h.1) (h.0, tt))

  total_bytes-append_le :
      (xs ys : List RecorderSample) → total_bytes line_len ys ≤ total_bytes line_len (xs ++ ys)
  total_bytes-append_le [] ys = omega arith
  total_bytes-append_le (x ∷ xs) ys = omega (arith, total_bytes-append_le xs ys)

  select_newest-Fails :
      (max_bytes : ℕ) (xs selected : List RecorderSample) (total : ℕ) (e : AdcError)
      → max_bytes < u64_max
      → total ≡ total_bytes line_len selected
      → total ≤ max_bytes
      → All Writable selected
      → select_newest line_len max_bytes xs selected total ≡ err e
      → Fails max_bytes (reverse xs ++ selected) e
  unfolding select_newest
  select_newest-Fails max_bytes [] selected total e m t f w h = absurd (ground arith)
  select_newest-Fails max_bytes (x ∷ xs) selected total e m t f w h =
      elim (AdcResult-cases (line_len x)) [
        | inl (n, l) ↦
            elim (Round-cases line_len max_bytes n x xs selected (err e) total m t f l h) [
              | inl (same, big) ↦ absurd (ground arith)
              | inr (more, fits) ↦
                  subst (λ v. Fails max_bytes v e) (sym (reverse-split x xs selected))
                    (select_newest-Fails max_bytes xs (x ∷ selected)
                      (total_bytes line_len (x ∷ selected)) e m refl fits (rw l refl, w) more)
            ]
        | inr (failure, l) ↦ record {
          older = reverse xs;
          failing = x;
          newer = selected;
          split = reverse-split x xs selected;
          error = ground arith;
          writable = w;
          fits = omega arith;
        }
      ]

  select_newest-fails :
      (max_bytes : ℕ) (xs rest selected : List RecorderSample) (x : RecorderSample) (total : ℕ)
      (e : AdcError)
      → max_bytes < u64_max
      → total ≡ total_bytes line_len selected
      → All Writable xs
      → total_bytes line_len (reverse xs ++ selected) ≤ max_bytes
      → line_len x ≡ err e
      → select_newest line_len max_bytes (xs ++ x ∷ rest) selected total ≡ err e
  unfolding select_newest
  select_newest-fails max_bytes [] rest selected x total e m t w f l = ground arith
  select_newest-fails max_bytes (y ∷ ys) rest selected x total e m t w f l =
      let room = subst (λ v. total_bytes line_len v ≤ max_bytes) (reverse-split y ys selected) f in
      let enough = total_bytes-append_le (reverse ys) (y ∷ selected) in
      elim (AdcResult-cases (line_len y)) [
        | inl (n, k) ↦
            elim (Round-cases line_len max_bytes n y (ys ++ x ∷ rest) selected _ total m t
              (omega (arith, t, room, enough)) k refl) [
                | inl (same, big) ↦ absurd (omega (arith, big, room, enough))
                | inr (more, fits) ↦
                    sym more
                    ∙ select_newest-fails max_bytes ys rest (y ∷ selected) x
                        (total_bytes line_len (y ∷ selected)) e m refl w.1 room l
              ]
        | inr (failure, k) ↦ absurd (ground arith)
      ]

  then-fails :
      (r : AdcResult (List RecorderSample)) (samples : List RecorderSample)
      (budget : RecorderBudget) (e : AdcError)
      → r ≡ select_newest line_len (freeze_bytes budget) (reverse samples) [] 0
      → (samples_within_freeze_budget line_len samples budget ≡ err e) ↔ (r ≡ err e)
  unfolding samples_within_freeze_budget
  then-fails (ok xs) samples budget e h = ground arith
  then-fails (err x) samples budget e h = ground arith

  -- With a byte budget below 2^64 - 1, the selection of a freeze fails with an error exactly when the
  -- newest sample that cannot be written fails with that error and all the samples newer than it fit
  -- the budget; where they do not fit, it is not looked at and the freeze does not fail.
  pub samples_within_freeze_budget-Fails_iff :
      (samples : List RecorderSample) (budget : RecorderBudget) (e : AdcError)
      → freeze_bytes budget < u64_max
      → (samples_within_freeze_budget line_len samples budget ≡ err e)
        ↔ Fails (freeze_bytes budget) samples e
  samples_within_freeze_budget-Fails_iff samples budget e m =
      let max_bytes = freeze_bytes budget in
      let whole = then-fails _ samples budget e refl in
      (
        λ h.
            subst (λ v. Fails max_bytes v e) (append-nil _ ∙ reverse-reverse samples)
              (select_newest-Fails max_bytes (reverse samples) [] 0 e m refl (omega arith) tt
                (whole.0 h)),
        λ h. whole.1 (
            ap (λ v. select_newest line_len max_bytes (reverse v) [] 0) h.split
            ∙ ap (λ v. select_newest line_len max_bytes v [] 0)
                (reverse-append h.older (h.failing ∷ h.newer)
                  ∙ reverse-split h.failing h.newer (reverse h.older))
            ∙ select_newest-fails max_bytes (reverse h.newer) (reverse h.older) [] h.failing 0 e m
                refl (reverse-Writable h.newer h.writable)
                (subst (λ v. total_bytes line_len v ≤ max_bytes)
                  (sym (append-nil _ ∙ reverse-reverse h.newer)) h.fits)
                h.error),
      )
