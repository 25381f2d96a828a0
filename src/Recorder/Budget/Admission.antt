-- ===== src/Recorder/Budget/Admission.antt =====
-- When crates/adc-core/src/recorder/budget.rs admits a freeze.
use agent_debug_compass.Prelude.{
  ℕ, suc, ◌+◌, ◌≤◌, ◌<◌, ◌≡◌, ◌↔◌, refl, ap, String, true, false, some, List, [], ◌∷◌, length, All,
  arith, sat_add, u64_max, u64_modulus, Bool-cases, inl, inr,
}
use agent_debug_compass.Recorder.Model.{RecorderBudget}
use agent_debug_compass.Recorder.Budget.{accept, recorder_budget_status_from_counts}
use agent_debug_compass.Recorder.Budget.Inventory.{
  FileSystem, Metadata, found, DirEntry, Checked, valid, invalid, malformed, unreadable,
  check_entries, InventoryCounts, no_counts, count_valid, scan_entries, summary_of,
  incidents_dir_of, recorder_incident_budget_status,
}

abbrev pub IsValid : Checked ℕ → Type 0
IsValid (valid _) = Unit {0}
IsValid (invalid _) = ⊥

module _ (limit : ℕ) where
  scan-malformed_pos :
      (es : List (Checked ℕ)) (c : InventoryCounts)
      → 0 < c.malformed_count
      → 0 < (scan_entries limit es c).malformed_count
  unfolding scan_entries
  scan-malformed_pos [] c h = h
  scan-malformed_pos (valid b ∷ es) c h = ground (arith, scan-malformed_pos es (count_valid b c))
  scan-malformed_pos (invalid malformed ∷ es) c h = scan-malformed_pos es _ (omega arith)
  scan-malformed_pos (invalid unreadable ∷ es) c h = scan-malformed_pos es _ h

  scan-unreadable_pos :
      (es : List (Checked ℕ)) (c : InventoryCounts)
      → 0 < c.unreadable_count
      → 0 < (scan_entries limit es c).unreadable_count
  unfolding scan_entries
  scan-unreadable_pos [] c h = h
  scan-unreadable_pos (valid b ∷ es) c h = ground (arith, scan-unreadable_pos es (count_valid b c))
  scan-unreadable_pos (invalid malformed ∷ es) c h = scan-unreadable_pos es _ h
  scan-unreadable_pos (invalid unreadable ∷ es) c h = scan-unreadable_pos es _ (omega arith)

  -- The loop breaks only at the limit.
  scan-truncated :
      (es : List (Checked ℕ)) (c : InventoryCounts)
      → c.inventory_truncated ≡ false
      → (scan_entries limit es c).inventory_truncated ≡ true
      → limit ≤ (scan_entries limit es c).valid_count
  unfolding scan_entries
  scan-truncated [] c t h = cc
  scan-truncated (valid b ∷ es) c t h = ground (arith, scan-truncated es (count_valid b c) t)
  scan-truncated (invalid malformed ∷ es) c t h = scan-truncated es _ t h
  scan-truncated (invalid unreadable ∷ es) c t h = scan-truncated es _ t h

  -- A scan that met no invalid entry and did not break has seen every entry, all of them valid.
  scan-clean :
      (es : List (Checked ℕ)) (c : InventoryCounts)
      → c.valid_count + length es < u64_modulus
      → (scan_entries limit es c).malformed_count ≡ 0
      → (scan_entries limit es c).unreadable_count ≡ 0
      → (scan_entries limit es c).inventory_truncated ≡ false
      → All IsValid es × ((scan_entries limit es c).valid_count ≡ c.valid_count + length es)
  unfolding scan_entries
  scan-clean [] c n m u t = omega arith
  scan-clean (valid b ∷ es) c n m u t = ground (arith, scan-clean es (count_valid b c))
  scan-clean (invalid malformed ∷ es) c n m u t = absurd (
      omega (
        arith,
        scan-malformed_pos es (record c { malformed_count = sat_add c.malformed_count 1 })
            (omega arith),
      ))
  scan-clean (invalid unreadable ∷ es) c n m u t = absurd (
      omega (
        arith,
        scan-unreadable_pos es (record c { unreadable_count = sat_add c.unreadable_count 1 })
            (omega arith),
      ))

  -- Fewer valid entries than the limit are all counted.
  scan-valid :
      (es : List (Checked ℕ)) (c : InventoryCounts)
      → All IsValid es
      → limit ≤ u64_max
      → c.valid_count + length es < limit
      → ((scan_entries limit es c).valid_count ≡ c.valid_count + length es)
        × ((scan_entries limit es c).malformed_count ≡ c.malformed_count)
        × ((scan_entries limit es c).unreadable_count ≡ c.unreadable_count)
        × ((scan_entries limit es c).inventory_truncated ≡ c.inventory_truncated)
  unfolding scan_entries
  scan-valid [] c v l n = (omega arith, refl, refl, refl)
  scan-valid (valid b ∷ es) c v l n = ground (arith, scan-valid es (count_valid b c) v.1 l)
  scan-valid (invalid e ∷ es) c v l n = absurd v.0

length-check_entries :
    (fs : FileSystem) (dir : String) (es : List DirEntry)
    → length (check_entries fs dir es) ≡ length es
length-check_entries fs dir [] = refl
length-check_entries fs dir (e ∷ es) = ap suc (length-check_entries fs dir es)

accept_summary :
    (budget : RecorderBudget) (this_run : ℕ) (c : InventoryCounts)
    → ((recorder_budget_status_from_counts budget this_run (summary_of c)).admission_decision
        ≡ accept)
      ↔ ((c.malformed_count ≡ 0)
          × (c.unreadable_count ≡ 0)
          × (c.valid_count < budget.max_frozen_incidents))
unfolding recorder_budget_status_from_counts
accept_summary budget this_run c = (λ h. ground arith, λ h. ground arith)

-- Every entry of the incident directory is a well-formed incident.
abbrev pub AllValid : FileSystem → String → List DirEntry → Type 0
AllValid fs artifact_root entries =
    All IsValid (check_entries fs (incidents_dir_of artifact_root) entries)

module _ (fs : FileSystem) (artifact_root : String) (budget : RecorderBudget) (this_run : ℕ)
    (m : Metadata) (entries : List DirEntry)
    (stat : fs.symlink_metadata (incidents_dir_of artifact_root) ≡ found m)
    (directory : m.is_dir ≡ true) (no_symlink : m.is_symlink ≡ false)
    (listing : fs.read_dir (incidents_dir_of artifact_root) ≡ some entries) where
  abbrev counts : InventoryCounts
  counts =
      scan_entries (sat_add budget.max_frozen_incidents 1)
        (check_entries fs (incidents_dir_of artifact_root) entries) no_counts

  status-eq :
      recorder_incident_budget_status fs artifact_root budget this_run
      ≡ recorder_budget_status_from_counts budget this_run (summary_of counts)
  unfolding recorder_incident_budget_status
  status-eq = ground arith

  counts-clean :
      length entries < u64_modulus
      → budget.max_frozen_incidents ≤ u64_max
      → (counts.malformed_count ≡ 0)
        × (counts.unreadable_count ≡ 0)
        × (counts.valid_count < budget.max_frozen_incidents)
      → AllValid fs artifact_root entries × (length entries < budget.max_frozen_incidents)
  counts-clean n k h =
      let checked = check_entries fs (incidents_dir_of artifact_root) entries in
      let limit = sat_add budget.max_frozen_incidents 1 in
      elim (Bool-cases counts.inventory_truncated) [
        | inl t ↦ absurd (omega (arith, scan-truncated limit checked no_counts refl t))
        | inr t ↦
            let clean =
              scan-clean limit checked no_counts
                (omega (arith, length-check_entries fs (incidents_dir_of artifact_root) entries))
                h.0 h.1 t in
            (
              clean.0,
              omega (
                arith,
                clean.1,
                length-check_entries fs (incidents_dir_of artifact_root) entries,
              ),
            )
      ]

  counts-valid :
      budget.max_frozen_incidents ≤ u64_max
      → AllValid fs artifact_root entries × (length entries < budget.max_frozen_incidents)
      → (counts.malformed_count ≡ 0)
        × (counts.unreadable_count ≡ 0)
        × (counts.valid_count < budget.max_frozen_incidents)
  counts-valid n h = omega (
    arith,
    length-check_entries fs (incidents_dir_of artifact_root) entries,
    scan-valid (sat_add budget.max_frozen_incidents 1)
        (check_entries fs (incidents_dir_of artifact_root) entries) no_counts h.0 (omega arith)
        (omega (arith, length-check_entries fs (incidents_dir_of artifact_root) entries)),
  )

  -- When the incident directory is a directory that can be listed, with fewer than 2^64 entries, a
  -- freeze is admitted exactly when every entry is a valid incident and there are fewer of them
  -- than the budget's maximum, which is a u64: one malformed or unreadable entry refuses it.
  pub accept_iff :
      length entries < u64_modulus
      → budget.max_frozen_incidents ≤ u64_max
      → ((recorder_incident_budget_status fs artifact_root budget this_run).admission_decision
          ≡ accept)
        ↔ (AllValid fs artifact_root entries × (length entries < budget.max_frozen_incidents))
  accept_iff n k = rw status-eq (
    λ h. counts-clean n k ((accept_summary budget this_run counts).0 h),
    λ h. (accept_summary budget this_run counts).1 (counts-valid k h),
  )
