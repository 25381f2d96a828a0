-- ===== src/Quality.antt =====
-- Data quality: crates/adc-core/src/event.rs and crates/adc-core/src/recorder/quality.rs.
use agent_debug_compass.Prelude.{
  ℕ, String, Bool, true, false, List, [], ◌∷◌, ◌++◌, ltb, if◌then◌else◌,
}
use agent_debug_compass.Prelude.Text.{contains}

pub data ClockConfidence : Type 0 where
  unknown low medium high : ClockConfidence

pub record DataQuality : Type 0 where
  pub dropped : Bool
  pub drop_count : ℕ
  pub throttled : Bool
  pub missing : List String
  pub truncated : Bool
  pub clock_confidence : ClockConfidence
  pub notes : List String

abbrev pub default_data_quality : DataQuality
default_data_quality = record {
  dropped = false;
  drop_count = 0;
  throttled = false;
  missing = [];
  truncated = false;
  clock_confidence = unknown;
  notes = [];
}

abbrev pub medium_quality : DataQuality
medium_quality = record default_data_quality { clock_confidence = medium }

unfoldable pub data_quality_for_drop_count : ℕ → DataQuality
data_quality_for_drop_count drop_count =
    if ltb 0 drop_count
    then record medium_quality {
      dropped = true;
      drop_count = drop_count;
      notes = "memory ring dropped oldest samples" ∷ [];
    }
    else medium_quality

-- `quality.missing.push(text)` and `quality.notes.push(text)`
abbrev pub push_missing : String → DataQuality → DataQuality
push_missing text q = record q { missing = q.missing ++ text ∷ [] }

abbrev pub push_note : String → DataQuality → DataQuality
push_note text q = record q { notes = q.notes ++ text ∷ [] }

-- The same where the text is not among the missing ones.
abbrev pub push_missing_once : String → DataQuality → DataQuality
push_missing_once text q = if contains q.missing text then q else push_missing text q
