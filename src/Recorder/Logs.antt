-- ===== src/Recorder/Logs.antt =====
-- The cursor of an append-only log: crates/adc-core/src/recorder/logs.rs. The file that a poll finds
-- is a parameter of the poll; the decoding of bytes to lines and the trimming of a text are
-- parameters of all.
pub mod Model
pub mod Snapshot
pub mod Accounting
pub mod Progress
use agent_debug_compass.Recorder.Logs.Model.{
  RecorderLogEvent, RecorderLogSourceStatus, RecorderBlackoutReport, RecorderLogSnapshot,
  FileIdentity, AppendOnlyLogCursor, max_log_events_retained, max_log_bytes_per_drain, FileMetadata,
  LogFile,
}
use agent_debug_compass.Prelude.{
  ℕ, ◌-◌, String, Bool, true, false, not, ◌&&◌, ◌||◌, Option, none, some, List, [], ◌∷◌, ◌++◌,
  length, drop, is_empty, ltb, ◌==◌, min, sat_add, if◌then◌else◌, ◌=ₛ◌,
}
use agent_debug_compass.Prelude.Text.{format, show, includes, to_ascii_lowercase}
use agent_debug_compass.Prelude.Maps.{BTreeMap}
use agent_debug_compass.Quality.{
  DataQuality, default_data_quality, medium_quality, medium, push_missing, push_note,
}
use agent_debug_compass.Error.{IoResult, done, io_error}
use agent_debug_compass.Recorder.Model.{RecorderGapRange, TimeRange, CapabilityStatus, supported}

unfoldable pub new_app_log : String → AppendOnlyLogCursor
new_app_log path = record {
  source_id = "app_log";
  source_kind = "append_file";
  source_ref = "target://logs/app_log";
  path = path;
  offset = 0;
  identity = none;
  events_observed = 0;
  events_truncated = 0;
  rotation_detected = false;
  blackout_ranges = [];
  retained_events = [];
}

unfoldable pub severity_for_log_line : String → String
unfolding to_ascii_lowercase
severity_for_log_line line =
    let lower = to_ascii_lowercase line in
    if includes lower "error" then "error" else if includes lower "warn" then "warning" else "info"

unfoldable pub same_identity : FileIdentity → FileIdentity → Bool
same_identity a b = (a.dev == b.dev) && (a.ino == b.ino)

unfoldable pub changed : Option FileIdentity → FileIdentity → Bool
unfolding same_identity
changed none identity = false
changed (some current) identity = not (same_identity current identity)

abbrev gap_at : ℕ → RecorderGapRange
gap_at time = record { start_mono_ns = time; end_mono_ns = time }

-- Whether the file was replaced or cut, and what the cursor does then.
unfoldable pub is_rotated : AppendOnlyLogCursor → FileMetadata → Bool
unfolding changed
is_rotated c m = changed c.identity m.identity || ltb m.len c.offset

unfoldable pub after_rotation : ℕ → AppendOnlyLogCursor → AppendOnlyLogCursor
after_rotation time c = record c {
  rotation_detected = true;
  blackout_ranges = c.blackout_ranges ++ gap_at time ∷ [];
  offset = 0;
}

abbrev state_text : Bool → String
state_text rotated = if rotated then "rotated" else "silent_with_continuity"

-- The drain of the oldest events above the limit.
unfoldable pub limit_events : AppendOnlyLogCursor → AppendOnlyLogCursor
limit_events c =
    let n = length c.retained_events in
    if ltb max_log_events_retained n
    then record c {
      retained_events = drop (n - max_log_events_retained) c.retained_events;
      events_truncated = sat_add c.events_truncated (n - max_log_events_retained);
    }
    else c

-- What a call that may fail leaves: the cursor, and the continuity state or the error's text.
pub record Polled : Type 0 where
  pub cursor : AppendOnlyLogCursor
  pub result : IoResult String

abbrev failed_to : String → AppendOnlyLogCursor → String → String
failed_to what c e = format ("failed to " ∷ what ∷ " log source " ∷ c.source_id ∷ ": " ∷ e ∷ [])

module _ (lines : List ℕ → List String) (trim : String → String) where
  pub log_event : AppendOnlyLogCursor → ℕ → String → ℕ → RecorderLogEvent
  unfolding severity_for_log_line
  log_event c time line index = record {
    schema_version = "obs.recorder_log_event.v1";
    source_id = c.source_id;
    source_kind = c.source_kind;
    time_mono_ns = time;
    severity = severity_for_log_line line;
    message = trim line;
    line_index = index;
    data_quality = medium_quality;
  }

  -- What the loop does for a line that is not blank.
  unfoldable pub push_event : ℕ → String → AppendOnlyLogCursor → AppendOnlyLogCursor
  unfolding log_event
  push_event time line c =
      let index = sat_add c.events_observed 1 in
      record c {
        events_observed = index;
        retained_events = c.retained_events ++ log_event c time line index ∷ [];
      }

  unfoldable pub observe_line : ℕ → String → AppendOnlyLogCursor → AppendOnlyLogCursor
  unfolding push_event
  observe_line time line c = if trim line =ₛ "" then c else push_event time line c

  -- The loop over the lines.
  unfoldable pub observe_lines : ℕ → List String → AppendOnlyLogCursor → AppendOnlyLogCursor
  unfolding observe_line
  observe_lines time [] c = c
  observe_lines time (l ∷ ls) c = observe_lines time ls (observe_line time l c)

  -- After the read of some of the bytes that are available.
  unfoldable pub absorb : ℕ → ℕ → Bool → List ℕ → AppendOnlyLogCursor → Polled
  unfolding observe_lines limit_events
  absorb time available rotated bytes c =
      let read = length bytes in
      let partial = ltb read available in
      let moved = record c {
        offset = sat_add c.offset read;
        events_truncated = if partial then sat_add c.events_truncated 1 else c.events_truncated;
      } in
      record {
        cursor = limit_events (observe_lines time (lines bytes) moved);
        result =
            done (if partial then "gap_detected" else if rotated then "rotated" else "continuous");
      }

  abbrev on_read : ℕ → ℕ → Bool → IoResult (List ℕ) → AppendOnlyLogCursor → Polled
  on_read time available rotated (done bytes) c = absorb time available rotated bytes c
  on_read time available rotated (io_error e) c = record {
    cursor = c;
    result = io_error (failed_to "read" c e);
  }

  abbrev on_seek : LogFile → ℕ → ℕ → Bool → IoResult (Unit {0}) → AppendOnlyLogCursor → Polled
  on_seek f time available rotated (done u) c =
      on_read time available rotated (f.read c.offset (min available max_log_bytes_per_drain)) c
  on_seek f time available rotated (io_error e) c = record {
    cursor = c;
    result = io_error (failed_to "seek" c e);
  }

  abbrev on_open : LogFile → ℕ → ℕ → Bool → IoResult (Unit {0}) → AppendOnlyLogCursor → Polled
  on_open f time available rotated (done u) c = on_seek f time available rotated (f.seek c.offset) c
  on_open f time available rotated (io_error e) c = record {
    cursor = c;
    result = io_error (failed_to "open" c e);
  }

  unfoldable pub drain : LogFile → ℕ → ℕ → Bool → AppendOnlyLogCursor → Polled
  unfolding absorb format
  drain f time size rotated c =
      if ltb c.offset size
      then on_open f time (size - c.offset) rotated f.open_file c
      else record { cursor = c; result = done (state_text rotated) }

  unfoldable pub on_metadata : LogFile → ℕ → IoResult FileMetadata → AppendOnlyLogCursor → Polled
  unfolding is_rotated after_rotation drain format
  on_metadata f time (io_error e) c = record {
    cursor = c;
    result = io_error (failed_to "stat" c e);
  }
  on_metadata f time (done m) c =
      let rotated = is_rotated c m in
      let c1 = (if rotated then after_rotation time c else c) in
      drain f time m.len rotated (record c1 { identity = some m.identity })

  unfoldable pub poll_inner : LogFile → ℕ → AppendOnlyLogCursor → Polled
  unfolding on_metadata
  poll_inner f time c = on_metadata f time f.metadata c
