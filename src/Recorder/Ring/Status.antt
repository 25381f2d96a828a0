-- ===== src/Recorder/Ring/Status.antt =====
-- RecorderRing::status of crates/adc-core/src/recorder/ring.rs. The loop over the signal ids carries
-- the rows, the total of dropped samples and the quality of the buffer, as the method does.
pub mod Rows
use agent_debug_compass.Prelude.{
  ℕ, ◌+◌, String, Bool, true, false, ◌&&◌, ◌||◌, Option, none, some, List, [], ◌∷◌, ◌++◌, head?,
  last?, ltb, ◌==◌, sat_add, if◌then◌else◌,
}
use agent_debug_compass.Prelude.Text.{format}
use agent_debug_compass.Prelude.Maps.{BTreeMap, get, contains_key, keys, set_of}
use agent_debug_compass.Quality.{DataQuality, data_quality_for_drop_count, push_missing}
use agent_debug_compass.Recorder.Model.{
  RecorderSample, RecorderSignalStatus, RecorderBufferStatus, RecorderExpectedSignal,
}
use agent_debug_compass.Recorder.Counts.{count_of, recorded_counts_by_signal}
use agent_debug_compass.Recorder.Ring.{RecorderRing}

-- The ids that the status reports: recorded, dropped or expected.
unfoldable pub signal_ids : RecorderRing → List String
unfolding set_of recorded_counts_by_signal
signal_ids r = set_of (
    keys (recorded_counts_by_signal r.samples)
    ++ (keys r.dropped_by_signal ++ keys r.expected_signals))

unfoldable pub expected_but_absent : RecorderRing → String → ℕ → ℕ → Bool
unfolding contains_key
expected_but_absent r id recorded dropped =
    contains_key id r.expected_signals && (recorded == 0 && dropped == 0)

absent_text : String → String
unfolding format
absent_text id = format ("expected recorder signal " ∷ id ∷ " has no retained samples" ∷ [])

-- What an expected signal adds to the quality of its row, and to that of the buffer.
abbrev add_to_row : Option RecorderExpectedSignal → DataQuality → DataQuality
add_to_row none q = q
add_to_row (some e) q = record q {
  throttled = q.throttled || e.data_quality.throttled;
  truncated = q.truncated || e.data_quality.truncated;
  dropped = q.dropped || e.data_quality.dropped;
  drop_count = sat_add q.drop_count e.data_quality.drop_count;
  missing = q.missing ++ e.data_quality.missing;
  notes = q.notes ++ e.data_quality.notes;
}

abbrev add_to_buffer : Option RecorderExpectedSignal → DataQuality → DataQuality
add_to_buffer none q = q
add_to_buffer (some e) q = record q {
  throttled = q.throttled || e.data_quality.throttled;
  missing = q.missing ++ e.data_quality.missing;
  notes = q.notes ++ e.data_quality.notes;
}

abbrev pub interval_of : Option RecorderExpectedSignal → ℕ
interval_of none = 1000
interval_of (some e) = e.configured_interval_ms

pub row_quality : RecorderRing → String → Bool → ℕ → DataQuality
unfolding absent_text data_quality_for_drop_count get
row_quality r id absent dropped =
    let q = add_to_row (get id r.expected_signals) (data_quality_for_drop_count dropped) in
    if absent then push_missing (absent_text id) q else q

abbrev pub signal_row : RecorderRing → String → ℕ → ℕ → RecorderSignalStatus
signal_row r id recorded dropped =
    let absent = expected_but_absent r id recorded dropped in
    record {
      signal_id = id;
      configured_interval_ms = interval_of (get id r.expected_signals);
      expected_samples = some (sat_add recorded dropped);
      recorded_samples = recorded;
      dropped_samples = dropped;
      gap_ranges = [];
      degraded = ltb 0 dropped || absent;
      data_quality = row_quality r id absent dropped;
    }

pub record StatusLoop : Type 0 where
  pub signals : List RecorderSignalStatus
  pub total_dropped : ℕ
  pub buffer_quality : DataQuality

buffer_after : RecorderRing → String → Bool → DataQuality → DataQuality
unfolding absent_text get
buffer_after r id absent q =
    let q' = add_to_buffer (get id r.expected_signals) q in
    if absent then push_missing (absent_text id) q' else q'

status_step : RecorderRing → BTreeMap ℕ → String → StatusLoop → StatusLoop
unfolding expected_but_absent row_quality buffer_after count_of get
status_step r recorded_by id s =
    let recorded = count_of id recorded_by in
    let dropped = count_of id r.dropped_by_signal in
    record {
      signals = s.signals ++ signal_row r id recorded dropped ∷ [];
      total_dropped = sat_add s.total_dropped dropped;
      buffer_quality =
          buffer_after r id (expected_but_absent r id recorded dropped) s.buffer_quality;
    }

status_loop : RecorderRing → BTreeMap ℕ → List String → StatusLoop → StatusLoop
unfolding status_step
status_loop r recorded_by [] s = s
status_loop r recorded_by (id ∷ ids) s =
    status_loop r recorded_by ids (status_step r recorded_by id s)

-- What the totals add to the quality of the buffer after the loop.
abbrev with_drops : DataQuality → DataQuality → DataQuality
with_drops dropped_quality q =
    if dropped_quality.dropped
    then record q {
      dropped = true;
      drop_count = dropped_quality.drop_count;
      notes = q.notes ++ dropped_quality.notes;
    }
    else q

abbrev with_throttling : RecorderRing → DataQuality → DataQuality
with_throttling r q =
    if ltb 0 r.throttled_sample_count
    then record q { throttled = true; notes = q.notes ++ r.throttle_notes }
    else q

abbrev time_of : Option RecorderSample → Option ℕ
time_of none = none
time_of (some x) = some x.time_mono_ns

-- The loop's result, for all reported ids.
unfoldable pub totals : RecorderRing → StatusLoop
unfolding signal_ids status_loop data_quality_for_drop_count
totals r =
    status_loop r (recorded_counts_by_signal r.samples) (signal_ids r)
      (record { signals = []; total_dropped = 0; buffer_quality = data_quality_for_drop_count 0 })

unfoldable pub status : RecorderRing → RecorderBufferStatus
unfolding totals
status r =
    let s = totals r in
    record {
      schema_version = "obs.recorder_buffer_status.v1";
      target_id = r.target_id;
      storage_mode = "memory_ring";
      volatile = true;
      survives_daemon_restart = false;
      survives_target_reboot = false;
      survives_power_loss = false;
      retention_ms = r.retention_ms;
      current_retained_range_mono_ns = record {
        start = time_of (head? r.samples);
        end = time_of (last? r.samples);
      };
      signals = s.signals;
      data_quality =
          with_throttling r
            (with_drops (data_quality_for_drop_count s.total_dropped) s.buffer_quality);
    }
