-- ===== src/Recorder/Freezer/Trigger.antt =====
-- freeze_recorder_trigger_with_decision of crates/adc-core/src/recorder/freezer.rs, and the default
-- decision and the refusal of crates/adc-core/src/recorder/trigger_artifacts.rs.
use agent_debug_compass.Prelude.{
  ℕ, String, true, false, Option, none, some, List, [], ◌∷◌, if◌then◌else◌,
}
use agent_debug_compass.Prelude.Float.{F64}
use agent_debug_compass.Prelude.Text.{format, contains}
use agent_debug_compass.Quality.{
  DataQuality, default_data_quality, medium_quality, medium, push_note,
}
use agent_debug_compass.Error.{AdcResult, ◌>>◌}
use agent_debug_compass.Recorder.Model.{
  RecorderSample, RecorderBudget, RecorderCoverageState, RecorderCoverageConfidence,
}
use agent_debug_compass.Recorder.Budget.{
  RecorderBudgetStatus, RecorderAdmissionRefusalReason, incident_inventory_unreliable,
}
use agent_debug_compass.Recorder.Validation.{
  validate_recorder_file_segment, validate_preservation_reason_name,
}
use agent_debug_compass.Recorder.Ring.{RecorderRing}
use agent_debug_compass.Recorder.Loss.{samples_within_freeze_budget}
use agent_debug_compass.Trigger.Model.{
  TriggerDecision, burst_count, fired, burst_count_crossed, accepted,
}
use agent_debug_compass.Recorder.Freezer.Model.{
  RecorderTriggerFreezeRequest, RecorderTriggerFreeze, RecorderTriggerEvent, RecorderFreezeDecision,
  window_document, incident_document, trigger_event_document, trigger_decision_document,
  trigger_policy, refused, json, sample_lines, loss_document, coverage_document,
}
use agent_debug_compass.Recorder.Freezer.Store.{Disk, Json}
use agent_debug_compass.Recorder.Freezer.Window.{
  FreezeNames, FreezePlan, incident_ref, incident_dir_of, frozen_window_of, incident_of,
  frozen_coverage_of, report_of, line_len, freeze_into,
}

refused_note : String
refused_note = "trigger recorder freeze was skipped due to budget admission"

abbrev push_note_once : String → DataQuality → DataQuality
push_note_once text q = if contains q.notes text then q else push_note text q

abbrev reason_or_unreliable : Option RecorderAdmissionRefusalReason → RecorderAdmissionRefusalReason
reason_or_unreliable none = incident_inventory_unreliable
reason_or_unreliable (some r) = r

unfoldable pub recorder_freeze_decision_for_refused_trigger :
    RecorderBudgetStatus → RecorderFreezeDecision
unfolding refused_note
recorder_freeze_decision_for_refused_trigger status = record {
  schema_version = "obs.recorder_freeze_decision.v1";
  source = trigger_policy;
  decision = refused;
  reason = reason_or_unreliable status.admission_refusal_reason;
  budget_status = status;
  data_quality = push_note_once refused_note (record status.data_quality { throttled = true });
}

unfoldable pub default_trigger_decision_for_freeze :
    String → String → String → String → TriggerDecision
unfolding format
default_trigger_decision_for_freeze incident_id trigger_name coverage_ref trigger_event_ref =
    record {
      schema_version = "obs.trigger_decision.v1";
      decision_id = format ("TD-" ∷ incident_id ∷ []);
      policy_id = "legacy-profile-trigger-policy";
      rule_id = format (trigger_name ∷ "_v1" ∷ []);
      trigger_name = trigger_name;
      trigger_kind = burst_count;
      decision = fired;
      decision_reason = burst_count_crossed;
      signal_id = "kmsg.message";
      coverage_signal_id = "kmsg.cursor";
      observed_value = none;
      threshold = none;
      coverage_state = RecorderCoverageState.unknown;
      coverage_confidence = RecorderCoverageConfidence.unknown;
      coverage_ref = some coverage_ref;
      budget_decision = accepted;
      budget_status_ref = none;
      incident_id = some incident_id;
      trigger_event_ref = some trigger_event_ref;
      root_cause_claim = false;
      data_quality = record default_data_quality {
        clock_confidence = medium;
        notes = "default trigger decision was synthesized by trigger freeze helper" ∷ [];
      };
    }

-- `request.trigger_decision.unwrap_or_else(...)`
decision_of : String → String → Option TriggerDecision → TriggerDecision
unfolding default_trigger_decision_for_freeze incident_ref
decision_of incident_id trigger_name (some decision) = decision
decision_of incident_id trigger_name none =
    default_trigger_decision_for_freeze incident_id trigger_name
      (incident_ref incident_id "coverage.json") (incident_ref incident_id "trigger_event.json")

unfoldable pub trigger_names : RecorderTriggerFreezeRequest → FreezeNames
trigger_names q = record {
  incident_id = q.incident_id;
  window_id = q.window_id;
  marker_id = none;
  reason = "trigger_policy";
  preserved_for = q.trigger_name;
  time = q.trigger_time_mono_ns;
  refs =
      ("trigger_event", "trigger_event.json")
      ∷ ("trigger_decision", "trigger_decision.json")
      ∷ ("samples", "samples.jsonl")
      ∷ ("loss_report", "loss_report.json")
      ∷ ("observation_coverage", "coverage.json")
      ∷ [];
}

trigger_event_of : RecorderTriggerFreezeRequest → RecorderTriggerEvent
unfolding incident_ref
trigger_event_of q = record {
  schema_version = "obs.recorder_trigger_event.v1";
  trigger_name = q.trigger_name;
  trigger_time_mono_ns = q.trigger_time_mono_ns;
  agent_contract = "preservation_reason_only";
  root_cause_claim = false;
  trigger_decision_ref = incident_ref q.incident_id "trigger_decision.json";
  coverage_ref = incident_ref q.incident_id "coverage.json";
  data_quality = medium_quality;
}

module _ (percent : ℕ → ℕ → F64) where
  unfoldable pub trigger_plan :
      String
      → RecorderTriggerFreezeRequest
      → RecorderRing
      → RecorderBudget
      → List RecorderSample
      → DataQuality
      → FreezePlan RecorderTriggerFreeze
  unfolding trigger_names report_of frozen_window_of incident_of frozen_coverage_of trigger_event_of
      decision_of incident_dir_of
  trigger_plan root q ring budget samples quality =
      let names = trigger_names q in
      let report = report_of names ring samples quality in
      let window = frozen_window_of names ring budget report in
      let incident = incident_of names ring window in
      record {
        files =
            ("trigger_event.json", json (trigger_event_document (trigger_event_of q)))
            ∷ (
              "trigger_decision.json",
              json (
                  trigger_decision_document
                    (decision_of q.incident_id q.trigger_name q.trigger_decision)),
            )
            ∷ ("samples.jsonl", sample_lines samples)
            ∷ ("loss_report.json", json (loss_document report))
            ∷ (
              "coverage.json",
              json (coverage_document (frozen_coverage_of percent names ring budget report)),
            )
            ∷ ("frozen_window.json", json (window_document window))
            ∷ ("incident.json", json (incident_document incident))
            ∷ [];
        answer = record {
          incident = incident;
          frozen_window = window;
          run_dir = incident_dir_of root q.incident_id;
        };
      }

module _ (S : Type 0) (d : Disk S) (j : Json) (percent : ℕ → ℕ → F64) where
  unfoldable pub freeze_recorder_trigger_with_decision :
      String
      → RecorderTriggerFreezeRequest
      → RecorderRing
      → RecorderBudget
      → S
      → S × AdcResult RecorderTriggerFreeze
  unfolding freeze_into trigger_plan validate_recorder_file_segment
      validate_preservation_reason_name samples_within_freeze_budget incident_dir_of line_len
  freeze_recorder_trigger_with_decision root q ring budget s =
      freeze_into S RecorderTriggerFreeze d j (incident_dir_of root q.incident_id)
        (validate_recorder_file_segment q.incident_id "incident_id"
          >> validate_recorder_file_segment q.window_id "window_id"
          >> validate_preservation_reason_name q.trigger_name)
        (samples_within_freeze_budget (line_len j) ring.samples budget)
        (trigger_plan percent root q ring budget) s

  unfoldable pub freeze_recorder_trigger :
      String
      → String
      → String
      → String
      → ℕ
      → RecorderRing
      → RecorderBudget
      → S
      → S × AdcResult RecorderTriggerFreeze
  unfolding freeze_recorder_trigger_with_decision
  freeze_recorder_trigger root incident_id window_id trigger_name time ring budget s =
      freeze_recorder_trigger_with_decision root
        (record {
          incident_id = incident_id;
          window_id = window_id;
          trigger_name = trigger_name;
          trigger_time_mono_ns = time;
          trigger_decision = none;
        })
        ring budget s
