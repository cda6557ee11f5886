-- ===== src/Daemon/Servicer.antt =====
-- grpc_servicer.py: what the gate reports, and what it calls back. The request is the message that gRPC
-- decoded; the two methods that only answer, and the server itself, are left out.
use ai_oncall.Prelude.{
  ℕ, String, ◌==◌, Bool, true, false, Option, none, some, List, [], ◌∷◌, Dict, map, if◌then◌else◌,
}
use ai_oncall.Python.Exec.{Exec, pure, gets, ◌>>=◌, ◌>>◌}
use ai_oncall.Python.Json.{Json, str, num, dict}
use ai_oncall.Python.Host.{Host}
use ai_oncall.Store.Schema.{Incident}
use ai_oncall.Store.Incidents.{create_incident, list_incidents}
use ai_oncall.Store.Timeline.{append_timeline}
use ai_oncall.Daemon.Core.{Core, store_of, on_core_store}

-- AlertEvent, as far as it is read
pub record AlertEvent : Type 0 where
  pub fingerprint : String
  pub severity : ℕ
  pub summary : String
  pub labels : Dict String
  pub starts_at_unix : ℕ

pub record ReportIncidentResponse : Type 0 where
  pub accepted : Bool
  pub deduplicated : Bool
  pub incident_id : String
  pub message : String

-- CallbackAction.Kind
pub data Kind : Type 0 where
  kind_unspecified kind_approve kind_reject kind_snooze : Kind

pub record CallbackAction : Type 0 where
  pub kind : Kind
  pub callback_id : String
  pub reason : String
  pub telegram_user_id : String

pub record ActionCallbackResponse : Type 0 where
  pub accepted : Bool
  pub message : String

-- `Kind.Name(kind)`, and the name without its prefix in lower case
abbrev pub kind_name : Kind → String
kind_name kind_unspecified = "KIND_UNSPECIFIED"
kind_name kind_approve = "KIND_APPROVE"
kind_name kind_reject = "KIND_REJECT"
kind_name kind_snooze = "KIND_SNOOZE"

abbrev pub kind_word : Kind → String
kind_word kind_unspecified = "unspecified"
kind_word kind_approve = "approve"
kind_word kind_reject = "reject"
kind_word kind_snooze = "snooze"

-- What the servicer is built with.
pub record ServicerConfig : Type 0 where
  pub run_triage : Option (String → Exec Core (Unit {0}))
  pub on_action : Option (String → String → String → String → Exec Core (Unit {0}))

abbrev pub labels_json : Dict String → Json
labels_json labels = dict (map (λ kv. (kv.0, str kv.1)) labels)

abbrev pub missing_event : ReportIncidentResponse
missing_event = record {
  accepted = false;
  deduplicated = false;
  incident_id = "";
  message = "missing event/fingerprint";
}

abbrev pub created_response : String → ReportIncidentResponse
created_response i = record {
  accepted = true;
  deduplicated = false;
  incident_id = i;
  message = "created";
}

abbrev pub known_response : String → ReportIncidentResponse
known_response i = record {
  accepted = true;
  deduplicated = true;
  incident_id = i;
  message = "already exists";
}

abbrev pub accepted_action : ActionCallbackResponse
accepted_action = record { accepted = true; message = "" }

abbrev pub missing_action : ActionCallbackResponse
missing_action = record { accepted = false; message = "missing action" }

abbrev pub start_triage : Option (String → Exec Core (Unit {0})) → String → Exec Core (Unit {0})
start_triage none i = pure tt
start_triage (some run) i = run i

-- `incidents[0].id if incidents else ""`
abbrev pub first_id : List Incident → String
first_id [] = ""
first_id (inc ∷ incs) = inc.id

module _ ⦃h : Host⦄ (c : ServicerConfig) where
  abbrev pub note_created : AlertEvent → Incident → Exec Core ℕ
  note_created event incident = on_core_store (
      append_timeline incident.id "incident_created" (
        dict (
          ("fingerprint", str event.fingerprint)
          ∷ ("summary", str event.summary)
          ∷ ("labels", labels_json event.labels)
          ∷ ("starts_at_unix", num event.starts_at_unix)
          ∷ [])))

  abbrev pub answer_report : AlertEvent → Incident × Bool → Exec Core ReportIncidentResponse
  answer_report event (incident, true) = do
    note_created event incident
    start_triage c.run_triage incident.id
    pure (created_response incident.id)
  answer_report event (incident, false) = pure (known_response incident.id)

  unfoldable pub report_incident : AlertEvent → Exec Core ReportIncidentResponse
  report_incident event = if event.fingerprint == "" then pure missing_event else (do
    made ←
        on_core_store (create_incident event.fingerprint event.severity event.summary event.labels)
    answer_report event made)

  abbrev pub write_callback : String → CallbackAction → Exec Core (Unit {0})
  write_callback i action = do
    on_core_store (
        append_timeline i "action_callback" (
          dict (
            ("callback_id", str action.callback_id)
            ∷ ("kind", str (kind_name action.kind))
            ∷ ("reason", str action.reason)
            ∷ ("telegram_user_id", str action.telegram_user_id)
            ∷ [])))
    pure tt

  abbrev pub note_callback : String → CallbackAction → Exec Core (Unit {0})
  note_callback i action = if i == "" then pure tt else write_callback i action

  abbrev pub route_action :
      Option (String → String → String → String → Exec Core (Unit {0}))
      → CallbackAction
      → Exec Core (Unit {0})
  route_action (some on_action) action =
      on_action action.callback_id (kind_word action.kind) action.reason action.telegram_user_id
  route_action none action = do
    incidents ← gets (λ s. list_incidents none 1 0 "created_at DESC" (store_of s))
    note_callback (first_id incidents) action

  unfoldable pub action_callback : CallbackAction → Exec Core ActionCallbackResponse
  action_callback action =
      if action.callback_id == ""
      then pure missing_action
      else (do route_action c.on_action action; pure accepted_action)
