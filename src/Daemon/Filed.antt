-- ===== src/Daemon/Filed.antt =====
-- __main__.py: the triage that the daemon starts leaves the table `incidents` as it is.
use ai_oncall.Prelude.{
  String, ◌==◌, false, ◌≡◌, refl, ◌∙◌, Option, none, some, List, [], ◌∷◌, arith,
}
use ai_oncall.Python.Exec.{Exn, Exec, Result, ok, err, gets}
use ai_oncall.Python.Preserves.{
  Preserves, Preserves-pure, Preserves-gets, Preserves-bind, Preserves-then,
}
use ai_oncall.Python.Host.{Host}
use ai_oncall.Python.Texts.{Texts}
use ai_oncall.Store.Schema.{Incident, Prediction, Store}
use ai_oncall.Store.Incidents.{get_incident}
use ai_oncall.Store.Approvals.{record_pending_approval}
use ai_oncall.Store.Records.{latest_prediction}
use ai_oncall.Memory.Redact.{Patterns}
use ai_oncall.Runbook.Approval.{submit}
use ai_oncall.Executor.Report.{SuggestedAction, TriageReport, mutating_actions}
use ai_oncall.Brain.Triage.{run}
use ai_oncall.Brain.Triage.Keeps.{run-kept}
use ai_oncall.Brain.Triage.Incidents.{HasIncidents, keeps_incidents}
use ai_oncall.Flow.Orchestrator.{
  Buttons, FlowConfig, Flow, on_gate, submitted, report_runbook, report_step, approval_text,
  approval_buttons, delivered, store_report, announce_request, register_actions,
  register_from_report,
}
use ai_oncall.Flow.Submitting.{incidents_survive, submit-KeptStore}
use ai_oncall.Daemon.Core.{Core, store_of, with_store, pipeline_of, on_pipeline, on_flow}
use ai_oncall.Daemon.Wiring.{
  DaemonConfig, input_for, prediction_report, register, register_if_read, register_prediction,
  triage_incident, register_again, wrapped_triage,
}
use ai_oncall.Store.Creation.{after_draw}
use ai_oncall.Daemon.Servicer.{
  AlertEvent, ReportIncidentResponse, ServicerConfig, report_incident, known_response,
}
use ai_oncall.Daemon.Again.{IsFiled, filed-same, report_incident_again}

module _ ⦃h : Host⦄ ⦃p : Patterns⦄ (incs : List Incident) where
  abbrev FlowHas : Flow → Type 0
  FlowHas f = f.gate.store.incidents ≡ incs

  incidents-record_pending :
      (r i text : String) (s : Store)
      → (record_pending_approval r i text s).1.incidents ≡ s.incidents
  unfolding record_pending_approval
  incidents-record_pending r i text s = ground arith

  delivered-FlowHas :
      (c : FlowConfig) (d : Option (String → String → Buttons → Option Exn)) (i text : String)
      (b : Buttons)
      → Preserves FlowHas (delivered c d i text b)
  delivered-FlowHas c none i text b = record { at = λ f e. e }
  delivered-FlowHas c (some deliver) i text b = record { at = λ f e. ground arith }

  announced-FlowHas :
      (c : FlowConfig) (i : String) (report : TriageReport) (as' : List SuggestedAction)
      (r : Option String)
      → Preserves FlowHas (announce_request c i report as' r)
  announced-FlowHas c i report as' none = Preserves-pure []
  announced-FlowHas c i report as' (some r) =
      Preserves-then (store_report c r i report) _
        (record { at = λ f e. incidents-record_pending r i _ f.gate.store ∙ e })
        (Preserves-then (delivered c c.deliver_buttons i (approval_text r as') (approval_buttons r))
          _ (delivered-FlowHas c c.deliver_buttons i (approval_text r as') (approval_buttons r))
          (Preserves-pure (r ∷ [])))

  registered-FlowHas :
      (c : FlowConfig) (i : String) (report : TriageReport) (as' : List SuggestedAction)
      → Preserves FlowHas (register_actions c i report as')
  registered-FlowHas c i report [] = Preserves-pure []
  registered-FlowHas c i report (a ∷ as') =
      Preserves-bind (on_gate (submit c.gate i (report_runbook i) (report_step (a ∷ as')))) _
        (record {
          at = λ f e.
              (submit-KeptStore c.gate (λ t. t.incidents ≡ incs) (incidents_survive incs) i
                  (report_runbook i) (report_step (a ∷ as'))).at
                f.gate e;
        })
        (λ o. announced-FlowHas c i report (a ∷ as') (submitted o))

module _ ⦃h : Host⦄ ⦃p : Patterns⦄ ⦃x : Texts⦄ (c : DaemonConfig) (incs : List Incident) where
  abbrev CoreHas : Core → Type 0
  CoreHas s = (store_of s).incidents ≡ incs

  register-CoreHas : (i : String) (report : TriageReport) → Preserves CoreHas (register c i report)
  unfolding register_from_report
  register-CoreHas i report =
      Preserves-then (on_flow (register_from_report c.flow i report)) _
        (record {
          at = λ s e.
              (registered-FlowHas incs c.flow i report (mutating_actions report)).at s.flow e;
        })
        (Preserves-pure tt)

  read-CoreHas : (i : String) (r : Result TriageReport) → Preserves CoreHas (register_if_read c i r)
  read-CoreHas i (ok report) = register-CoreHas i report
  read-CoreHas i (err e) = Preserves-pure tt

  prediction-CoreHas :
      (i : String) (o : Option Prediction) → Preserves CoreHas (register_prediction c i o)
  prediction-CoreHas i none = Preserves-pure tt
  prediction-CoreHas i (some pred) = read-CoreHas i (prediction_report i pred)

  again-CoreHas : (i : String) (o : Option Prediction) → Preserves CoreHas (register_again c i o)
  again-CoreHas i none = Preserves-pure tt
  again-CoreHas i (some pred) =
      Preserves-bind (λ s. (prediction_report i pred, s)) _ (record { at = λ s e. e })
        (register-CoreHas i)

  run-CoreHas :
      (i : String) (inc : Option Incident)
      → Preserves CoreHas (on_pipeline (run c.pipeline (input_for i inc)))
  run-CoreHas i inc = record {
    at = λ s e.
        unfold HasIncidents in
        (run-kept c.pipeline (input_for i inc) (HasIncidents c.pipeline (input_for i inc) incs)
            (keeps_incidents c.pipeline (input_for i inc) incs)).at
          (pipeline_of s) e;
  }

  triage-CoreHas : (i : String) → Preserves CoreHas (triage_incident c i)
  unfolding triage_incident
  triage-CoreHas i =
      Preserves-bind (gets (λ s. get_incident i (store_of s))) _ (Preserves-gets _) (λ inc.
        Preserves-then (on_pipeline (run c.pipeline (input_for i inc))) _ (run-CoreHas i inc) (
          Preserves-bind (gets (λ s. latest_prediction i (store_of s))) _ (Preserves-gets _)
            (prediction-CoreHas i)))

  wrapped-CoreHas : (i : String) → Preserves CoreHas (wrapped_triage c i)
  unfolding wrapped_triage
  wrapped-CoreHas i = Preserves-then (triage_incident c i) _ (triage-CoreHas i) (
      Preserves-bind (gets (λ s. latest_prediction i (store_of s))) _ (Preserves-gets _)
        (again-CoreHas i))

module _ ⦃h : Host⦄ ⦃p : Patterns⦄ ⦃x : Texts⦄ (c : DaemonConfig) where
  -- The triage of the daemon leaves every incident findable by its fingerprint.
  pub wrapped-IsFiled :
      (f i : String) (inc : Incident) → Preserves (IsFiled f inc) (wrapped_triage c i)
  wrapped-IsFiled f i inc = record {
    at = λ s e.
        filed-same f (store_of (wrapped_triage c i s).1) (store_of s)
          ((wrapped-CoreHas c (store_of s).incidents i).at s refl)
        ∙ e;
  }

  -- The servicer as the daemon wires it, with any routing of the callbacks.
  abbrev pub wired :
      Option (String → String → String → String → Exec Core (Unit {0})) → ServicerConfig
  wired on_action = record { run_triage = some (wrapped_triage c); on_action = on_action }

  -- An alert that the daemon has answered, and that is reported again, is answered with the same incident and
  -- as a duplicate. The triage, with all that it may have changed and registered, is not started again, and
  -- no table changes.
  pub report_incident-wrapped_triage :
      (on_action : Option (String → String → String → String → Exec Core (Unit {0})))
      (event event' : AlertEvent) (s : Core) (r : ReportIncidentResponse)
      → (event.fingerprint == "") ≡ false
      → event'.fingerprint ≡ event.fingerprint
      → (report_incident (wired on_action) event s).0 ≡ ok r
      → let t = (report_incident (wired on_action) event s).1 in
        report_incident (wired on_action) event' t
        ≡ (ok (known_response r.incident_id), with_store (after_draw (store_of t)) t)
  report_incident-wrapped_triage on_action event event' s r there same e =
      report_incident_again (wired on_action) event event' s r there same
        (λ inc. wrapped-IsFiled event.fingerprint inc.id inc) e
