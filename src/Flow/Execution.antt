-- ===== src/Flow/Execution.antt =====
-- approval_flow.py: what an approval executes, and what a refused decision leaves.
use ai_oncall.Prelude.{String, ◌≡◌, refl, ap, ◌∙◌, Option, none, some, lookup, remove}
use ai_oncall.Python.Exec.{ok, next, pure, ◌>>◌, bind_ok}
use ai_oncall.Python.Json.{Json, obj}
use ai_oncall.Python.Host.{Host}
use ai_oncall.Python.Texts.{Texts}
use ai_oncall.Store.Schema.{Incident, Store}
use ai_oncall.Store.Incidents.{get_incident}
use ai_oncall.Store.Approvals.{get_pending_report, mark_approval_done, set_state}
use ai_oncall.Memory.Redact.{Patterns}
use ai_oncall.Incident.HashChain.{append}
use ai_oncall.Incident.HashChain.Append.{append_known}
use ai_oncall.Runbook.Approval.{
  pending, PendingApproval, approved, outcome, refusal, if_pending, on_approve, on_reject,
}
use ai_oncall.Runbook.Approval.Deciding.{
  granted_payload, on_approve_pending, on_approve_refused, on_reject_refused,
}
use ai_oncall.Executor.Report.{TriageReport}
use ai_oncall.Executor.Runner.{Production}
use ai_oncall.Brain.Validator.Sound.{IsWellFormed}
use ai_oncall.Flow.Report.{report_to_dict}
use ai_oncall.Flow.RoundTrip.{validate_report-report_to_dict}
use ai_oncall.Flow.Orchestrator.{
  FlowConfig, Flow, on_gate, as_report, run_report, execute_stored, execute_approved, handle_action,
}

-- What an approved request goes on from: the gate without it, and the event of the approval.
abbrev pub after_grant :
    ⦃h : Host⦄ → ⦃p : Patterns⦄ → String → String → PendingApproval → FlowConfig → Flow → Flow
after_grant r by q c f = record f {
  gate = record f.gate {
    store =
        (append q.incident_id "approval_granted" (granted_payload c.gate r by q) f.gate.store).1;
    requests = remove r f.gate.requests;
  };
}

module _ ⦃h : Host⦄ ⦃p : Patterns⦄ where
  pending_report-append :
      (r i kind : String) (payload : Json) (s : Store) (inc : Incident)
      → get_incident i s ≡ some inc
      → get_pending_report r (append i kind payload s).1 ≡ get_pending_report r s
  unfolding get_pending_report
  pending_report-append r i kind payload s inc e = rw (append_known i kind payload s inc e)

module _ ⦃h : Host⦄ ⦃p : Patterns⦄ ⦃x : Texts⦄ (c : FlowConfig) where
  report_read :
      (report : TriageReport)
      → IsWellFormed report
      → x.loads (h.dumps (obj (report_to_dict report))) ≡ some (obj (report_to_dict report))
      → as_report (x.loads (h.dumps (obj (report_to_dict report)))) ≡ ok report
  report_read report w back = ap as_report back ∙ validate_report-report_to_dict report none w refl

  read_and_run :
      (r : String) (runner : Option Production) (text : Option String) (o : Production) (t : String)
      (report : TriageReport) (f : Flow)
      → runner ≡ some o
      → text ≡ some t
      → as_report (x.loads t) ≡ ok report
      → execute_stored c r runner text f ≡ run_report c o report f
  read_and_run r runner text o t report f e e' e'' = rw (e, e', e'')

  approved_flow :
      (r by : String) (f : Flow) (q : PendingApproval) (inc : Incident)
      → lookup r f.gate.requests ≡ some q
      → q.state ≡ pending
      → get_incident q.incident_id f.gate.store ≡ some inc
      → on_gate (on_approve c.gate r by) f ≡ (ok (outcome approved r), after_grant r by q c f)
  approved_flow r by f q inc l st known =
      ap (λ t. (t.0, record f { gate = t.1 }))
        (on_approve_pending c.gate r by f.gate q inc l st known)

  -- The approval of a pending request runs the executor on precisely the report that was stored with it, once,
  -- after the approval is on record and the request is out of the gate. The report is one that keeps the
  -- contract of a report, and `json.loads` reads back what `json.dumps` wrote of it.
  pub approve-execute :
      (r by reason : String) (f : Flow) (q : PendingApproval) (inc : Incident) (o : Production)
      (report : TriageReport)
      → c.runner ≡ some o
      → lookup r f.gate.requests ≡ some q
      → q.state ≡ pending
      → get_incident q.incident_id f.gate.store ≡ some inc
      → get_pending_report r f.gate.store ≡ some (h.dumps (obj (report_to_dict report)))
      → x.loads (h.dumps (obj (report_to_dict report))) ≡ some (obj (report_to_dict report))
      → IsWellFormed report
      → handle_action c "approve" r by reason f
        ≡ (run_report c o report >> pure (outcome approved r)) (after_grant r by q c f)
  unfolding handle_action execute_approved
  approve-execute r by reason f q inc o report runs l st known stored back w =
      bind_ok (on_gate (on_approve c.gate r by)) _ f (approved_flow r by f q inc l st known)
      ∙ ap (λ t. next t.0 t.1 (λ _. pure (outcome approved r)))
          (read_and_run r c.runner (get_pending_report r (after_grant r by q c f).gate.store) o
            (h.dumps (obj (report_to_dict report))) report (after_grant r by q c f) runs
            (pending_report-append r q.incident_id "approval_granted" _ f.gate.store inc known
              ∙ stored)
            (report_read report w back))

  -- A decision on a request that is not pending is refused. An approval then changes nothing; a
  -- rejection still marks the stored request as rejected.
  pub decide_refused :
      (r by reason : String) (f : Flow)
      → if_pending (lookup r f.gate.requests) ≡ none
      → (handle_action c "approve" r by reason f ≡ (ok refusal, f))
        × (handle_action c "reject" r by reason f ≡ (
          ok refusal,
          record f {
            gate = record f.gate {
              store = record f.gate.store {
                approval_requests = set_state r "rejected" f.gate.store.approval_requests;
              };
            };
          },
        ))
  unfolding handle_action mark_approval_done
  decide_refused r by reason f e = (
    bind_ok (on_gate (on_approve c.gate r by)) _ f
        (ap (λ t. (t.0, record f { gate = t.1 })) (on_approve_refused c.gate r by f.gate e)),
    bind_ok (on_gate (on_reject c.gate r by reason)) _ f
        (ap (λ t. (t.0, record f { gate = t.1 })) (on_reject_refused c.gate r by reason f.gate e)),
  )
