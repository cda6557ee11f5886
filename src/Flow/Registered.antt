-- ===== src/Flow/Registered.antt =====
-- approval_flow.py: a report that was registered waits for its approval, in the gate and in the store.
use ai_oncall.Prelude.{
  String, ◌≡◌, refl, sym, ap, ◌∙◌, subst, false, Option, none, some, List, [], ◌∷◌, any, arith,
}
use ai_oncall.Python.Exec.{Exn, ok, bind_inv, ok-injective, pure, ◌>>◌}
use ai_oncall.Python.Json.{obj}
use ai_oncall.Python.Host.{Host}
use ai_oncall.Python.Texts.{Texts}
use ai_oncall.Store.Schema.{Incident, Store, ApprovalRow}
use ai_oncall.Store.Incidents.{get_incident}
use ai_oncall.Store.Approvals.{has_request, get_pending_report, record_pending_approval}
use ai_oncall.Memory.Redact.{Patterns}
use ai_oncall.Runbook.Approval.{Gate, PendingApproval, submit, approved, outcome}
use ai_oncall.Executor.Report.{SuggestedAction, TriageReport, mutating_actions}
use ai_oncall.Flow.Report.{report_to_dict}
use ai_oncall.Flow.Submitting.{rows_survive, submit-KeptStore}
use ai_oncall.Flow.Registration.{Holds, same_Holds, asked-Holds, recorded_report}
use ai_oncall.Flow.Orchestrator.{
  Buttons, FlowConfig, Flow, on_gate, submitted, report_runbook, report_step, approval_text,
  approval_buttons, delivered, store_report, announce_request, register_actions,
  register_from_report, handle_action, run_report,
}
use ai_oncall.Brain.Validator.Sound.{IsWellFormed}
use ai_oncall.Executor.Runner.{Production}
use ai_oncall.Flow.Execution.{after_grant, approve-execute}

module _ ⦃h : Host⦄ where
  find_report :
      (r text : String) (o : Option ApprovalRow) (row : ApprovalRow)
      → o ≡ some row
      → row.report_json ≡ text
      → (elim o [ none ↦ none | some a ↦ some a.report_json ]) ≡ some text
  find_report r text o row e same = rw (e, same)

  stored_pending :
      (r i text : String) (s : Store)
      → any (has_request r) s.approval_requests ≡ false
      → get_pending_report r (record_pending_approval r i text s).1 ≡ some text
  unfolding get_pending_report record_pending_approval
  stored_pending r i text s fresh =
      rw fresh
        (find_report r text _ _ (recorded_report r text s.approval_requests _ fresh refl refl) refl)

module _ ⦃h : Host⦄ ⦃p : Patterns⦄ (c : FlowConfig) where
  delivered_gate :
      (d : Option (String → String → Buttons → Option Exn)) (i text : String) (b : Buttons)
      (f : Flow)
      → (delivered c d i text b f).1.gate ≡ f.gate
  delivered_gate none i text b f = refl
  delivered_gate (some deliver) i text b f = ground arith

  announced :
      (i r : String) (report : TriageReport) (as' : List SuggestedAction) (o : Option String)
      (f : Flow)
      → (announce_request c i report as' o f).0 ≡ ok (r ∷ [])
      → (o ≡ some r)
        × ((announce_request c i report as' o f).1.gate ≡ (store_report c r i report f).1.gate)
  announced i r report as' none f e = cc (ok-injective e)
  announced i r report as' (some r') f e =
      let (_, f1, q1, same1, e1) =
        bind_inv (store_report c r' i report)
          (λ _.
            delivered c c.deliver_buttons i (approval_text r' as') (approval_buttons r')
            >> pure (r' ∷ []))
          f (r ∷ []) e in
      let (_, f2, q2, same2, e2) =
        bind_inv (delivered c c.deliver_buttons i (approval_text r' as') (approval_buttons r'))
          (λ _. pure (r' ∷ [])) f1 (r ∷ []) e1 in
      let named : r' ≡ r = cc (ok-injective e2) in
      (
        ap some named,
        ap (λ t. t.1.gate) (same1 ∙ same2)
            ∙ (sym (ap (λ t. t.1.gate) q2)
                ∙ delivered_gate c.deliver_buttons i (approval_text r' as') (approval_buttons r')
                    f1)
            ∙ sym (ap (λ t. t.1.gate) q1)
            ∙ ap (λ n. (store_report c n i report f).1.gate) named,
      )

  registered_actions :
      (i r : String) (report : TriageReport) (as' : List SuggestedAction) (f : Flow)
      → (register_actions c i report as' f).0 ≡ ok (r ∷ [])
      → any (has_request r) f.gate.store.approval_requests ≡ false
      → Holds r i (register_actions c i report as' f).1.gate
        × (get_pending_report r (register_actions c i report as' f).1.gate.store
            ≡ some (h.dumps (obj (report_to_dict report))))
  unfolding submit
  registered_actions i r report [] f e fresh = cc (ok-injective e)
  registered_actions i r report (a ∷ as') f e fresh =
      let (o, f1, q, same, e1) =
        bind_inv (on_gate (submit c.gate i (report_runbook i) (report_step (a ∷ as'))))
          (λ o. announce_request c i report (a ∷ as') (submitted o)) f (r ∷ []) e in
      let (sub, gate_same) = announced i r report (a ∷ as') (submitted o) f1 e1 in
      let held : Holds r i f1.gate =
        subst (λ t. Holds r i t.1.gate) q
          (asked-Holds c.gate i (report_runbook i) (report_step (a ∷ as')) r f.gate o
            (ap (λ t. t.0) q) sub) in
      let rows : f1.gate.store.approval_requests ≡ f.gate.store.approval_requests =
        sym (ap (λ t. t.1.gate.store.approval_requests) q)
        ∙ (submit-KeptStore c.gate (λ t. t.approval_requests ≡ f.gate.store.approval_requests)
              (rows_survive f.gate.store.approval_requests) i (report_runbook i)
              (report_step (a ∷ as'))).at
            f.gate refl in
      let last : (register_actions c i report (a ∷ as') f).1.gate
          ≡ (store_report c r i report f1).1.gate =
        ap (λ t. t.1.gate) same ∙ gate_same in
      subst
        (λ (g : Gate).
          Holds r i g
          × (get_pending_report r g.store ≡ some (h.dumps (obj (report_to_dict report)))))
        (sym last)
        (
          same_Holds r i f1.gate (store_report c r i report f1).1.gate refl held,
          stored_pending r i (h.dumps (obj (report_to_dict report))) f1.gate.store
              (ap (any (has_request r)) rows ∙ fresh),
        )

  -- A report whose registration answers with a request waits for its approval: the gate holds the request as
  -- pending for this incident, and the store holds the report under its id, if that id is new to the store.
  pub register_from_report-Holds :
      (i r : String) (report : TriageReport) (f : Flow)
      → (register_from_report c i report f).0 ≡ ok (r ∷ [])
      → any (has_request r) f.gate.store.approval_requests ≡ false
      → let g = (register_from_report c i report f).1.gate in
        Holds r i g × (get_pending_report r g.store ≡ some (h.dumps (obj (report_to_dict report))))
  unfolding register_from_report
  register_from_report-Holds i r report f e fresh =
      registered_actions i r report (mutating_actions report) f e fresh

module _ ⦃h : Host⦄ ⦃p : Patterns⦄ ⦃x : Texts⦄ (c : FlowConfig) where
  -- From the report to its execution: once a report that keeps the contract of a report is registered, the
  -- approval of its request runs the executor on exactly that report, after the approval is on record.
  -- The id of the request is new to the store, and `json.loads` reads back what `json.dumps` wrote.
  pub register-approve :
      (i r by reason : String) (report : TriageReport) (f : Flow) (o : Production) (inc : Incident)
      → (register_from_report c i report f).0 ≡ ok (r ∷ [])
      → any (has_request r) f.gate.store.approval_requests ≡ false
      → get_incident i (register_from_report c i report f).1.gate.store ≡ some inc
      → c.runner ≡ some o
      → IsWellFormed report
      → x.loads (h.dumps (obj (report_to_dict report))) ≡ some (obj (report_to_dict report))
      → (q : PendingApproval) × (q.incident_id ≡ i)
        × (handle_action c "approve" r by reason (register_from_report c i report f).1
            ≡ (run_report c o report >> pure (outcome approved r))
                (after_grant r by q c (register_from_report c i report f).1))
  register-approve i r by reason report f o inc e fresh known runs w back =
      let (held, stored) = register_from_report-Holds c i r report f e fresh in
      let f' = (register_from_report c i report f).1 in
      (
        held.entry,
        held.of_incident,
        approve-execute c r by reason f' held.entry inc o report runs held.found held.is_pending
            (subst (λ j. get_incident j f'.gate.store ≡ some inc) (sym held.of_incident) known)
            stored back w,
      )
