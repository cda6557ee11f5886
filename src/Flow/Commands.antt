-- ===== src/Flow/Commands.antt =====
-- approval_flow.py: nothing but an approval leads to a command.
use ai_oncall.Prelude.{
  ℕ, ◌+◌, String, ◌==◌, ◌≡◌, refl, ◌∙◌, Bool, false, Option, none, some, List, [], ◌∷◌, any, arith,
  ltb,
}
use ai_oncall.Python.Exec.{Exn, Exec, pure, gets, ◌>>◌, when}
use ai_oncall.Python.Preserves.{
  Preserves, Preserves-pure, Preserves-gets, Preserves-bind, Preserves-then, Preserves-when,
  Preserves-if,
}
use ai_oncall.Python.Host.{Host}
use ai_oncall.Python.Texts.{Texts}
use ai_oncall.Store.Schema.{ApprovalRow, time}
use ai_oncall.Store.Approvals.{list_pending_approvals}
use ai_oncall.Memory.Redact.{Patterns}
use ai_oncall.Runbook.Approval.{submit, on_reject, on_timeout}
use ai_oncall.Executor.Report.{SuggestedAction, TriageReport, mutating_actions}
use ai_oncall.Executor.Runner.{Command}
use ai_oncall.Flow.Orchestrator.{
  Buttons, FlowConfig, Flow, on_gate, on_flow_store, submitted, report_runbook, report_step,
  approval_text, approval_buttons, unknown_kind, delivered, store_report, announce_request,
  register_actions, register_from_report, mark_done, is_state_rejected, is_state_abandoned,
  tick_row, tick_rows, tick_timeouts, handle_reject, handle_action,
}

-- What reaches the orchestrator: a report, a decision from the chat, or a round of the scheduler.
pub data Event : Type 0 where
  registers : String → TriageReport → Event
  acts : (kind request_id user reason : String) → Event
  ticks : Event

abbrev pub is_approve : Event → Bool
is_approve (registers i report) = false
is_approve (acts kind request_id user reason) = kind == "approve"
is_approve ticks = false

module _ ⦃h : Host⦄ ⦃p : Patterns⦄ ⦃x : Texts⦄ (c : FlowConfig) where
  unfoldable pub perform : Event → Exec Flow (Unit {0})
  perform (registers i report) = do register_from_report c i report; pure tt
  perform (acts kind request_id user reason) = do
    handle_action c kind request_id user reason
    pure tt
  perform ticks = do tick_timeouts c; pure tt

  -- A history of events, each from the state that the one before it left, also where that one raised.
  unfoldable pub run : List Event → Flow → Flow
  run [] f = f
  run (e ∷ es) f = run es (perform e f).1

  module _ (cs : List Command) where
    abbrev HasRun : Flow → Type 0
    HasRun f = f.commands ≡ cs

    delivered-HasRun :
        (d : Option (String → String → Buttons → Option Exn)) (i text : String) (buttons : Buttons)
        → Preserves HasRun (delivered c d i text buttons)
    delivered-HasRun none i text buttons = record { at = λ f e. e }
    delivered-HasRun (some deliver) i text buttons = record { at = λ f e. ground arith }

    announced-HasRun :
        (i : String) (report : TriageReport) (as' : List SuggestedAction) (r : Option String)
        → Preserves HasRun (announce_request c i report as' r)
    announced-HasRun i report as' none = Preserves-pure []
    announced-HasRun i report as' (some r) =
        Preserves-then (store_report c r i report) _ (record { at = λ f e. e })
          (Preserves-then
            (delivered c c.deliver_buttons i (approval_text r as') (approval_buttons r)) _
            (delivered-HasRun c.deliver_buttons i (approval_text r as') (approval_buttons r))
            (Preserves-pure (r ∷ [])))

    registered-HasRun :
        (i : String) (report : TriageReport) (as' : List SuggestedAction)
        → Preserves HasRun (register_actions c i report as')
    registered-HasRun i report [] = Preserves-pure []
    registered-HasRun i report (a ∷ as') =
        Preserves-bind (on_gate (submit c.gate i (report_runbook i) (report_step (a ∷ as')))) _
          (record { at = λ f e. e }) (λ o. announced-HasRun i report (a ∷ as') (submitted o))

    row-HasRun : (now : ℕ) (row : ApprovalRow) → Preserves HasRun (tick_row c now row)
    row-HasRun now row =
        Preserves-if (ltb now (row.created_at + c.timeout_seconds)) _ _ (λ _. Preserves-pure 0)
          (λ _.
            Preserves-bind (on_gate (on_timeout c.gate row.request_id)) _ (record { at = λ f e. e })
              (λ o.
                Preserves-then
                  (when (is_state_abandoned o.state) (mark_done c row.request_id "abandoned")) _
                  (Preserves-when (is_state_abandoned o.state)
                    (mark_done c row.request_id "abandoned") (record { at = λ f e. e }))
                  (Preserves-pure 1)))

    rows-HasRun : (now : ℕ) (rows : List ApprovalRow) → Preserves HasRun (tick_rows c now rows)
    unfolding tick_rows
    rows-HasRun now [] = Preserves-pure 0
    rows-HasRun now (row ∷ rows) = Preserves-bind (tick_row c now row) _ (row-HasRun now row) (λ n.
        Preserves-bind (tick_rows c now rows) _ (rows-HasRun now rows)
          (λ m. Preserves-pure (n + m)))

    ticked-HasRun : Preserves HasRun (tick_timeouts c)
    unfolding tick_timeouts
    ticked-HasRun =
        Preserves-bind (on_flow_store time) _ (record { at = λ f e. e })
          (λ now.
            Preserves-bind (gets (λ f. list_pending_approvals f.gate.store)) _ (Preserves-gets _)
              (rows-HasRun now))

    rejected-HasRun : (r user reason : String) → Preserves HasRun (handle_reject c r user reason)
    rejected-HasRun r user reason =
        Preserves-bind (on_gate (on_reject c.gate r user reason)) _ (record { at = λ f e. e })
          (λ o.
            Preserves-then (when (is_state_rejected o.state) (mark_done c r "rejected")) _
              (Preserves-when (is_state_rejected o.state) (mark_done c r "rejected")
                (record { at = λ f e. e }))
              (Preserves-pure o))

    acted-HasRun :
        (kind r user reason : String)
        → (kind == "approve") ≡ false
        → Preserves HasRun (handle_action c kind r user reason)
    unfolding handle_action
    acted-HasRun kind r user reason n =
        Preserves-if (kind == "approve") _ _ (λ y. cc)
          (λ _.
            Preserves-if (kind == "reject") _ _ (λ _. rejected-HasRun r user reason)
              (λ _. Preserves-pure unknown_kind))

    performed-HasRun : (e : Event) → is_approve e ≡ false → Preserves HasRun (perform e)
    unfolding perform register_from_report
    performed-HasRun (registers i report) n =
        Preserves-bind (register_from_report c i report) _
          (registered-HasRun i report (mutating_actions report)) (λ ids. Preserves-pure tt)
    performed-HasRun (acts kind r user reason) n =
        Preserves-bind (handle_action c kind r user reason) _ (acted-HasRun kind r user reason n)
          (λ o. Preserves-pure tt)
    performed-HasRun ticks n =
        Preserves-bind (tick_timeouts c) _ ticked-HasRun (λ k. Preserves-pure tt)

  -- No history of reports, rejections, unknown callbacks and rounds of the scheduler runs a command.
  pub run-commands :
      (es : List Event) (f : Flow) → any is_approve es ≡ false → (run es f).commands ≡ f.commands
  unfolding run
  run-commands [] f n = refl
  run-commands (e ∷ es) f n =
      run-commands es (perform e f).1 (ground arith)
      ∙ (performed-HasRun f.commands e (ground arith)).at f refl
