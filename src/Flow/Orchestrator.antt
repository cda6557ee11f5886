-- ===== src/Flow/Orchestrator.antt =====
-- approval_flow.py: a report with mutating actions becomes a request, and its approval an execution. The
-- thread that calls `tick_timeouts` now and then, and the log lines, are left out.
use ai_oncall.Prelude.{
  ℕ, ◌+◌, String, ◌<>◌, ◌==◌, Bool, true, false, Option, none, some, List, [], ◌∷◌, ◌++◌, map, ltb,
  if◌then◌else◌,
}
use ai_oncall.Python.Exec.{
  Exn, Exec, Result, ok, err, value_error, other_error, pure, gets, ◌>>=◌, ◌>>◌, when,
}
use ai_oncall.Python.Json.{Json, obj}
use ai_oncall.Python.Host.{Host}
use ai_oncall.Python.Texts.{Texts, join}
use ai_oncall.Store.Schema.{ApprovalRow, Store, time}
use ai_oncall.Store.Approvals.{
  record_pending_approval, get_pending_report, mark_approval_done, list_pending_approvals,
}
use ai_oncall.Memory.Redact.{Patterns}
use ai_oncall.Runbook.Model.{Runbook, RunbookStep}
use ai_oncall.Runbook.Approval.{
  ApprovalState, pending, approved, rejected, abandoned, GateOutcome, GateConfig, Gate,
  is_state_pending, submit, on_approve, on_reject, on_timeout,
}
use ai_oncall.Executor.Report.{SuggestedAction, TriageReport, mutating_actions}
use ai_oncall.Executor.Runner.{Production, Command, Site, execute}
use ai_oncall.Brain.Validator.{validate_report}
use ai_oncall.Flow.Report.{report_to_dict}

-- The buttons of a message: what each sends back, and its label.
abbrev pub Buttons : Type 0
Buttons = List (String × String)

pub record FlowConfig : Type 0 where
  pub gate : GateConfig
  -- the executor, or None
  pub runner : Option Production
  pub timeout_seconds : ℕ
  -- the notifier, or None; `deliver_buttons` returns or raises
  pub deliver_buttons : Option (String → String → Buttons → Option Exn)

-- The gate with the store, the commands that were run, and the messages that were delivered.
pub record Flow : Type 0 where
  pub gate : Gate
  pub commands : List Command
  pub messages : List (String × Buttons)

abbrev pub on_gate : {A : Type 0} → Exec Gate A → Exec Flow A
on_gate m f = let r = m f.gate in (r.0, record f { gate = r.1 })

abbrev pub on_flow_store : {A : Type 0} → Exec Store A → Exec Flow A
on_flow_store m f =
    let r = m f.gate.store in (r.0, record f { gate = record f.gate { store = r.1 } })

abbrev pub on_runner : {A : Type 0} → Exec Site A → Exec Flow A
on_runner m f =
    let r = m (record { store = f.gate.store; commands = f.commands }) in
    (r.0, record f { gate = record f.gate { store = r.1.store }; commands = r.1.commands })

abbrev pub is_state_approved : ApprovalState → Bool
is_state_approved approved = true
is_state_approved _ = false

abbrev pub is_state_rejected : ApprovalState → Bool
is_state_rejected rejected = true
is_state_rejected _ = false

abbrev pub is_state_abandoned : ApprovalState → Bool
is_state_abandoned abandoned = true
is_state_abandoned _ = false

-- The request that was submitted, if it is pending.
abbrev pub submitted : GateOutcome → Option String
submitted o = if is_state_pending o.state then o.request_id else none

abbrev pub report_runbook : String → Runbook
report_runbook i = record {
  name = "report-" <> i;
  service = i;
  description = "triage report actions for " <> i;
  steps = [];
}

abbrev pub report_step : List SuggestedAction → RunbookStep
report_step actions = record {
  name = "triage-mutating-actions";
  action = join "; " (map (λ a. a.action) actions);
  risk = "mutating";
  dry_run_capable = false;
}

abbrev pub approval_text : String → List SuggestedAction → String
approval_text request_id actions =
    "⚠\u{fe0f} 批准請求 " <> (request_id <> ("\n" <> join "; " (map (λ a. a.action) actions)))

abbrev pub approval_buttons : String → Buttons
approval_buttons r = ("approve:" <> r, "✅批准") ∷ ("reject:" <> (r <> ":已另行處理"), "❌拒絕") ∷ []

abbrev pub unknown_kind : GateOutcome
unknown_kind = record { state = pending; request_id = none; detail = "unknown kind" }

module _ (c : FlowConfig) where
  abbrev pub delivered :
      Option (String → String → Buttons → Option Exn)
      → String
      → String
      → Buttons
      → Exec Flow (Unit {0})
  delivered none i text buttons f = (ok tt, f)
  delivered (some deliver) i text buttons f = elim (deliver i text buttons) [
    | none ↦ (ok tt, record f { messages = f.messages ++ (text, buttons) ∷ [] })
    | some e ↦ (err e, f)
  ]

module _ ⦃h : Host⦄ ⦃p : Patterns⦄ (c : FlowConfig) where
  abbrev pub store_report : String → String → TriageReport → Exec Flow (Unit {0})
  store_report request_id i report =
      on_flow_store (record_pending_approval request_id i (h.dumps (obj (report_to_dict report))))

  abbrev pub announce_request :
      String → TriageReport → List SuggestedAction → Option String → Exec Flow (List String)
  announce_request i report actions none = pure []
  announce_request i report actions (some request_id) = do
    store_report request_id i report
    delivered c c.deliver_buttons i (approval_text request_id actions) (approval_buttons request_id)
    pure (request_id ∷ [])

  abbrev pub register_actions :
      String → TriageReport → List SuggestedAction → Exec Flow (List String)
  register_actions i report [] = pure []
  register_actions i report (a ∷ as') = do
    outcome ← on_gate (submit c.gate i (report_runbook i) (report_step (a ∷ as')))
    announce_request i report (a ∷ as') (submitted outcome)

  unfoldable pub register_from_report : String → TriageReport → Exec Flow (List String)
  register_from_report i report = register_actions i report (mutating_actions report)

  abbrev pub mark_done : String → String → Exec Flow (Unit {0})
  mark_done request_id state = on_flow_store (mark_approval_done request_id state)

  -- A round of `tick_timeouts` for a row: whether it counts as handled.
  abbrev pub tick_row : ℕ → ApprovalRow → Exec Flow ℕ
  tick_row now row = if ltb now (row.created_at + c.timeout_seconds) then pure 0 else (do
    outcome ← on_gate (on_timeout c.gate row.request_id)
    when (is_state_abandoned outcome.state) (mark_done row.request_id "abandoned")
    pure 1)

  unfoldable pub tick_rows : ℕ → List ApprovalRow → Exec Flow ℕ
  tick_rows now [] = pure 0
  tick_rows now (row ∷ rows) = do n ← tick_row now row; m ← tick_rows now rows; pure (n + m)

  unfoldable pub tick_timeouts : Exec Flow ℕ
  tick_timeouts = do
    now ← on_flow_store time
    rows ← gets (λ f. list_pending_approvals f.gate.store)
    tick_rows now rows

-- `validate_report(json.loads(report_json))`
abbrev pub as_report : ⦃x : Texts⦄ → Option Json → Result TriageReport
as_report none = err (value_error "invalid JSON")
as_report (some (obj fs)) = validate_report fs none
as_report (some _) = err (other_error "object has no attribute 'get'")

module _ ⦃h : Host⦄ ⦃p : Patterns⦄ ⦃x : Texts⦄ (c : FlowConfig) where
  abbrev pub run_report : Production → TriageReport → Exec Flow (Unit {0})
  run_report o report = do on_runner (execute o report.incident_id report); pure tt

  abbrev pub execute_stored : String → Option Production → Option String → Exec Flow (Unit {0})
  execute_stored request_id runner none = pure tt
  execute_stored request_id none (some text) = mark_done c request_id "approved_no_executor"
  execute_stored request_id (some o) (some text) = do
    report ← (λ f. (as_report (x.loads text), f))
    run_report o report

  unfoldable pub execute_approved : String → Exec Flow (Unit {0})
  execute_approved request_id = do
    text ← gets (λ f. get_pending_report request_id f.gate.store)
    execute_stored request_id c.runner text

  abbrev pub handle_approve : String → String → Exec Flow GateOutcome
  handle_approve request_id user = do
    outcome ← on_gate (on_approve c.gate request_id user)
    when (is_state_approved outcome.state) (execute_approved request_id)
    pure outcome

  abbrev pub handle_reject : String → String → String → Exec Flow GateOutcome
  handle_reject request_id user reason = do
    outcome ← on_gate (on_reject c.gate request_id user reason)
    when (is_state_rejected outcome.state) (mark_done c request_id "rejected")
    pure outcome

  unfoldable pub handle_action : String → String → String → String → Exec Flow GateOutcome
  handle_action kind request_id user reason =
      if kind == "approve"
      then handle_approve request_id user
      else if kind == "reject"
      then handle_reject request_id user reason
      else pure unknown_kind
