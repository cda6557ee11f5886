-- ===== src/Runbook/Approval.antt =====
-- runbook/approval.py: the state machine of the approval of a mutating step.
pub mod Deciding
pub mod TimingOut
pub mod Consent
use ai_oncall.Prelude.{
  ℕ, ◌+◌, String, ◌<>◌, ◌==◌, Bool, true, false, not, ◌||◌, Option, none, some, List, [], ◌∷◌, ◌++◌,
  Dict, lookup, insert, remove, nat_eq, if◌then◌else◌,
}
use ai_oncall.Python.Exec.{Exn, Exec, Result, ok, err, pure, gets, ◌>>=◌, ◌>>◌, when}
use ai_oncall.Python.Json.{Json, str, num, bool, strings, dict}
use ai_oncall.Python.Host.{Host}
use ai_oncall.Store.Schema.{Store, uuid_hex}
use ai_oncall.Memory.Redact.{Patterns}
use ai_oncall.Memory.Indexer.{EmbeddingProvider, no_metadata, index_override}
use ai_oncall.Incident.HashChain.{append}
use ai_oncall.Runbook.Model.{Runbook, RunbookStep}

pub data ApprovalState : Type 0 where
  auto_approved pending approved rejected escalated abandoned : ApprovalState

pub record PendingApproval : Type 0 where
  pub request_id : String
  pub incident_id : String
  pub step : RunbookStep
  pub runbook_name : String
  pub state : ApprovalState
  pub notified_targets : List String
  pub timeout_count : ℕ

pub record GateOutcome : Type 0 where
  pub state : ApprovalState
  pub request_id : Option String
  pub detail : String

-- What the gate is built with. The notifier is `None`, or an object whose `notify` returns or raises.
pub record GateConfig : Type 0 where
  pub notifier : Option (String → String → Option Exn)
  -- `escalation.next_target`
  pub next_target : String → Option String
  pub initial_target : String
  pub timeout_seconds : ℕ
  pub provider : EmbeddingProvider

-- The store, the dict `_pending`, and what the notifier was given.
pub record Gate : Type 0 where
  pub store : Store
  pub requests : Dict PendingApproval
  pub sent : List (String × String)

-- FixedAdminEscalation.next_target
abbrev pub fixed_admin : String → Option String
fixed_admin previous_target = none

-- A method of the store, called by the gate.
abbrev pub on_store : {A : Type 0} → Exec Store A → Exec Gate A
on_store m g = let r = m g.store in (r.0, record g { store = r.1 })

abbrev pub refusal : GateOutcome
refusal = record { state = rejected; request_id = none; detail = "unknown or non-pending request" }

abbrev pub outcome : ApprovalState → String → GateOutcome
outcome st request_id = record { state = st; request_id = some request_id; detail = "" }

abbrev pub auto_outcome : GateOutcome
auto_outcome = record {
  state = auto_approved;
  request_id = none;
  detail = "read-only auto-execute";
}

-- The entry of a request is replaced, or taken out.
abbrev pub put : PendingApproval → Gate → Gate
put p g = record g { requests = insert p.request_id p g.requests }

abbrev pub take_out : String → Gate → Gate
take_out r g = record g { requests = remove r g.requests }

abbrev pub is_state_pending : ApprovalState → Bool
is_state_pending pending = true
is_state_pending auto_approved = false
is_state_pending approved = false
is_state_pending rejected = false
is_state_pending escalated = false
is_state_pending abandoned = false

abbrev pub is_state_open : ApprovalState → Bool
is_state_open pending = true
is_state_open escalated = true
is_state_open auto_approved = false
is_state_open approved = false
is_state_open rejected = false
is_state_open abandoned = false

-- `_take(request_id, PENDING)`
abbrev pub if_pending : Option PendingApproval → Option PendingApproval
if_pending none = none
if_pending (some p) = if is_state_pending p.state then some p else none

abbrev pub last_or : String → List String → String
last_or d [] = d
last_or d (t ∷ ts) = last_or t ts

-- `next_target or last_target`
abbrev pub target_or : String → Option String → String
target_or last none = last
target_or last (some t) = if t == "" then last else t

abbrev pub is_some : Option String → Bool
is_some none = false
is_some (some t) = true

abbrev pub noted : PendingApproval → String → PendingApproval
noted q target = record q {
  state = escalated;
  notified_targets = q.notified_targets ++ target ∷ [];
}

abbrev pub reminder : PendingApproval → String → String
reminder q target = "[再次提醒] 批准請求 " <> (q.step.name <> (" 已逾時, 升級至 " <> target))

module _ (c : GateConfig) where
  tell : Option (String → String → Option Exn) → String → String → Exec Gate (Unit {0})
  tell none target text g = (ok tt, g)
  tell (some notify) target text g = elim (notify target text) [
    | none ↦ (ok tt, record g { sent = g.sent ++ (target, text) ∷ [] })
    | some e ↦ (err e, g)
  ]

  -- `_notify`: the target is noted in the request's entry before the notifier is called.
  unfoldable pub notify : PendingApproval → String → String → Exec Gate (Unit {0})
  unfolding tell
  notify p target text g =
      tell c.notifier target text
        (put (record p { notified_targets = p.notified_targets ++ target ∷ [] }) g)

module _ ⦃h : Host⦄ ⦃p : Patterns⦄ (c : GateConfig) where
  abbrev pub new_request : String → Runbook → RunbookStep → String → PendingApproval
  new_request incident_id runbook step request_id = record {
    request_id = request_id;
    incident_id = incident_id;
    step = step;
    runbook_name = runbook.name;
    state = pending;
    notified_targets = [];
    timeout_count = 0;
  }

  abbrev pub request_text : Runbook → RunbookStep → String
  request_text runbook step = "[" <> (runbook.name <> ("] 批准請求 " <> (step.name <> " (mutating)")))

  abbrev pub note_requested : String → RunbookStep → String → Exec Gate ℕ
  note_requested incident_id step request_id = on_store (
      append incident_id "approval_requested" (
        dict (
          ("request_id", str request_id)
          ∷ ("step", str step.name)
          ∷ ("target", str c.initial_target)
          ∷ ("timeout_seconds", num c.timeout_seconds)
          ∷ ("dry_run_capable", bool step.dry_run_capable)
          ∷ [])))

  abbrev pub register : String → Runbook → RunbookStep → String → Exec Gate GateOutcome
  register incident_id runbook step request_id = do
    let new = new_request incident_id runbook step request_id
    (λ g. (ok tt, put new g))
    notify c new c.initial_target (request_text runbook step)
    note_requested incident_id step request_id
    pure (outcome pending request_id)

  abbrev pub auto_approve : String → RunbookStep → Exec Gate GateOutcome
  auto_approve incident_id step = do
    on_store (
        append incident_id "approval_auto_approved"
          (dict (("step", str step.name) ∷ ("risk", str step.risk) ∷ [])))
    pure auto_outcome

  abbrev pub note_no_dry_run : String → RunbookStep → Exec Gate (Unit {0})
  note_no_dry_run incident_id step = do
    on_store (
        append incident_id "approval_dry_run_unavailable" (
          dict (
            ("step", str step.name)
            ∷ ("note", str "shell action cannot be previewed; stricter gate")
            ∷ [])))
    pure tt

  abbrev pub ask_approval : String → Runbook → RunbookStep → Exec Gate GateOutcome
  ask_approval incident_id runbook step = do
    when (not step.dry_run_capable) (note_no_dry_run incident_id step)
    digits ← on_store (uuid_hex 10)
    register incident_id runbook step ("appr-" <> digits)

  unfoldable pub submit : String → Runbook → RunbookStep → Exec Gate GateOutcome
  submit incident_id runbook step =
      if step.risk == "read-only"
      then auto_approve incident_id step
      else ask_approval incident_id runbook step

  -- The request is out of `_pending` when its event is written.
  abbrev pub grant : String → String → Option PendingApproval → Exec Gate GateOutcome
  grant request_id approved_by none g = (ok refusal, g)
  grant request_id approved_by (some q) g =
      (do
        on_store (
            append q.incident_id "approval_granted" (
              dict (
                ("request_id", str request_id)
                ∷ ("step", str q.step.name)
                ∷ ("by", str approved_by)
                ∷ [])))
        pure (outcome approved request_id))
        (take_out request_id g)

  unfoldable pub on_approve : String → String → Exec Gate GateOutcome
  on_approve request_id approved_by = do
    taken ← gets (λ g. if_pending (lookup request_id g.requests))
    grant request_id approved_by taken

  abbrev pub refuse : String → String → String → Option PendingApproval → Exec Gate GateOutcome
  refuse request_id rejected_by reason none g = (ok refusal, g)
  refuse request_id rejected_by reason (some q) g =
      (do
        on_store (
            append q.incident_id "approval_rejected" (
              dict (
                ("request_id", str request_id)
                ∷ ("step", str q.step.name)
                ∷ ("by", str rejected_by)
                ∷ ("reason", str reason)
                ∷ [])))
        on_store (index_override c.provider q.incident_id reason no_metadata)
        on_store (
            append q.incident_id "override_indexed_to_rag"
              (dict (("request_id", str request_id) ∷ ("reason", str reason) ∷ [])))
        pure (outcome rejected request_id))
        (take_out request_id g)

  unfoldable pub on_reject : String → String → String → Exec Gate GateOutcome
  on_reject request_id rejected_by reason = do
    taken ← gets (λ g. if_pending (lookup request_id g.requests))
    refuse request_id rejected_by reason taken

  abbrev pub report_escalated : String → PendingApproval → String → String → Exec Gate GateOutcome
  report_escalated request_id q last target = do
    on_store (
        append q.incident_id "approval_escalated"
          (dict (("request_id", str request_id) ∷ ("from", str last) ∷ ("to", str target) ∷ [])))
    pure (record {
      state = escalated;
      request_id = some request_id;
      detail = "escalated to " <> target;
    })

  -- The target is noted here, and once more by `_notify`.
  abbrev pub escalate : String → PendingApproval → String → String → Exec Gate GateOutcome
  escalate request_id q last target g =
      (notify c (noted q target) target (reminder q target)
          >> report_escalated request_id (noted q target) last target)
        (put (noted q target) g)

  abbrev pub abandon : String → PendingApproval → Exec Gate GateOutcome
  abandon request_id q g =
      (do
        on_store (
            append q.incident_id "approval_abandoned" (
              dict (
                ("request_id", str request_id)
                ∷ ("step", str q.step.name)
                ∷ ("attempts", strings q.notified_targets)
                ∷ ("timeouts", num q.timeout_count)
                ∷ ("note", str "incident remains open; trail preserved")
                ∷ [])))
        pure (outcome abandoned request_id))
        (take_out request_id g)

  -- `q` has its timeout counted already.
  abbrev pub time_out : String → PendingApproval → Exec Gate GateOutcome
  time_out request_id q =
      let last = last_or c.initial_target q.notified_targets in
      let following = c.next_target last in
      if nat_eq q.timeout_count 1 || is_some following
      then escalate request_id q last (target_or last following)
      else abandon request_id q

  abbrev pub time_out_entry : String → Option PendingApproval → Exec Gate GateOutcome
  time_out_entry request_id none = pure refusal
  time_out_entry request_id (some q) =
      if is_state_open q.state
      then time_out request_id (record q { timeout_count = q.timeout_count + 1 })
      else pure refusal

  unfoldable pub on_timeout : String → Exec Gate GateOutcome
  on_timeout request_id = do
    entry ← gets (λ g. lookup request_id g.requests)
    time_out_entry request_id entry
