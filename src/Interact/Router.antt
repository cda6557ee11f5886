-- ===== src/Interact/Router.antt =====
-- interact/__init__.py: the callbacks of the chat, and the check of the user before an approval.
pub mod Admins
use ai_oncall.Prelude.{
  String, ◌<>◌, ◌==◌, Bool, true, List, [], ◌∷◌, Option, none, some, any, if◌then◌else◌,
}
use ai_oncall.Python.Exec.{Exec, pure, raise, rbac_error}
use ai_oncall.Python.Host.{Host}
use ai_oncall.Memory.Redact.{Patterns}
use ai_oncall.Interact.Roster.{Roster}
use ai_oncall.Runbook.Approval.{
  GateConfig, Gate, GateOutcome, pending, rejected, on_approve, on_reject,
}

pub record CallbackEvent : Type 0 where
  pub request_id : String
  pub kind : String
  pub user : String
  pub reason : String

-- `is_blank` is `not s.strip()`.
pub record RouterConfig : Type 0 where
  pub roster : Roster
  pub admins : List String
  pub is_blank : String → Bool

abbrev pub admin_ids : RouterConfig → List String
admin_ids r = r.roster.manager ∷ r.roster.primary ∷ r.admins

unfoldable pub is_admin : RouterConfig → String → Bool
is_admin r user = any (λ x. x == user) (admin_ids r)

abbrev pub reason_required : GateOutcome
reason_required = record { state = rejected; request_id = none; detail = "reason required (F9)" }

abbrev pub snoozed : String → GateOutcome
snoozed r = record { state = pending; request_id = some r; detail = "snoozed" }

module _ ⦃h : Host⦄ ⦃p : Patterns⦄ (c : GateConfig) (r : RouterConfig) where
  unfoldable pub handle_event : CallbackEvent → Exec Gate GateOutcome
  handle_event event =
      if event.kind == "approve"
      then (if is_admin r event.user
          then on_approve c event.request_id event.user
          else raise (rbac_error event.user))
      else if event.kind == "reject"
      then (if r.is_blank event.reason
          then pure reason_required
          else on_reject c event.request_id event.user event.reason)
      else pure (snoozed event.request_id)
