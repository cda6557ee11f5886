-- ===== src/Interact/Router/Admins.antt =====
-- Only an admin's callback can lead to an approval.
use ai_oncall.Prelude.{String, ◌==◌, ◌≡◌, refl, false, List, [], ◌∷◌, any, arith}
use ai_oncall.Python.Exec.{rbac_error}
use ai_oncall.Python.Preserves.{Preserves, Preserves-if, Preserves-pure, Preserves-raise}
use ai_oncall.Python.Host.{Host}
use ai_oncall.Store.Timeline.{has_timeline_kind}
use ai_oncall.Memory.Redact.{Patterns}
use ai_oncall.Runbook.Approval.{GateConfig, Gate, on_reject}
use ai_oncall.Runbook.Approval.Consent.{Granted, rejects, run, perform, run-no_consent}
use ai_oncall.Interact.Router.{
  CallbackEvent, RouterConfig, is_admin, handle_event, reason_required, snoozed,
}

module _ ⦃h : Host⦄ ⦃p : Patterns⦄ (c : GateConfig) (r : RouterConfig) where
  -- A history of callbacks, each from the state that the one before it left.
  unfoldable pub handle_all : List CallbackEvent → Gate → Gate
  handle_all [] g = g
  handle_all (event ∷ events) g = handle_all events (handle_event c r event g).1

  reject_quiet :
      (i rid user reason : String) → Preserves (Granted i false) (on_reject c rid user reason)
  unfolding run perform
  reject_quiet i rid user reason = record {
    at = λ g e. run-no_consent c i (rejects rid user reason ∷ []) g refl e;
  }

  event_quiet :
      (i : String) (event : CallbackEvent)
      → is_admin r event.user ≡ false
      → Preserves (Granted i false) (handle_event c r event)
  unfolding handle_event
  event_quiet i event outsider =
      Preserves-if (event.kind == "approve") _ _
        (λ _.
          Preserves-if (is_admin r event.user) _ _ (λ admin. cc (admin, outsider))
            (λ _. Preserves-raise (rbac_error event.user)))
        (λ _.
          Preserves-if (event.kind == "reject") _ _
            (λ _.
              Preserves-if (r.is_blank event.reason) _ _ (λ _. Preserves-pure reason_required)
                (λ _. reject_quiet i event.request_id event.user event.reason))
            (λ _. Preserves-pure (snoozed event.request_id)))

  -- No history of callbacks by users who are not admins, of whatever kind, puts an approval on the record
  -- of an incident that had none.
  pub handle_all-no_consent :
      (i : String) (events : List CallbackEvent) (g : Gate)
      → any (λ event. is_admin r event.user) events ≡ false
      → has_timeline_kind i "approval_granted" g.store ≡ false
      → has_timeline_kind i "approval_granted" (handle_all events g).store ≡ false
  unfolding handle_all
  handle_all-no_consent i [] g n e = e
  handle_all-no_consent i (event ∷ events) g n e =
      handle_all-no_consent i events (handle_event c r event g).1 (ground arith)
        ((event_quiet i event (ground arith)).at g e)
