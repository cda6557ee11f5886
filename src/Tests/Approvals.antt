-- ===== src/Tests/Approvals.antt =====
-- The approval gate at concrete requests.
use ai_oncall.Prelude.{ℕ, ◌≡◌, ◌≢◌, ◌↔◌, refl, true, false, none, some, List, [], ◌∷◌, lookup}
use ai_oncall.Python.Exec.{ok}
use ai_oncall.Store.Incidents.{get_incident}
use ai_oncall.Store.Timeline.{has_timeline_kind, append_chained_event, insert_event}
use ai_oncall.Incident.HashChain.{append}
use ai_oncall.Runbook.Model.{RunbookStep, Runbook}
use ai_oncall.Runbook.Approval.{
  ApprovalState, pending, approved, abandoned, escalated, PendingApproval, GateConfig, Gate,
  fixed_admin, refusal, outcome, on_approve, on_reject, on_timeout, last_or,
}
use ai_oncall.Runbook.Approval.Deciding.{on_approve_once}
use ai_oncall.Runbook.Approval.TimingOut.{
  first_timeout_closes, on_timeout_abandons_iff, noted_twice, escalation_target,
}
use ai_oncall.Runbook.Approval.Consent.{Call, submits, rejects, times_out, run, run-no_consent}
use ai_oncall.Tests.Fixture.{test_host, test_patterns, first, shop}

abbrev pub config : GateConfig
config = record {
  notifier = none;
  next_target = fixed_admin;
  initial_target = "oncall";
  timeout_seconds = 900;
  provider = record { name = "fake"; embed = λ text. "[]" };
}

abbrev restart : RunbookStep
restart = record {
  name = "restart";
  action = "kubectl rollout restart";
  risk = "mutating";
  dry_run_capable = true;
}

abbrev book : Runbook
book = record { name = "pay"; service = "pay"; description = ""; steps = restart ∷ [] }

abbrev request_of : ApprovalState → ℕ → PendingApproval
request_of st timeouts = record {
  request_id = "appr-1";
  incident_id = "inc-1";
  step = restart;
  runbook_name = "pay";
  state = st;
  notified_targets = "oncall" ∷ [];
  timeout_count = timeouts;
}

abbrev gate_of : PendingApproval → Gate
gate_of q = record { store = shop; requests = ("appr-1", q) ∷ []; sent = [] }

abbrev waiting : Gate
waiting = gate_of (request_of pending 0)

abbrev late_once : Gate
late_once = gate_of (request_of escalated 1)

first_there : get_incident "inc-1" shop ≡ some first
unfolding get_incident
first_there = refl

approved_now : (on_approve config "appr-1" "ann" waiting).0 ≡ ok (outcome approved "appr-1")
unfolding on_approve get_incident append append_chained_event insert_event
approved_now = refl

on_approve_once_example :
    let g = (on_approve config "appr-1" "ann" waiting).1 in
    (on_approve config "appr-1" "bob" g ≡ (ok refusal, g))
    × (on_reject config "appr-1" "bob" "risky" g ≡ (ok refusal, g))
    × (on_timeout config "appr-1" g ≡ (ok refusal, g))
on_approve_once_example =
    on_approve_once config "appr-1" "ann" "bob" "risky" waiting (outcome approved "appr-1")
      approved_now refl

first_timeout_closes_example :
    let g = (on_timeout config "appr-1" waiting).1 in
    (on_approve config "appr-1" "ann" g ≡ (ok refusal, g))
    × (on_reject config "appr-1" "ann" "risky" g ≡ (ok refusal, g))
    × (lookup "appr-1" g.requests
        ≡ some (
            noted_twice config
              (request_of pending 0)
              (escalation_target config (request_of pending 0))))
first_timeout_closes_example =
    first_timeout_closes config "appr-1" "ann" "risky" waiting (request_of pending 0) refl refl refl
      refl

abbrev late_timeouts : ℕ
late_timeouts = 1

on_timeout_abandons_iff_example :
    ((on_timeout config "appr-1" late_once).0 ≡ ok (outcome abandoned "appr-1")) ↔ (
      (late_timeouts ≢ 0)
      × (config.next_target (last_or config.initial_target ("oncall" ∷ [])) ≡ none))
on_timeout_abandons_iff_example =
    on_timeout_abandons_iff config "appr-1" late_once (request_of escalated 1) first refl refl
      first_there

abbrev calls : List Call
calls = submits "inc-1" book restart ∷ times_out "appr-1" ∷ rejects "appr-1" "bob" "no" ∷ []

no_approval_yet : has_timeline_kind "inc-1" "approval_granted" shop ≡ false
unfolding has_timeline_kind
no_approval_yet = refl

run-no_consent_example :
    has_timeline_kind "inc-1" "approval_granted" (run config calls waiting).store ≡ false
run-no_consent_example = run-no_consent config "inc-1" calls waiting refl no_approval_yet
