-- ===== src/Tests/Records.antt =====
-- The counts of the store, the scores of the shadow mode and the callbacks at concrete inputs.
use ai_oncall.Prelude.{
  suc, ◌+◌, if◌then◌else◌, String, ◌==◌, ◌≡◌, refl, true, false, none, some, List, [], ◌∷◌,
  literal_ne, lookup, any,
}
use ai_oncall.Python.Exec.{ok}
use ai_oncall.Postmortem.{has_item_id, update_action_item, remind_overdue}
use ai_oncall.Postmortem.Reminders.{to_status, remind_overdue-update_action_item}
use ai_oncall.Store.Schema.{ActionItem, Store}
use ai_oncall.Store.Incidents.{count_incidents}
use ai_oncall.Store.Timeline.{has_timeline_kind}
use ai_oncall.Store.Records.{overdue_action_items, or_zero, count_incidents_by_status}
use ai_oncall.Store.Records.Counting.{count_by_status-count}
use ai_oncall.Shadow.{ShadowController, stats, record_score}
use ai_oncall.Shadow.Scores.{is_scored, counted_of, score_of, stats-record_score}
use ai_oncall.Runbook.Approval.{GateConfig, Gate, fixed_admin}
use ai_oncall.Interact.Roster.{roster_from_static}
use ai_oncall.Interact.Router.{CallbackEvent, RouterConfig, is_admin}
use ai_oncall.Interact.Router.Admins.{handle_all, handle_all-no_consent}
use ai_oncall.Tests.Fixture.{test_host, test_patterns, shop}

count_by_status-count_example :
    or_zero (lookup "resolved" (count_incidents_by_status shop))
    ≡ count_incidents (some "resolved") shop
count_by_status-count_example =
    count_by_status-count "resolved" shop (literal_ne "resolved" "" refl)

abbrev item_of : String → ActionItem
item_of i = record {
  id = i;
  incident_id = "inc-1";
  description = "add a probe";
  owner = "ann";
  due_ts = some 3;
  status = "open";
  created_at = 1;
}

abbrev followed_up : Store
followed_up = record shop { action_items = item_of "act-1" ∷ item_of "act-2" ∷ [] }

abbrev one_done : Store
one_done = (update_action_item "act-1" (to_status "done") followed_up).1

both_overdue : overdue_action_items 9 followed_up ≡ item_of "act-1" ∷ item_of "act-2" ∷ []
unfolding overdue_action_items
both_overdue = refl

one_overdue : overdue_action_items 9 one_done ≡ item_of "act-2" ∷ []
unfolding overdue_action_items update_action_item
one_overdue = refl

remind_overdue-update_action_item_example :
    ((r : List ActionItem × List ActionItem) × ((remind_overdue ⦃h = test_host⦄ true one_done).0
        ≡ ok r)
      × (any (has_item_id "act-1") r.0 ≡ false)
      × (any (has_item_id "act-1") r.1 ≡ false))
    × (any (has_item_id "act-2") (overdue_action_items 9 one_done)
        ≡ any (has_item_id "act-2") (overdue_action_items 9 followed_up))
remind_overdue-update_action_item_example =
    remind_overdue-update_action_item ⦃h = test_host⦄ "act-1" "act-2" "done" true 9 followed_up
      one_done refl refl refl

abbrev controller : ShadowController
controller = record {
  store = shop;
  enabled = true;
  required_reports = 30;
  required_cause_accuracy = record { top = 8; bottom = 10 };
  required_action_usability = record { top = 7; bottom = 10 };
}

-- The same controller after a first score of the incident.
abbrev scored_once : ShadowController
scored_once = (record_score "inc-1" true false "ann" controller).1

stats-record_score_example :
    let again = (record_score "inc-1" false true "bob" scored_once).1 in
    let former = score_of "inc-1" scored_once.store.shadow_scores in
    ((stats again).scored ≡ (
      if is_scored "inc-1" scored_once.store.shadow_scores
      then (stats scored_once).scored
      else suc (stats scored_once).scored))
    × ((stats again).cause_correct + counted_of (λ x. x.cause_correct) former
        ≡ (stats scored_once).cause_correct + 0)
    × ((stats again).action_usable + counted_of (λ x. x.action_usable) former
        ≡ (stats scored_once).action_usable + 1)
stats-record_score_example = stats-record_score "inc-1" "bob" false true scored_once

abbrev config : GateConfig
config = record {
  notifier = none;
  next_target = fixed_admin;
  initial_target = "oncall";
  timeout_seconds = 900;
  provider = record { name = "fake"; embed = λ text. "[]" };
}

abbrev router : RouterConfig
router = record {
  roster = roster_from_static "ann" "bob" "cleo";
  admins = [];
  is_blank = λ s. s == "";
}

abbrev event_of : String → String → CallbackEvent
event_of kind user = record { request_id = "appr-1"; kind = kind; user = user; reason = "no" }

abbrev gate : Gate
gate = record { store = shop; requests = []; sent = [] }

abbrev events : List CallbackEvent
events = event_of "approve" "bob" ∷ event_of "reject" "dan" ∷ []

none_admin : any (λ event. is_admin router event.user) events ≡ false
unfolding is_admin
none_admin = refl

not_granted : has_timeline_kind "inc-1" "approval_granted" shop ≡ false
unfolding has_timeline_kind
not_granted = refl

handle_all-no_consent_example :
    has_timeline_kind "inc-1" "approval_granted" (handle_all config router events gate).store
    ≡ false
handle_all-no_consent_example =
    handle_all-no_consent config router "inc-1" events gate none_admin not_granted
