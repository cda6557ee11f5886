-- ===== src/Tests/Lifecycle.antt =====
-- The lifecycle of the incidents at a concrete store.
use ai_oncall.Prelude.{◌≤◌, String, ◌≡◌, refl, true, false, some, List, [], ◌∷◌, ◌++◌}
use ai_oncall.Python.Exec.{ok}
use ai_oncall.Store.Schema.{Event}
use ai_oncall.Store.Timeline.{events_of}
use ai_oncall.Store.Incidents.{get_incident, clashes}
use ai_oncall.Incident.Machine.{transition, transitions, can_transition}
use ai_oncall.Incident.Machine.Status.{status_of, transition-outcome}
use ai_oncall.Incident.Machine.Lifecycle.{run, rank, run-rank, run-resolved}
use ai_oncall.Tests.Fixture.{test_host, first, shop}

first_there : get_incident "inc-1" shop ≡ some first
unfolding get_incident
first_there = refl

no_clash : clashes "inc-1" "investigating" shop.incidents ≡ false
unfolding clashes
no_clash = refl

allowed : can_transition "open" "investigating" ≡ true
unfolding can_transition transitions
allowed = refl

transition-outcome_example :
    let t = (transition "inc-1" "investigating" shop).1 in
    ((transition "inc-1" "investigating" shop).0 ≡ ok true)
    × (status_of "inc-1" t ≡ some "investigating")
    × ((e : Event) × (events_of "inc-1" t ≡ events_of "inc-1" shop ++ e ∷ [])
        × (e.kind ≡ "status_changed"))
unfolding can_transition transitions
transition-outcome_example =
    transition-outcome "inc-1" "investigating" shop first first_there no_clash

first_open : status_of "inc-1" shop ≡ some "open"
unfolding get_incident
first_open = refl

second_resolved : status_of "inc-2" shop ≡ some "resolved"
unfolding get_incident
second_resolved = refl

abbrev calls : List (String × String)
calls = ("inc-1", "investigating") ∷ ("inc-2", "open") ∷ ("inc-1", "mitigated") ∷ []

run-rank_example :
    (st : String) × (status_of "inc-1" (run calls shop) ≡ some st) × (rank "open" ≤ rank st)
run-rank_example = run-rank calls "inc-1" "open" shop first_open

run-resolved_example : status_of "inc-2" (run calls shop) ≡ some "resolved"
run-resolved_example = run-resolved calls "inc-2" shop second_resolved
