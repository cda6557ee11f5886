-- ===== src/Tests/Alerts.antt =====
-- The intake of alerts at a concrete store.
use ai_oncall.Prelude.{
  if◌then◌else◌, ◌≡◌, ◌≢◌, refl, true, false, none, some, [], ◌∷◌, ◌++◌, any, sort_by,
}
use ai_oncall.Python.Exec.{ok, err, integrity_error}
use ai_oncall.Store.Schema.{Event}
use ai_oncall.Store.Timeline.{events_of}
use ai_oncall.Store.Incidents.{
  get_incident_by_fingerprint, create_incident, conflicts, is_recent, insert_incident,
  recent_unresolved_incidents,
}
use ai_oncall.Store.Rows.{statuses}
use ai_oncall.Store.Creation.{create_incident_again, new_incident, after_draw}
use ai_oncall.Incident.HashChain.Append.{after_read}
use ai_oncall.Incident.Correlate.{
  CorrelateResult, created, merged, ingest_alert, count_hits, label_intersection,
}
use ai_oncall.Incident.Correlate.Outcome.{
  match_of, ingest_alert_merges, ingest_alert_creates, ingest_alert_seen,
}
use ai_oncall.Tests.Fixture.{test_host, first, shop, labels}

matches_first : match_of labels shop ≡ some first
unfolding label_intersection count_hits sort_by is_recent
matches_first = refl

ingest_alert_merges_example :
    let t = (ingest_alert "fp-9" labels "slow" 2 shop).1 in
    ((ingest_alert "fp-9" labels "slow" 2 shop).0
      ≡ ok (record { incident = first; action = merged }))
    × (statuses t.incidents ≡ statuses shop.incidents)
    × ((e : Event) × (events_of "inc-1" t ≡ events_of "inc-1" shop ++ e ∷ [])
        × (e.kind ≡ "alert_merged"))
ingest_alert_merges_example = ingest_alert_merges "fp-9" labels "slow" 2 shop first matches_first

no_match : match_of [] shop ≡ none
unfolding label_intersection count_hits sort_by is_recent
no_match = refl

ingest_alert_creates_example :
    ingest_alert "fp-1" [] "slow" 2 shop ≡ (elim (get_incident_by_fingerprint "fp-1" shop) [
      | some inc ↦ (ok (record { incident = inc; action = merged }), after_draw (after_read shop))
      | none ↦
          if any (conflicts (new_incident "fp-1" 2 "slow" [] (after_read shop))) shop.incidents
          then (err integrity_error, after_draw (after_read shop))
          else (
            ok (record {
              incident = new_incident "fp-1" 2 "slow" [] (after_read shop);
              action = created;
            }),
            record (after_draw (after_read shop)) {
              incidents = shop.incidents ++ new_incident "fp-1" 2 "slow" [] (after_read shop) ∷ [];
            },
          )
    ])
ingest_alert_creates_example = ingest_alert_creates "fp-1" [] "slow" 2 shop no_match

seen : get_incident_by_fingerprint "fp-1" shop ≡ some first
unfolding get_incident_by_fingerprint
seen = refl

abbrev merged_first : CorrelateResult
merged_first = record { incident = first; action = merged }

answered : (ingest_alert "fp-1" [] "slow" 2 shop).0 ≡ ok merged_first
unfolding ingest_alert create_incident recent_unresolved_incidents get_incident_by_fingerprint
    label_intersection count_hits sort_by is_recent
answered = refl

ingest_alert_seen_example :
    (merged ≢ created)
    × (statuses (ingest_alert "fp-1" [] "slow" 2 shop).1.incidents ≡ statuses shop.incidents)
ingest_alert_seen_example =
    ingest_alert_seen "fp-1" [] "slow" 2 shop first merged_first seen answered

created_new :
    (create_incident "fp-9" 2 "slow" [] shop).0 ≡ ok (new_incident "fp-9" 2 "slow" [] shop, true)
unfolding create_incident get_incident_by_fingerprint insert_incident conflicts
created_new = refl

create_incident_again_example :
    let t = (create_incident "fp-9" 2 "slow" [] shop).1 in
    create_incident "fp-9" 1 "worse" labels t
    ≡ (ok (new_incident "fp-9" 2 "slow" [] shop, false), after_draw t)
create_incident_again_example =
    create_incident_again "fp-9" 2 1 "slow" "worse" [] labels shop
      (new_incident "fp-9" 2 "slow" [] shop) true created_new
