-- ===== src/Incident/Correlate/Outcome.antt =====
-- What becomes of an alert: it is merged, or it opens an incident.
use ai_oncall.Prelude.{
  ℕ, suc, ◌-◌, ◌*◌, String, ◌≡◌, ◌≢◌, refl, sym, ap, ◌∙◌, Option, none, some, List, [], ◌∷◌, ◌++◌,
  Dict, find, any, filterb, sort_by, arith, eq_refl, Bool-cases, if◌then◌else◌, Option-cases, inl,
  inr, any_found, find_of_any, any-sort_by, any-filterb,
}
use ai_oncall.Python.Exec.{ok, err, integrity_error, next, ok-injective}
use ai_oncall.Python.Json.{Json, str, dict}
use ai_oncall.Python.Host.{Host}
use ai_oncall.Store.Schema.{Incident, Event, Store}
use ai_oncall.Store.Incidents.{
  has_id, get_incident, get_incident_by_fingerprint, create_incident, recent_unresolved_incidents,
  touch_incident, set_updated, precedes, created_desc, is_recent, conflicts,
}
use ai_oncall.Store.Timeline.{events_of}
use ai_oncall.Store.Rows.{statuses, statuses-set_updated}
use ai_oncall.Store.Creation.{
  new_incident, after_draw, create_incident_seen, create_incident_fresh, create_incident_conflict,
}
use ai_oncall.Incident.HashChain.{append}
use ai_oncall.Incident.HashChain.Append.{
  linked_event, append_known, events_of-append, incidents-append, after_read,
}
use ai_oncall.Incident.Correlate.{
  CorrelateResult, created, merged, shares_labels, merge_action, matched_labels, merge,
  create_result, ingest_alert, window_minutes,
}

module _ ⦃h : Host⦄ where
  -- The candidates of an alert: the incidents that are not resolved and were updated in the last five
  -- minutes, the latest first.
  abbrev pub candidates : Store → List Incident
  candidates s =
      sort_by (precedes created_desc)
        (filterb (is_recent (h.clock s.reads - window_minutes * 60 * h.second)) s.incidents)

  -- The first of them that shares two labels.
  abbrev pub match_of : Dict String → Store → Option Incident
  match_of labels s = find (shares_labels labels) (candidates s)

  match_known :
      (labels : Dict String) (s : Store) (c : Incident)
      → match_of labels s ≡ some c
      → (inc : Incident) × (get_incident c.id (after_read s) ≡ some inc)
  unfolding get_incident
  match_known labels s c m = find_of_any (has_id c.id) s.incidents (
      any-filterb (is_recent (h.clock s.reads - window_minutes * 60 * h.second)) (has_id c.id)
        s.incidents
        (sym (any-sort_by (precedes created_desc) (has_id c.id) _)
          ∙ any_found (shares_labels labels) (has_id c.id) (candidates s) c m (eq_refl c.id)))

  abbrev pub merge_payload : String → String → Dict String → Json
  merge_payload fingerprint summary labels = dict (
      ("fingerprint", str fingerprint)
      ∷ ("summary", str summary)
      ∷ ("matched_labels", matched_labels labels)
      ∷ [])

  ingest_matched :
      (f : String) (labels : Dict String) (summary : String) (severity : ℕ) (s : Store)
      (c : Incident)
      → match_of labels s ≡ some c
      → ingest_alert f labels summary severity s ≡ merge c f summary labels (after_read s)
  unfolding ingest_alert recent_unresolved_incidents
  ingest_matched f labels summary severity s c m = rw m

  ingest_unmatched :
      (f : String) (labels : Dict String) (summary : String) (severity : ℕ) (s : Store)
      → match_of labels s ≡ none
      → ingest_alert f labels summary severity s ≡ (
          let r = create_incident f severity summary labels (after_read s) in
          next r.0 r.1 (λ p t. (ok (create_result p), t)))
  unfolding ingest_alert recent_unresolved_incidents
  ingest_unmatched f labels summary severity s m = rw m

  abbrev touched_store : Incident → Store → Store
  touched_store c w = record w {
    incidents = set_updated c.id (h.clock w.reads) w.incidents;
    reads = suc w.reads;
  }

  merge_known :
      (c : Incident) (f summary : String) (labels : Dict String) (u : Store) (inc : Incident)
      → get_incident c.id u ≡ some inc
      → merge c f summary labels u ≡ (
        ok (record { incident = c; action = merge_action c }),
        touched_store c (append c.id "alert_merged" (merge_payload f summary labels) u).1,
      )
  unfolding merge touch_incident
  merge_known c f summary labels u inc e =
      rw (append_known c.id "alert_merged" (merge_payload f summary labels) u inc e)

  -- An alert that shares two labels with a recent unresolved incident is merged into the latest such one:
  -- no incident is opened and no status changes, and one event goes to the timeline of that incident. The
  -- answer is `recorded` if that incident is mitigated, and `merged` otherwise.
  pub ingest_alert_merges :
      (f : String) (labels : Dict String) (summary : String) (severity : ℕ) (s : Store)
      (c : Incident)
      → match_of labels s ≡ some c
      → let t = (ingest_alert f labels summary severity s).1 in
        ((ingest_alert f labels summary severity s).0
          ≡ ok (record { incident = c; action = merge_action c }))
        × (statuses t.incidents ≡ statuses s.incidents)
        × ((e : Event) × (events_of c.id t ≡ events_of c.id s ++ e ∷ [])
            × (e.kind ≡ "alert_merged"))
  unfolding events_of
  ingest_alert_merges f labels summary severity s c m =
      let (inc, known) = match_known labels s c m in
      let u = after_read s in
      let p : Json = merge_payload f summary labels in
      rw
        (ingest_matched f labels summary severity s c m, merge_known c f summary labels u inc known)
        (
          refl,
          statuses-set_updated c.id _ _ ∙ ap statuses (incidents-append c.id "alert_merged" p u),
          (
            linked_event c.id "alert_merged" p inc u,
            events_of-append c.id "alert_merged" p u inc known,
            refl,
          ),
        )

  -- An alert that matches no candidate: if an incident of its fingerprint is there, that one is returned
  -- as merged and no table changes. Otherwise, if no row has the drawn id, nor the fingerprint with the
  -- status `open`, one open incident with the fields of the alert is added and returned as created; and if
  -- such a row is there, IntegrityError is raised and no table changes.
  pub ingest_alert_creates :
      (f : String) (labels : Dict String) (summary : String) (severity : ℕ) (s : Store)
      → match_of labels s ≡ none
      → ingest_alert f labels summary severity s ≡ (elim (get_incident_by_fingerprint f s) [
        | some inc ↦ (ok (record { incident = inc; action = merged }), after_draw (after_read s))
        | none ↦
            if any (conflicts (new_incident f severity summary labels (after_read s))) s.incidents
            then (err integrity_error, after_draw (after_read s))
            else (
              ok (record {
                incident = new_incident f severity summary labels (after_read s);
                action = created;
              }),
              record (after_draw (after_read s)) {
                incidents =
                    s.incidents ++ new_incident f severity summary labels (after_read s) ∷ [];
              },
            )
      ])
  unfolding get_incident_by_fingerprint
  ingest_alert_creates f labels summary severity s m =
      rw (ingest_unmatched f labels summary severity s m)
        (elim (Option-cases (get_incident_by_fingerprint f s)) [
          | inl e ↦ elim (Bool-cases (any (conflicts new) s.incidents)) [
            | inl taken ↦ rw (
              e,
              taken,
              create_incident_conflict f severity summary labels (after_read s) e taken,
            )
            | inr free ↦
                rw (e, free, create_incident_fresh f severity summary labels (after_read s) e free)
          ]
          | inr (inc, e) ↦
              rw (e, create_incident_seen f severity summary labels (after_read s) inc e)
        ])
    where
      new : Incident
      new = new_incident f severity summary labels (after_read s)

  merge_action-ne : (c : Incident) → merge_action c ≢ created
  merge_action-ne c p = ground arith

  ingest_unmatched_seen :
      (f : String) (labels : Dict String) (summary : String) (severity : ℕ) (s : Store)
      (inc : Incident)
      → get_incident_by_fingerprint f s ≡ some inc
      → match_of labels s ≡ none
      → ingest_alert f labels summary severity s
        ≡ (ok (record { incident = inc; action = merged }), after_draw (after_read s))
  unfolding get_incident_by_fingerprint
  ingest_unmatched_seen f labels summary severity s inc e m =
      rw (ingest_unmatched f labels summary severity s m)
        (rw (create_incident_seen f severity summary labels (after_read s) inc e))

  -- A fingerprint that is there is never created again, whatever the labels of the alert.
  pub ingest_alert_seen :
      (f : String) (labels : Dict String) (summary : String) (severity : ℕ) (s : Store)
      (inc : Incident) (r : CorrelateResult)
      → get_incident_by_fingerprint f s ≡ some inc
      → (ingest_alert f labels summary severity s).0 ≡ ok r
      → (r.action ≢ created)
        × (statuses (ingest_alert f labels summary severity s).1.incidents ≡ statuses s.incidents)
  unfolding get_incident_by_fingerprint
  ingest_alert_seen f labels summary severity s inc r e returned =
      elim (Option-cases (match_of labels s)) [
        | inr (c, m) ↦
            let (answer, same, _) = ingest_alert_merges f labels summary severity s c m in
            (
              λ p.
                  merge_action-ne c (ap (λ x. x.action) (ok-injective (sym answer ∙ returned)) ∙ p),
              same,
            )
        | inl m ↦
            let seen = ingest_unmatched_seen f labels summary severity s inc e m in
            (
              λ p. cc (ap (λ x. x.action) (ok-injective (sym (ap (λ q. q.0) seen) ∙ returned)), p),
              ap (λ q. statuses q.1.incidents) seen,
            )
      ]
