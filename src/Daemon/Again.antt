-- ===== src/Daemon/Again.antt =====
-- grpc_servicer.py: an alert that is reported again.
use ai_oncall.Prelude.{
  suc, String, ◌==◌, ◌≡◌, refl, sym, ap, ◌∙◌, subst, Bool, true, false, none, some, find,
  if◌then◌else◌,
}
use ai_oncall.Python.Exec.{Exec, ok, pure, ◌>>=◌, bind_inv, bind_ok}
use ai_oncall.Python.Preserves.{Preserves, Preserves-pure, Preserves-then}
use ai_oncall.Python.Ensures.{Ensures, Ensures-pure, Ensures-bind}
use ai_oncall.Python.Host.{Host}
use ai_oncall.Python.Json.{Json}
use ai_oncall.Store.Schema.{Incident, Store}
use ai_oncall.Store.Incidents.{create_incident, get_incident_by_fingerprint, has_fingerprint}
use ai_oncall.Store.Timeline.{append_timeline}
use ai_oncall.Store.Creation.{create_incident_found, create_incident_seen, after_draw}
use ai_oncall.Brain.Triage.Incidents.{incidents-insert_event}
use ai_oncall.Daemon.Core.{Core, store_of, with_store, on_core_store}
use ai_oncall.Daemon.Servicer.{
  AlertEvent, ReportIncidentResponse, ServicerConfig, created_response, known_response,
  missing_event, note_created, start_triage, answer_report, report_incident,
}

-- The incident is found by its fingerprint.
abbrev pub IsFiled : String → Incident → Core → Type 0
IsFiled f inc c = get_incident_by_fingerprint f (store_of c) ≡ some inc

module _ ⦃h : Host⦄ where
  incidents-append_timeline :
      (i kind : String) (payload : Json) (s : Store)
      → (append_timeline i kind payload s).1.incidents ≡ s.incidents
  unfolding append_timeline
  incidents-append_timeline i kind payload s =
      incidents-insert_event i kind (h.dumps_sorted payload) (h.clock s.reads) none none
        (record s { reads = suc s.reads })

  pub filed-same :
      (f : String) (s t : Store)
      → s.incidents ≡ t.incidents
      → get_incident_by_fingerprint f s ≡ get_incident_by_fingerprint f t
  unfolding get_incident_by_fingerprint
  filed-same f s t e = ap (find (has_fingerprint f)) e

module _ ⦃h : Host⦄ (c : ServicerConfig) where
  note_created-IsFiled :
      (f : String) (inc' : Incident) (event : AlertEvent) (inc : Incident)
      → Preserves (IsFiled f inc') (note_created c event inc)
  note_created-IsFiled f inc' event inc = record {
    at = λ s w.
        filed-same f _ _ (incidents-append_timeline inc.id "incident_created" _ (store_of s)) ∙ w;
  }

  answered-IsFiled :
      (f : String) (event : AlertEvent) (inc : Incident) (b : Bool)
      → Preserves (IsFiled f inc) (start_triage c.run_triage inc.id)
      → Preserves (IsFiled f inc) (answer_report c event (inc, b))
  answered-IsFiled f event inc true k =
      Preserves-then (note_created c event inc) _ (note_created-IsFiled f inc event inc) (
        Preserves-then (start_triage c.run_triage inc.id) _ k
          (Preserves-pure (created_response inc.id)))
  answered-IsFiled f event inc false k = Preserves-pure (known_response inc.id)

  answered_id :
      (event : AlertEvent) (inc : Incident) (b : Bool)
      → Ensures
          (λ (r : ReportIncidentResponse). r.incident_id ≡ inc.id)
          (answer_report c event (inc, b))
  answered_id event inc true = Ensures-bind (note_created c event inc) _ (λ _.
      Ensures-bind (start_triage c.run_triage inc.id) _
        (λ _. Ensures-pure (created_response inc.id) refl))
  answered_id event inc false = Ensures-pure (known_response inc.id) refl

  reported_if :
      {A : Type 0} (b : Bool) (m n : Exec Core A) (s : Core)
      → b ≡ false
      → (if b then m else n) s ≡ n s
  reported_if b m n s e = rw e

  first_report :
      (event : AlertEvent) (s : Core) (r : ReportIncidentResponse)
      → (event.fingerprint == "") ≡ false
      → ((inc : Incident)
          → Preserves (IsFiled event.fingerprint inc) (start_triage c.run_triage inc.id))
      → (report_incident c event s).0 ≡ ok r
      → (inc : Incident) × IsFiled event.fingerprint inc (report_incident c event s).1
        × (r.incident_id ≡ inc.id)
  unfolding report_incident
  first_report event s r there keeps e =
      let f = event.fingerprint in
      let create = on_core_store (create_incident f event.severity event.summary event.labels) in
      let chosen =
        reported_if (f == "") (pure missing_event) (create >>= answer_report c event) s there in
      let (made, s1, q, same, e1) =
        bind_inv create (answer_report c event) s r (ap (λ t. t.0) (sym chosen) ∙ e) in
      let found : IsFiled f made.0 s1 =
        subst (λ t. IsFiled f made.0 t.1) q
          (create_incident_found f event.severity event.summary event.labels (store_of s) made.0
            made.1 (ap (λ t. t.0) q)) in
      (
        made.0,
        subst (λ t. IsFiled f made.0 t.1) (sym (chosen ∙ same))
            ((answered-IsFiled f event made.0 made.1 (keeps made.0)).at s1 found),
        (answered_id event made.0 made.1).at s1 r e1,
      )

  second_report :
      (event : AlertEvent) (t : Core) (inc : Incident)
      → (event.fingerprint == "") ≡ false
      → IsFiled event.fingerprint inc t
      → report_incident c event t
        ≡ (ok (known_response inc.id), with_store (after_draw (store_of t)) t)
  unfolding report_incident
  second_report event t inc there found =
      let create =
        on_core_store
          (create_incident event.fingerprint event.severity event.summary event.labels) in
      reported_if (event.fingerprint == "") (pure missing_event) (create >>= answer_report c event)
        t there
      ∙ bind_ok create (answer_report c event) t (
          ap (λ m. (m.0, with_store m.1 t))
            (create_incident_seen event.fingerprint event.severity event.summary event.labels
              (store_of t) inc found))

  -- An alert that was reported and answered, and is reported again, is answered with the same incident and
  -- as a duplicate. The triage is not started again, and no table changes. The triage that the servicer
  -- was given leaves the incidents findable by their fingerprints.
  pub report_incident_again :
      (event event' : AlertEvent) (s : Core) (r : ReportIncidentResponse)
      → (event.fingerprint == "") ≡ false
      → event'.fingerprint ≡ event.fingerprint
      → ((inc : Incident)
          → Preserves (IsFiled event.fingerprint inc) (start_triage c.run_triage inc.id))
      → (report_incident c event s).0 ≡ ok r
      → let t = (report_incident c event s).1 in
        report_incident c event' t
        ≡ (ok (known_response r.incident_id), with_store (after_draw (store_of t)) t)
  report_incident_again event event' s r there same_print keeps e =
      let (inc, found, named) = first_report event s r there keeps e in
      let t = (report_incident c event s).1 in
      second_report event' t inc (ap (λ f. f == "") same_print ∙ there)
        (subst (λ f. IsFiled f inc t) (sym same_print) found)
      ∙ ap (λ i. (ok (known_response i), with_store (after_draw (store_of t)) t)) (sym named)
