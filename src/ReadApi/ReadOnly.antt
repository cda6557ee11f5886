-- ===== src/ReadApi/ReadOnly.antt =====
-- readapi/__init__.py: what a request does to the database.
use ai_oncall.Prelude.{String, ◌≡◌, refl, ap, ◌∙◌, Option, none, some, List, [], ◌∷◌, ◌==◌}
use ai_oncall.Python.Exec.{next, catch, Result, ok, err, pure, gets, handle}
use ai_oncall.Python.Preserves.{
  Preserves, Preserves-pure, Preserves-bind, Preserves-gets, Preserves-if,
}
use ai_oncall.Python.Host.{Host}
use ai_oncall.Python.Texts.{Texts}
use ai_oncall.Store.Schema.{Incident, Event, Prediction, Store}
use ai_oncall.Store.Incidents.{get_incident}
use ai_oncall.Store.Timeline.{events_of}
use ai_oncall.Store.Records.{latest_prediction}
use ai_oncall.ReadApi.{
  Requests, Response, failed, healthy, incident_detail, Query, value_of, status_of, on_int, decoded,
  entry_of, lift, decode_events, decode_prediction, detail_of, get_detail, get_action_items,
  get_stats, number_of, get_incident_page, get_runbooks, late_routes, incident_routes, route,
  do_get,
}

-- The tables of the database, whatever the number of readings of the clock is.
abbrev pub tables_of : Store → Store
tables_of s = record s { reads = 0 }

module _ (s₀ : Store) where
  -- The tables are as they were when the request came.
  abbrev pub Untouched : Store → Type 0
  Untouched s = tables_of s ≡ tables_of s₀

  lift-Preserves : {A : Type 0} (r : Result A) → Preserves Untouched (lift r)
  lift-Preserves r = record { at = λ s p. p }

  get_action_items-Preserves : (qs : Query) → Preserves Untouched (get_action_items qs)
  unfolding get_action_items
  get_action_items-Preserves qs =
      Preserves-bind (lift (status_of qs)) _ (lift-Preserves (status_of qs))
        (λ st. record { at = λ s p. p })

  module _ ⦃h : Host⦄ where
    get_stats-Preserves : Preserves Untouched get_stats
    unfolding get_stats
    get_stats-Preserves = record { at = λ s p. p }

  module _ ⦃x : Texts⦄ where
    decode_events-Preserves : (es : List Event) → Preserves Untouched (decode_events es)
    unfolding decode_events
    decode_events-Preserves [] = Preserves-pure []
    decode_events-Preserves (e ∷ es) =
        Preserves-bind (lift (decoded (x.loads e.payload_json))) _
          (lift-Preserves (decoded (x.loads e.payload_json)))
          (λ v.
            Preserves-bind (decode_events es) _ (decode_events-Preserves es)
              (λ rest. Preserves-pure (entry_of e v ∷ rest)))

    decode_prediction-Preserves :
        (p : Option Prediction) → Preserves Untouched (decode_prediction p)
    decode_prediction-Preserves none = Preserves-pure none
    decode_prediction-Preserves (some p) =
        Preserves-bind (lift (decoded (x.loads p.hypotheses_json))) _
          (lift-Preserves (decoded (x.loads p.hypotheses_json))) (λ v. Preserves-pure (some v))

    detail_of-Preserves :
        (i : String) (inc : Option Incident) → Preserves Untouched (detail_of i inc)
    detail_of-Preserves i none = Preserves-pure (failed 404 "not found")
    detail_of-Preserves i (some inc) =
        Preserves-bind (gets (events_of i)) _ (Preserves-gets (events_of i)) (λ rows.
          Preserves-bind (decode_events rows) _ (decode_events-Preserves rows) (λ timeline.
            Preserves-bind (gets (latest_prediction i)) _ (Preserves-gets (latest_prediction i))
              (λ latest.
                Preserves-bind (decode_prediction latest) _ (decode_prediction-Preserves latest)
                  (λ p. Preserves-pure (incident_detail inc timeline p)))))

    get_detail-Preserves : (i : String) → Preserves Untouched (get_detail i)
    unfolding get_detail
    get_detail-Preserves i =
        Preserves-bind (gets (get_incident i)) _ (Preserves-gets (get_incident i))
          (detail_of-Preserves i)

  module _ (c : Requests) where
    number_of-Preserves :
        (name d : String) (qs : Query) → Preserves Untouched (number_of c name d qs)
    number_of-Preserves name d qs =
        Preserves-bind (lift (value_of name d qs)) _ (lift-Preserves (value_of name d qs))
          (λ t. lift-Preserves (on_int (c.int_of t)))

    get_incident_page-Preserves : (qs : Query) → Preserves Untouched (get_incident_page c qs)
    unfolding get_incident_page
    get_incident_page-Preserves qs =
        Preserves-bind (lift (status_of qs)) _ (lift-Preserves (status_of qs)) (λ st.
          Preserves-bind (number_of c "page" "1" qs) _ (number_of-Preserves "page" "1" qs) (λ page.
            Preserves-bind (number_of c "page_size" "20" qs) _
              (number_of-Preserves "page_size" "20" qs)
              (λ size.
                Preserves-bind (lift (value_of "sort" "newest" qs)) _
                  (lift-Preserves (value_of "sort" "newest" qs))
                  (λ sort. record { at = λ s p. p }))))

    get_runbooks-Preserves : Preserves Untouched (get_runbooks c)
    unfolding get_runbooks
    get_runbooks-Preserves = record { at = λ s p. p }

  module _ ⦃h : Host⦄ ⦃x : Texts⦄ (c : Requests) where
    late_routes-Preserves :
        (path : String) (qs : Query) → Preserves Untouched (late_routes c path qs)
    late_routes-Preserves path qs =
        Preserves-if (path == "/api/action-items") _ _ (λ _. get_action_items-Preserves qs)
          (λ _.
            Preserves-if (path == "/api/runbooks") _ _ (λ _. get_runbooks-Preserves c)
              (λ _.
                Preserves-if (path == "/api/stats") _ _ (λ _. get_stats-Preserves)
                  (λ _. Preserves-pure (failed 404 "not found"))))

    incident_routes-Preserves :
        (i : Option String) (path : String) (qs : Query)
        → Preserves Untouched (incident_routes c i path qs)
    incident_routes-Preserves none path qs = late_routes-Preserves path qs
    incident_routes-Preserves (some i) path qs = get_detail-Preserves i

    route-Preserves : (path : String) (qs : Query) → Preserves Untouched (route c path qs)
    route-Preserves path qs =
        Preserves-if (path == "/healthz") _ _ (λ _. Preserves-pure healthy)
          (λ _.
            Preserves-if (path == "/api/incidents") _ _ (λ _. get_incident_page-Preserves c qs)
              (λ _. incident_routes-Preserves (c.incident_path path) path qs))

-- What the client gets of a handler that returns, and of one that raises.
abbrev pub response_of : Result Response → Response
response_of (ok a) = a
response_of (err e) = failed 500 "internal error"

-- What a request comes to, where `raw` is its path and query as parsed.
abbrev pub outcome_of :
    Result (String × Query) → (String → Query → Result Response) → Result Response
outcome_of (err e) handled = err e
outcome_of (ok (path, qs)) handled = ok (response_of (handled path qs))

caught :
    (m : Result Response × Store)
    → handle m.0 m.1 (λ _. pure (failed 500 "internal error")) ≡ (ok (response_of m.0), m.1)
caught (ok a, s) = refl
caught (err x, s) = refl

module _ ⦃h : Host⦄ ⦃x : Texts⦄ (c : Requests) where
  parsed_lem :
      (r : Result (String × Query)) (s : Store)
      → let m =
          next r s
            (λ asked. catch (route c asked.0 asked.1) (λ e. pure (failed 500 "internal error"))) in
        (m.0 ≡ outcome_of r (λ path qs. (route c path qs s).0)) × Untouched s m.1
  parsed_lem (err e) s = (refl, refl)
  parsed_lem (ok (path, qs)) s =
      let done = caught (route c path qs s) in
      (ap (λ m. m.0) done, ap (λ m. tables_of m.1) done ∙ (route-Preserves s c path qs).at s refl)

  -- A request whose path and query are parsed is answered: with what its handler returns, and with status
  -- 500 in place of an exception of the handler. Where the parsing raises, that exception is left
  -- to the server. Either way the tables of the database are as they were.
  pub do_get-Untouched :
      (request : String) (s : Store)
      → ((do_get c request s).0 ≡ outcome_of (c.parsed request) (λ path qs. (route c path qs s).0))
        × Untouched s (do_get c request s).1
  unfolding do_get
  do_get-Untouched request s = parsed_lem (c.parsed request) s
