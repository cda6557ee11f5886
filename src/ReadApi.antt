-- ===== src/ReadApi.antt =====
-- readapi/__init__.py: the routes of the read-only HTTP API. A response is what the JSON text of the body is made of. The server and
-- the writing of the body are left out, and so are page numbers that 64 bits do not hold.
pub mod Pages
pub mod ReadOnly
use ai_oncall.Prelude.{
  ℕ, ◌-◌, ◌*◌, String, ◌==◌, Bool, true, false, Option, none, some, List, [], ◌∷◌, Dict, lookup,
  filterb, length, leb, map, if◌then◌else◌,
}
use ai_oncall.Python.Exec.{Exn, Exec, Result, ok, err, value_error, pure, gets, ◌>>=◌, ◌>>◌, catch}
use ai_oncall.Python.Json.{Json}
use ai_oncall.Python.Host.{Host}
use ai_oncall.Python.Texts.{Texts}
use ai_oncall.Store.Schema.{Incident, Event, Prediction, KnowledgeChunk, ActionItem, Store, time}
use ai_oncall.Store.Incidents.{get_incident, list_incidents, count_incidents}
use ai_oncall.Store.Timeline.{events_of}
use ai_oncall.Store.Records.{
  latest_prediction, list_action_items, query_knowledge_chunks, count_incidents_by_status,
  overdue_action_items, count_knowledge_chunks,
}

abbrev pub Query : Type 0
Query = Dict (List String)

-- What the handler uses of the request's texts: `urlparse(self.path)` with the path, less the slashes at its
-- end, or `/`, and `parse_qs` of the query, any of which may raise; `int(s)`, with 0 for a negative
-- number, which the bounds of a page raise to 1 alike, and None where it raises; the last part of a path
-- below the incidents, if it is one; and `s[:500]`.
pub record Requests : Type 0 where
  pub parsed : String → Result (String × Query)
  pub int_of : String → Option ℕ
  pub incident_path : String → Option String
  pub first_500 : String → String

pub record IncidentPage : Type 0 where
  pub items : List Incident
  pub page : ℕ
  pub page_size : ℕ
  pub total : ℕ

-- An entry of the timeline, with its payload decoded.
pub record TimelineEntry : Type 0 where
  pub id : ℕ
  pub kind : String
  pub payload : Json
  pub created_at : ℕ

pub record RunbookEntry : Type 0 where
  pub ref_id : Option String
  pub text : String
  pub indexed_at : ℕ

pub data Response : Type 0 where
  healthy : Response
  incident_page : IncidentPage → Response
  incident_detail : Incident → List TimelineEntry → Option Json → Response
  action_items : List ActionItem → (total : ℕ) → Response
  runbooks : List RunbookEntry → (total : ℕ) → Response
  statistics : Dict ℕ → (overdue chunks : ℕ) → Response
  failed : (code : ℕ) → String → Response

-- `qs.get(name, [d])[0]`
abbrev pub first_or : String → List String → Result String
first_or d [] = err (value_error "list index out of range")
first_or d (v ∷ vs) = ok v

abbrev pub value_of : String → String → Query → Result String
value_of name d qs = elim (lookup name qs) [ none ↦ ok d | some vs ↦ first_or d vs ]

-- `qs.get("status", [None])[0]`
abbrev pub first_status : List String → Result (Option String)
first_status [] = err (value_error "list index out of range")
first_status (v ∷ vs) = ok (some v)

abbrev pub status_of : Query → Result (Option String)
status_of qs = elim (lookup "status" qs) [ none ↦ ok none | some vs ↦ first_status vs ]

-- `max(1, n)` and `min(100, n)`
abbrev pub at_least_1 : ℕ → ℕ
at_least_1 n = if leb 1 n then n else 1

abbrev pub at_most_100 : ℕ → ℕ
at_most_100 n = if leb n 100 then n else 100

-- The order of the query's `sort`.
abbrev pub order_for : String → String
order_for sort = if sort == "oldest" then "created_at ASC" else "created_at DESC"

-- `_list_incidents`, where the parameters are read already
unfoldable pub page_of : Option String → ℕ → ℕ → String → Store → IncidentPage
page_of status page page_size order s = record {
  items = list_incidents status page_size ((page - 1) * page_size) order s;
  page = page;
  page_size = page_size;
  total = count_incidents status s;
}

abbrev pub has_status : Option String → ActionItem → Bool
has_status none item = true
has_status (some st) item = item.status == st

abbrev pub on_int : Option ℕ → Result ℕ
on_int none = err (value_error "invalid literal for int() with base 10")
on_int (some n) = ok n

abbrev pub decoded : Option Json → Result Json
decoded none = err (value_error "invalid JSON")
decoded (some v) = ok v

abbrev pub entry_of : Event → Json → TimelineEntry
entry_of e payload = record {
  id = e.id;
  kind = e.kind;
  payload = payload;
  created_at = e.created_at;
}

-- A result that touches no object, as a step of a handler.
abbrev pub lift : {A : Type 0} → Result A → Exec Store A
lift r s = (r, s)

module _ ⦃x : Texts⦄ where
  unfoldable pub decode_events : List Event → Exec Store (List TimelineEntry)
  decode_events [] = pure []
  decode_events (e ∷ es) = do
    payload ← lift (decoded (x.loads e.payload_json))
    rest ← decode_events es
    pure (entry_of e payload ∷ rest)

  abbrev pub decode_prediction : Option Prediction → Exec Store (Option Json)
  decode_prediction none = pure none
  decode_prediction (some p) = do v ← lift (decoded (x.loads p.hypotheses_json)); pure (some v)

  abbrev pub detail_of : String → Option Incident → Exec Store Response
  detail_of i none = pure (failed 404 "not found")
  detail_of i (some inc) = do
    rows ← gets (events_of i)
    timeline ← decode_events rows
    latest ← gets (latest_prediction i)
    prediction ← decode_prediction latest
    pure (incident_detail inc timeline prediction)

  unfoldable pub get_detail : String → Exec Store Response
  get_detail i = do inc ← gets (get_incident i); detail_of i inc

unfoldable pub get_action_items : Query → Exec Store Response
get_action_items qs = do
  status ← lift (status_of qs)
  rows ← gets (λ s. filterb (has_status status) (list_action_items none s))
  pure (action_items rows (length rows))

module _ ⦃h : Host⦄ where
  unfoldable pub get_stats : Exec Store Response
  get_stats = do
    by_status ← gets count_incidents_by_status
    now ← time
    overdue ← gets (λ s. length (overdue_action_items now s))
    chunks ← gets count_knowledge_chunks
    pure (statistics by_status overdue chunks)

module _ (c : Requests) where
  abbrev pub number_of : String → String → Query → Exec Store ℕ
  number_of name d qs = do text ← lift (value_of name d qs); lift (on_int (c.int_of text))

  unfoldable pub get_incident_page : Query → Exec Store Response
  get_incident_page qs = do
    status ← lift (status_of qs)
    page ← number_of "page" "1" qs
    page_size ← number_of "page_size" "20" qs
    sort ← lift (value_of "sort" "newest" qs)
    found ←
        gets
          (page_of status (at_least_1 page) (at_most_100 (at_least_1 page_size)) (order_for sort))
    pure (incident_page found)

  abbrev pub runbook_entry : KnowledgeChunk → RunbookEntry
  runbook_entry k = record {
    ref_id = k.ref_id;
    text = c.first_500 k.text;
    indexed_at = k.created_at;
  }

  unfoldable pub get_runbooks : Exec Store Response
  get_runbooks = do
    chunks ← gets (query_knowledge_chunks none none none none ("runbook" ∷ []))
    pure (runbooks (map runbook_entry chunks) (length chunks))

module _ ⦃h : Host⦄ ⦃x : Texts⦄ (c : Requests) where
  abbrev pub late_routes : String → Query → Exec Store Response
  late_routes path qs =
      if path == "/api/action-items"
      then get_action_items qs
      else if path == "/api/runbooks"
      then get_runbooks c
      else if path == "/api/stats"
      then get_stats
      else pure (failed 404 "not found")

  abbrev pub incident_routes : Option String → String → Query → Exec Store Response
  incident_routes (some i) path qs = get_detail i
  incident_routes none path qs = late_routes path qs

  abbrev pub route : String → Query → Exec Store Response
  route path qs =
      if path == "/healthz"
      then pure healthy
      else if path == "/api/incidents"
      then get_incident_page c qs
      else incident_routes (c.incident_path path) path qs

  -- The parsing stands before the `try`.
  unfoldable pub do_get : String → Exec Store Response
  do_get request = do
    asked ← lift (c.parsed request)
    catch (route asked.0 asked.1) (λ e. pure (failed 500 "internal error"))
