-- ===== src/Store/Timeline.antt =====
-- store.py: the statements on the table `timeline`.
pub mod Events
use ai_oncall.Prelude.{
  ℕ, suc, String, ◌==◌, Bool, ◌&&◌, Option, none, some, List, [], ◌∷◌, ◌++◌, filterb, any, nat_eq,
  if◌then◌else◌,
}
use ai_oncall.Python.Exec.{Exec, ok, err, integrity_error, ◌>>=◌}
use ai_oncall.Python.Json.{Json}
use ai_oncall.Python.Host.{Host}
use ai_oncall.Store.Schema.{Event, Store, time}
use ai_oncall.Store.Incidents.{has_id}

-- INSERT INTO timeline. The foreign key wants the incident to exist.
unfoldable pub insert_event :
    String → String → String → ℕ → Option String → Option String → Exec Store ℕ
insert_event incident_id kind payload_json now prev_hash hash s =
    if any (has_id incident_id) s.incidents
    then (
      ok s.next_event,
      record s { timeline = s.timeline ++ event ∷ []; next_event = suc s.next_event },
    )
    else (err integrity_error, s)
  where
    event : Event
    event = record {
      id = s.next_event;
      incident_id = incident_id;
      kind = kind;
      payload_json = payload_json;
      created_at = now;
      prev_hash = prev_hash;
      hash = hash;
    }

abbrev pub of_incident : String → Event → Bool
of_incident i e = e.incident_id == i

-- The method `timeline`: the rows of an incident, ORDER BY id.
unfoldable pub events_of : String → Store → List Event
events_of i s = filterb (of_incident i) s.timeline

-- The hash of the last event that has one.
unfoldable pub last_hash : List Event → Option String
last_hash [] = none
last_hash (e ∷ es) = let rest = last_hash es in elim rest [ some x ↦ some x | none ↦ e.hash ]

unfoldable pub last_chained_hash : String → Store → Option String
unfolding events_of last_hash
last_chained_hash i s = last_hash (events_of i s)

unfoldable pub has_timeline_kind : String → String → Store → Bool
has_timeline_kind i kind s = any (λ e. e.incident_id == i && e.kind == kind) s.timeline

-- UPDATE timeline SET payload_json = ? WHERE id = ?
unfoldable pub set_payload : ℕ → String → List Event → List Event
set_payload i payload [] = []
set_payload i payload (e ∷ es) =
    let rest = set_payload i payload es in
    (if nat_eq e.id i then record e { payload_json = payload } else e) ∷ rest

module _ ⦃h : Host⦄ where
  unfoldable pub append_timeline : String → String → Json → Exec Store ℕ
  append_timeline incident_id kind payload = do
    now ← time
    insert_event incident_id kind (h.dumps_sorted payload) now none none

  unfoldable pub append_chained_event :
      String → String → Json → Option String → Option String → Exec Store ℕ
  append_chained_event incident_id kind payload prev_hash event_hash = do
    now ← time
    insert_event incident_id kind (h.dumps_sorted payload) now prev_hash event_hash

  unfoldable pub tamper_timeline_payload : ℕ → Json → Exec Store (Unit {0})
  tamper_timeline_payload event_id new_payload s =
      (ok tt, record s { timeline = set_payload event_id (h.dumps new_payload) s.timeline })
