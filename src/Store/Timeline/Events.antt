-- ===== src/Store/Timeline/Events.antt =====
-- How the statements on `timeline` change the rows of one incident.
use mathlib.Core.List.{append-nil}
use ai_oncall.Prelude.{
  ℕ, suc, ◌≤◌, ◌<◌, String, ◌==◌, ◌≡◌, refl, Bool, true, false, Option, List, [], ◌∷◌, ◌++◌, arith,
  filterb, filterb-append, any, eq_refl,
}
use ai_oncall.Python.Exec.{ok, err, integrity_error}
use ai_oncall.Store.Schema.{Event, Store}
use ai_oncall.Store.Incidents.{has_id}
use ai_oncall.Store.Timeline.{of_incident, events_of, insert_event, set_payload}

-- The row that an insert writes, and the store after it.
abbrev pub new_event : String → String → String → ℕ → Option String → Option String → Store → Event
new_event i kind payload now prev hash s = record {
  id = s.next_event;
  incident_id = i;
  kind = kind;
  payload_json = payload;
  created_at = now;
  prev_hash = prev;
  hash = hash;
}

abbrev pub with_event : Event → Store → Store
with_event e s = record s { timeline = s.timeline ++ e ∷ []; next_event = suc s.next_event }

pub insert_event_known :
    (i kind payload : String) (now : ℕ) (prev hash : Option String) (s : Store)
    → any (has_id i) s.incidents ≡ true
    → insert_event i kind payload now prev hash s
      ≡ (ok s.next_event, with_event (new_event i kind payload now prev hash s) s)
unfolding insert_event
insert_event_known i kind payload now prev hash s k = rw k

pub insert_event_unknown :
    (i kind payload : String) (now : ℕ) (prev hash : Option String) (s : Store)
    → any (has_id i) s.incidents ≡ false
    → insert_event i kind payload now prev hash s ≡ (err integrity_error, s)
unfolding insert_event
insert_event_unknown i kind payload now prev hash s k = rw k

pub events_of-with_event_self :
    (e : Event) (s : Store)
    → events_of e.incident_id (with_event e s) ≡ events_of e.incident_id s ++ e ∷ []
unfolding events_of
events_of-with_event_self e s =
    rw (filterb-append (of_incident e.incident_id) s.timeline (e ∷ []), eq_refl e.incident_id)

pub events_of-with_event_ne :
    (j : String) (e : Event) (s : Store)
    → (e.incident_id == j) ≡ false
    → events_of j (with_event e s) ≡ events_of j s
unfolding events_of
events_of-with_event_ne j e s n =
    rw (filterb-append (of_incident j) s.timeline (e ∷ []), n)
      (append-nil (filterb (of_incident j) s.timeline))

-- The ids of the events ascend from `lo` on and stay below `hi`.
abbrev pub Ids : ℕ → List Event → ℕ → Type 0
Ids lo [] hi = lo ≤ hi
Ids lo (e ∷ es) hi = (lo ≤ e.id) × Ids (suc e.id) es hi

-- The timeline as AUTOINCREMENT keeps it.
abbrev pub IsLog : Store → Type 0
IsLog s = Ids 0 s.timeline s.next_event

pub Ids-le : (lo : ℕ) (es : List Event) (hi : ℕ) → Ids lo es hi → lo ≤ hi
Ids-le lo [] hi h = h
Ids-le lo (e ∷ es) hi h = omega (arith, Ids-le (suc e.id) es hi h.1)

pub Ids-snoc :
    (lo : ℕ) (es : List Event) (e : Event) → Ids lo es e.id → Ids lo (es ++ e ∷ []) (suc e.id)
Ids-snoc lo [] e h = (h, omega arith)
Ids-snoc lo (x ∷ xs) e h = (h.0, Ids-snoc (suc x.id) xs e h.1)

pub Ids-lower : (lo lo' : ℕ) (es : List Event) (hi : ℕ) → lo' ≤ lo → Ids lo es hi → Ids lo' es hi
Ids-lower lo lo' [] hi l h = omega arith
Ids-lower lo lo' (e ∷ es) hi l h = (omega arith, h.1)

pub Ids-filterb :
    (p : Event → Bool) (lo : ℕ) (es : List Event) (hi : ℕ) → Ids lo es hi → Ids lo (filterb p es) hi
Ids-filterb p lo [] hi h = h
Ids-filterb p lo (e ∷ es) hi h =
    ground (arith, Ids-filterb p (suc e.id) es hi h.1, Ids-lower (suc e.id) lo (filterb p es) hi)

-- Rewriting a payload does not move an event to another incident.
pub filterb-set_payload :
    (i : String) (n : ℕ) (v : String) (es : List Event)
    → filterb (of_incident i) (set_payload n v es) ≡ set_payload n v (filterb (of_incident i) es)
unfolding set_payload
filterb-set_payload i n v [] = refl
filterb-set_payload i n v (e ∷ es) = ground (arith, filterb-set_payload i n v es)

set_payload_above :
    (n : ℕ) (v : String) (lo : ℕ) (es : List Event) (hi : ℕ)
    → Ids lo es hi
    → n < lo
    → set_payload n v es ≡ es
unfolding set_payload
set_payload_above n v lo [] hi h l = refl
set_payload_above n v lo (e ∷ es) hi h l =
    ground (arith, set_payload_above n v (suc e.id) es hi h.1)

Ids-below :
    (lo : ℕ) (before : List Event) (e : Event) (after : List Event) (hi : ℕ)
    → Ids lo (before ++ e ∷ after) hi
    → lo ≤ e.id
Ids-below lo [] e after hi h = h.0
Ids-below lo (x ∷ xs) e after hi h = omega (arith, Ids-below (suc x.id) xs e after hi h.1)

-- Where ids ascend, the update reaches one event.
pub set_payload_at :
    (v : String) (lo : ℕ) (before : List Event) (e : Event) (after : List Event) (hi : ℕ)
    → Ids lo (before ++ e ∷ after) hi
    → set_payload e.id v (before ++ e ∷ after) ≡ before ++ record e { payload_json = v } ∷ after
unfolding set_payload
set_payload_at v lo [] e after hi h =
    ground (arith, set_payload_above e.id v (suc e.id) after hi h.1)
set_payload_at v lo (x ∷ xs) e after hi h =
    ground
      (arith, set_payload_at v (suc x.id) xs e after hi h.1, Ids-below (suc x.id) xs e after hi h.1)
