-- ===== src/Store/Incidents.antt =====
-- store.py: the statements on the table `incidents`.
use ai_oncall.Prelude.{
  ℕ, ◌-◌, String, ◌<>◌, ◌==◌, Bool, true, false, not, ◌&&◌, ◌||◌, Option, none, some, List, [], ◌∷◌,
  ◌++◌, Dict, find, filterb, any, take, drop, length, ltb, leb, sort_by, if◌then◌else◌,
}
use ai_oncall.Python.Exec.{Exec, ok, err, integrity_error, pure, gets, ◌>>=◌, ◌>>◌, assert_some}
use ai_oncall.Python.Host.{Host}
use ai_oncall.Store.Schema.{Incident, Store, time, uuid_hex}

abbrev pub has_id : String → Incident → Bool
has_id i inc = inc.id == i

abbrev pub has_fingerprint : String → Incident → Bool
has_fingerprint f inc = inc.fingerprint == f

abbrev pub has_status : String → Incident → Bool
has_status st inc = inc.status == st

-- get_incident
unfoldable pub get_incident : String → Store → Option Incident
get_incident i s = find (has_id i) s.incidents

unfoldable pub get_incident_by_fingerprint : String → Store → Option Incident
get_incident_by_fingerprint f s = find (has_fingerprint f) s.incidents

-- The primary key and the unique index on (fingerprint, status).
unfoldable pub conflicts : Incident → Incident → Bool
conflicts new old =
    old.id == new.id || (old.fingerprint == new.fingerprint && old.status == new.status)

-- INSERT INTO incidents
unfoldable pub insert_incident : Incident → Exec Store (Unit {0})
insert_incident inc s =
    if any (conflicts inc) s.incidents
    then (err integrity_error, s)
    else (ok tt, record s { incidents = s.incidents ++ inc ∷ [] })

-- UPDATE incidents SET status = ?, updated_at = ? WHERE id = ?
unfoldable pub set_status : String → String → ℕ → List Incident → List Incident
set_status i status now [] = []
set_status i status now (inc ∷ incs) =
    let rest = set_status i status now incs in
    (if inc.id == i then record inc { status = status; updated_at = now } else inc) ∷ rest

-- The row that the update would clash with: another one of the same fingerprint in that status.
unfoldable pub clashes : String → String → List Incident → Bool
clashes i status incs =
    any
      (λ inc.
        inc.id == i
        && any (λ o. not (o.id == i) && (o.fingerprint == inc.fingerprint && o.status == status))
            incs)
      incs

-- UPDATE incidents SET updated_at = ? WHERE id = ?
unfoldable pub set_updated : String → ℕ → List Incident → List Incident
set_updated i now [] = []
set_updated i now (inc ∷ incs) =
    let rest = set_updated i now incs in
    (if inc.id == i then record inc { updated_at = now } else inc) ∷ rest

module _ ⦃h : Host⦄ where
  create_or_get :
      String
      → ℕ
      → String
      → Dict String
      → ℕ
      → String
      → Option Incident
      → Exec Store (Incident × Bool)
  create_or_get fingerprint severity title labels now inc_id (some inc) = pure (inc, false)
  create_or_get fingerprint severity title labels now inc_id none = do
    insert_incident (record {
      id = inc_id;
      fingerprint = fingerprint;
      status = "open";
      severity = severity;
      title = title;
      labels = labels;
      created_at = now;
      updated_at = now;
    })
    found ← gets (get_incident_by_fingerprint fingerprint)
    created ← assert_some found
    pure (created, true)

  unfoldable pub create_incident : String → ℕ → String → Dict String → Exec Store (Incident × Bool)
  unfolding create_or_get
  create_incident fingerprint severity title labels = do
    now ← time
    digits ← uuid_hex 12
    row ← gets (get_incident_by_fingerprint fingerprint)
    create_or_get fingerprint severity title labels now ("inc-" <> digits) row

  -- INSERT OR IGNORE: a row that violates a constraint is skipped.
  insert_or_ignore : Incident → Exec Store (Unit {0})
  insert_or_ignore inc s =
      if any (conflicts inc) s.incidents
      then (ok tt, s)
      else (ok tt, record s { incidents = s.incidents ++ inc ∷ [] })

  ensure_or_get :
      String → String → String → Dict String → String → Option Incident → Exec Store Incident
  ensure_or_get incident_id fingerprint title labels status (some inc) = pure inc
  ensure_or_get incident_id fingerprint title labels status none = do
    now ← time
    insert_or_ignore (record {
      id = incident_id;
      fingerprint = fingerprint;
      status = status;
      severity = 0;
      title = title;
      labels = labels;
      created_at = now;
      updated_at = now;
    })
    found ← gets (get_incident incident_id)
    assert_some found

  unfoldable pub ensure_incident :
      String → String → String → Dict String → String → Exec Store Incident
  unfolding insert_or_ignore ensure_or_get
  ensure_incident incident_id fingerprint title labels status = do
    existing ← gets (get_incident incident_id)
    ensure_or_get incident_id fingerprint title labels status existing

  unfoldable pub update_status : String → String → Exec Store Bool
  update_status i status = do
    now ← time
    λ s. if clashes i status s.incidents then (err integrity_error, s) else (
      ok (any (has_id i) s.incidents),
      record s { incidents = set_status i status now s.incidents },
    )

  unfoldable pub touch_incident : String → Exec Store Bool
  touch_incident i = do
    now ← time
    λ s. (ok (any (has_id i) s.incidents), record s { incidents = set_updated i now s.incidents })

pub data Order : Type 0 where
  created_desc created_asc updated_desc : Order

-- An order that is not one of the three is taken for the first.
abbrev pub order_of : String → Order
order_of order =
    if order == "created_at ASC"
    then created_asc
    else if order == "updated_at DESC"
    then updated_desc
    else created_desc

-- Does `y` come strictly before `x`? SQL leaves the order of ties open; here it is that of insertion.
unfoldable pub precedes : Order → Incident → Incident → Bool
precedes created_desc y x = ltb x.created_at y.created_at
precedes created_asc y x = ltb y.created_at x.created_at
precedes updated_desc y x = ltb x.updated_at y.updated_at

-- `None` and `""` mean no filter.
unfoldable pub matches_status : Option String → Incident → Bool
matches_status none inc = true
matches_status (some st) inc = if st == "" then true else inc.status == st

unfoldable pub list_incidents : Option String → ℕ → ℕ → String → Store → List Incident
unfolding precedes matches_status
list_incidents status limit offset order s = take limit (
    drop offset (sort_by (precedes (order_of order)) (filterb (matches_status status) s.incidents)))

unfoldable pub count_incidents : Option String → Store → ℕ
unfolding matches_status
count_incidents status s = length (filterb (matches_status status) s.incidents)

-- WHERE status != 'resolved' AND updated_at >= now - window. A negative cutoff admits every row.
unfoldable pub is_recent : ℕ → Incident → Bool
is_recent cutoff inc = not (inc.status == "resolved") && leb cutoff inc.updated_at

module _ ⦃h : Host⦄ where
  unfoldable pub recent_unresolved_incidents : ℕ → Exec Store (List Incident)
  unfolding precedes is_recent
  recent_unresolved_incidents window = do
    now ← time
    gets (λ s. sort_by (precedes created_desc) (filterb (is_recent (now - window)) s.incidents))
