-- ===== src/Incident/HashChain.antt =====
-- incident/hashchain.py: every event of a timeline carries the hash of the event before it.
pub mod Verify
pub mod Append
pub mod Tamper
use ai_oncall.Prelude.{
  ℕ, String, ◌<>◌, ◌==◌, Bool, true, false, ◌&&◌, Option, none, some, List, [], ◌∷◌, if◌then◌else◌,
}
use ai_oncall.Python.Exec.{Exec, Result, ok, err, value_error, pure, raise, gets, ◌>>=◌, next}
use ai_oncall.Python.Json.{Json}
use ai_oncall.Python.Host.{Host}
use ai_oncall.Store.Schema.{Incident, Event, Store}
use ai_oncall.Store.Incidents.{get_incident}
use ai_oncall.Store.Timeline.{events_of, last_chained_hash, append_chained_event}

pub record ChainVerdict : Type 0 where
  pub ok : Bool
  -- the id of the corrupt event
  pub corrupt_id : Option ℕ

abbrev pub intact : ChainVerdict
intact = record { ok = true; corrupt_id = none }

abbrev pub corrupt : Event → ChainVerdict
corrupt e = record { ok = false; corrupt_id = some e.id }

-- `stored != expected`, where NULL differs from every text
abbrev pub is_text : Option String → String → Bool
is_text none t = false
is_text (some s) t = s == t

module _ ⦃h : Host⦄ where
  unfoldable pub genesis_hash : String → ℕ → String
  genesis_hash incident_id created_at =
      h.sha256_hex (incident_id <> (":" <> h.repr_time created_at))

  unfoldable pub compute_event_hash : String → String → String → String
  compute_event_hash prev_hash kind payload_json =
      h.sha256_hex (kind <> (":" <> (payload_json <> (":" <> prev_hash))))

  abbrev pub or_genesis : String → Incident → Option String → String
  or_genesis incident_id inc none = genesis_hash incident_id inc.created_at
  or_genesis incident_id inc (some prev) = prev

  append_to : String → String → Json → Option Incident → Exec Store ℕ
  append_to incident_id kind payload none = raise (value_error "unknown incident")
  append_to incident_id kind payload (some inc) = do
    last ← gets (last_chained_hash incident_id)
    let prev = or_genesis incident_id inc last
    append_chained_event incident_id kind payload (some prev)
        (some (compute_event_hash prev kind (h.dumps_sorted payload)))

  unfoldable pub append : String → String → Json → Exec Store ℕ
  unfolding append_to
  append incident_id kind payload = do
    incident ← gets (get_incident incident_id)
    append_to incident_id kind payload incident

  -- The loop of `verify`, from the hash that the next row should carry as its `prev_hash`.
  unfoldable pub verify_rows : String → List Event → ChainVerdict
  verify_rows expected_prev [] = intact
  verify_rows expected_prev (row ∷ rows) =
      let recomputed = compute_event_hash expected_prev row.kind row.payload_json in
      let rest = verify_rows recomputed rows in
      if is_text row.prev_hash expected_prev
      then (if is_text row.hash recomputed then rest else corrupt row)
      else corrupt row

  verify_from : String → List Event → Option Incident → Exec Store ChainVerdict
  verify_from incident_id rows none = raise (value_error "unknown incident")
  verify_from incident_id rows (some inc) =
      pure (verify_rows (genesis_hash incident_id inc.created_at) rows)

  unfoldable pub verify : String → Exec Store ChainVerdict
  unfolding verify_from
  verify incident_id = do
    rows ← gets (events_of incident_id)
    incident ← gets (get_incident incident_id)
    verify_from incident_id rows incident
