-- ===== src/Tests/Chain.antt =====
-- The hash chain and the lifecycle of the store's incidents.
use ai_oncall.Prelude.{◌≡◌, ◌↔◌, refl, literal_ne, some, List, [], ◌∷◌, ◌++◌, arith}
use ai_oncall.Python.Json.{str}
use ai_oncall.Python.Exec.{ok}
use ai_oncall.Store.Schema.{Event}
use ai_oncall.Store.Timeline.{
  append_chained_event, insert_event, events_of, last_chained_hash, last_hash,
  tamper_timeline_payload,
}
use ai_oncall.Store.Incidents.{get_incident}
use ai_oncall.Incident.HashChain.{
  append, verify, verify_rows, corrupt, intact, genesis_hash, compute_event_hash,
}
use ai_oncall.Incident.HashChain.Append.{append-Verifies, Verifies}
use ai_oncall.Incident.HashChain.Verify.{IsChained, verify_rows_iff}
use ai_oncall.Incident.HashChain.Tamper.{tamper_detected}
use ai_oncall.Store.Timeline.Events.{IsLog}
use ai_oncall.Tests.Fixture.{test_host, shop, shop_1}

shop-Verifies : Verifies "inc-1" shop
unfolding verify verify_rows get_incident events_of
shop-Verifies = refl

append-Verifies_example : Verifies "inc-1" shop_1
append-Verifies_example = append-Verifies "inc-1" "inc-1" "note" (str "a") shop shop-Verifies

shop_1-Verifies : Verifies "inc-1" shop_1
unfolding append append_chained_event insert_event last_chained_hash last_hash verify verify_rows
    get_incident events_of compute_event_hash genesis_hash
shop_1-Verifies = refl

abbrev note : Event
note = record {
  id = 1;
  incident_id = "inc-1";
  kind = "note";
  payload_json = "a";
  created_at = 1000;
  prev_hash = some "inc-1:0.0";
  hash = some "note:a:inc-1:0.0";
}

note_row : events_of "inc-1" shop_1 ≡ [] ++ note ∷ []
unfolding append append_chained_event insert_event last_chained_hash last_hash get_incident
    events_of compute_event_hash genesis_hash
note_row = refl

shop_1-IsLog : IsLog shop_1
unfolding append append_chained_event insert_event last_chained_hash last_hash get_incident
    events_of compute_event_hash genesis_hash
shop_1-IsLog = (omega arith, omega arith)

tamper_detected_example :
    (verify "inc-1" (tamper_timeline_payload 1 (str "b") shop_1).1).0 ≡ ok (corrupt note)
tamper_detected_example =
    tamper_detected (λ x y e. e) "inc-1" shop_1 [] note [] (str "b") shop_1-IsLog shop_1-Verifies
      note_row (literal_ne "b" "a" refl)

abbrev chained_rows : List Event
chained_rows = note ∷ []

verify_rows_iff_example :
    verify_rows "inc-1:0.0" chained_rows ≡ intact ↔ IsChained "inc-1:0.0" chained_rows
verify_rows_iff_example = verify_rows_iff "inc-1:0.0" chained_rows
