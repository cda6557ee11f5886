-- ===== src/Incident/HashChain/Tamper.antt =====
-- What `verify` reports of a timeline that was not written by `append` alone.
use ai_oncall.Prelude.{String, ◌<>◌, ◌≡◌, ◌≢◌, ◌∙◌, sym, ap, subst, some, List, ◌∷◌, ◌++◌, some_inj}
use text.Mathlib.TextLemmas.{append_cancel_left, append_cancel_right}
use ai_oncall.Python.Exec.{ok}
use ai_oncall.Python.Json.{Json}
use ai_oncall.Python.Host.{Host}
use ai_oncall.Store.Schema.{Incident, Event, Store}
use ai_oncall.Store.Incidents.{get_incident}
use ai_oncall.Store.Timeline.{of_incident, events_of, tamper_timeline_payload, set_payload}
use ai_oncall.Store.Timeline.Events.{Ids-filterb, IsLog, Ids, filterb-set_payload, set_payload_at}
use ai_oncall.Incident.HashChain.{corrupt, genesis_hash, compute_event_hash, verify, verify_rows}
use ai_oncall.Incident.HashChain.Verify.{
  IsChained, chain_end, IsChained-left, IsChained-right, verify_rows-corrupt,
}
use ai_oncall.Incident.HashChain.Append.{Verifies, Verifies-iff, verify_known, Verifies-incident}

module _ ⦃h : Host⦄ where
  -- Two payloads that give an event the same hash are the same, if no two texts collide.
  compute_event_hash_inj :
      ((x y : String) → h.sha256_hex x ≡ h.sha256_hex y → x ≡ y)
      → (prev kind a b : String) → compute_event_hash prev kind a ≡ compute_event_hash prev kind b
      → a ≡ b
  unfolding compute_event_hash
  compute_event_hash_inj no_collision prev kind a b e =
      append_cancel_right a b (":" <> prev)
        (append_cancel_left ":" _ _ (append_cancel_left kind _ _ (no_collision _ _ e)))

  rewritten :
      ((x y : String) → h.sha256_hex x ≡ h.sha256_hex y → x ≡ y)
      → (i : String) (s : Store) (before : List Event) (e : Event) (after : List Event)
        (payload : Json)
      → IsLog s
      → Verifies i s
      → events_of i s ≡ before ++ e ∷ after
      → h.dumps payload ≢ e.payload_json
      → (inc : Incident) → get_incident i s ≡ some inc
      → (verify i (tamper_timeline_payload e.id payload s).1).0 ≡ ok (corrupt e)
  unfolding tamper_timeline_payload get_incident
  rewritten no_collision i s before e after payload log v rows differs inc found =
      ap (λ r. r.0) (verify_known i t inc found)
      ∙ ap ok (
          ap (verify_rows g) tampered
          ∙ verify_rows-corrupt g before e' after (IsChained-left g before (e ∷ after) whole)
              (λ linked. differs (
                sym (
                  compute_event_hash_inj no_collision (chain_end g before) e.kind e.payload_json
                    (h.dumps payload)
                    (some_inj (sym (IsChained-right g before (e ∷ after) whole).0.1 ∙ linked.1))))))
    where
      t : Store
      t = record s { timeline = set_payload e.id (h.dumps payload) s.timeline }

      g : String
      g = genesis_hash i inc.created_at

      e' : Event
      e' = record e { payload_json = h.dumps payload }

      whole : IsChained g (before ++ e ∷ after)
      whole = subst (IsChained g) rows ((Verifies-iff i s inc found).0 v)

      tampered : events_of i t ≡ before ++ e' ∷ after
      tampered =
          unfold events_of in
          (filterb-set_payload i e.id (h.dumps payload) s.timeline
            ∙ ap (set_payload e.id (h.dumps payload)) rows
            ∙ set_payload_at (h.dumps payload) 0 before e after s.next_event (
                subst (λ es. Ids 0 es s.next_event) rows
                  (Ids-filterb (of_incident i) 0 s.timeline s.next_event log)))

  -- In a store with ascending event ids the payload of one event of a chain that verifies is rewritten to
  -- a different text: `verify` then reports that very event, if SHA-256 has no collision.
  pub tamper_detected :
      ((x y : String) → h.sha256_hex x ≡ h.sha256_hex y → x ≡ y)
      → (i : String) (s : Store) (before : List Event) (e : Event) (after : List Event)
        (payload : Json)
      → IsLog s
      → Verifies i s
      → events_of i s ≡ before ++ e ∷ after
      → h.dumps payload ≢ e.payload_json
      → (verify i (tamper_timeline_payload e.id payload s).1).0 ≡ ok (corrupt e)
  tamper_detected no_collision i s before e after payload log v rows differs =
      let (inc, found) = Verifies-incident i s v in
      rewritten no_collision i s before e after payload log v rows differs inc found
