-- ===== src/Incident/HashChain/Append.antt =====
-- `append` against `verify`: what a chained append does, and that it keeps every chain whole.
use ai_oncall.Prelude.{
  arith, ◌≢◌, ◌==◌, ◌&&◌, Bool, false, eq_false, any, suc, String, ◌≡◌, refl, sym, ap, subst, ◌∙◌,
  ◌↔◌, none, some, List, [], ◌∷◌, ◌++◌, any_of_find, inl, inr, Option-cases, String-cases, some_inj,
}
use ai_oncall.Python.Exec.{ok, err, value_error, ok-injective}
use ai_oncall.Python.Json.{Json}
use ai_oncall.Python.Host.{Host}
use ai_oncall.Store.Schema.{Incident, Event, Store}
use ai_oncall.Store.Incidents.{get_incident, has_id}
use ai_oncall.Store.Timeline.{
  has_timeline_kind, events_of, last_hash, last_chained_hash, append_chained_event,
}
use ai_oncall.Store.Timeline.Events.{
  new_event, with_event, insert_event_known, events_of-with_event_self, events_of-with_event_ne,
}
use ai_oncall.Incident.HashChain.{
  intact, genesis_hash, compute_event_hash, or_genesis, append, verify, verify_rows,
}
use ai_oncall.Incident.HashChain.Verify.{
  IsChained, chain_end, IsChained-append, verify_rows_sound, verify_rows_complete,
  last_hash-chain_end,
}

abbrev of_kind : String → String → Event → Bool
of_kind j k e = e.incident_id == j && e.kind == k

and_false : (b : Bool) → (b && false) ≡ false
and_false b = ground arith

any_snoc :
    (q : Event → Bool) (es : List Event) (e : Event) → q e ≡ false → any q (es ++ e ∷ []) ≡ any q es
any_snoc q [] e h = ground arith
any_snoc q (x ∷ xs) e h = ground (arith, any_snoc q xs e h)

-- The store after one reading of the clock.
abbrev pub after_read : Store → Store
after_read s = record s { reads = suc s.reads }

module _ ⦃h : Host⦄ where
  -- The hash that the next event of an incident is linked to.
  abbrev pub last_or_genesis : String → Incident → Store → String
  last_or_genesis i inc s = or_genesis i inc (last_chained_hash i s)

  -- The row that `append` writes.
  abbrev pub linked_event : String → String → Json → Incident → Store → Event
  linked_event i kind payload inc s =
      new_event i kind (h.dumps_sorted payload) (h.clock s.reads) (some (last_or_genesis i inc s))
        (some (compute_event_hash (last_or_genesis i inc s) kind (h.dumps_sorted payload)))
        (after_read s)

  pub append_known :
      (i kind : String) (payload : Json) (s : Store) (inc : Incident)
      → get_incident i s ≡ some inc
      → append i kind payload s
        ≡ (ok s.next_event, with_event (linked_event i kind payload inc s) (after_read s))
  unfolding append append_chained_event
  append_known i kind payload s inc e = rw e (
      insert_event_known i kind (h.dumps_sorted payload) (h.clock s.reads)
        (some (last_or_genesis i inc s))
        (some (compute_event_hash (last_or_genesis i inc s) kind (h.dumps_sorted payload)))
        (after_read s)
        (unfold get_incident in any_of_find (has_id i) s.incidents inc (unfold get_incident in e)))

  pub append_unknown :
      (i kind : String) (payload : Json) (s : Store)
      → get_incident i s ≡ none
      → append i kind payload s ≡ (err (value_error "unknown incident"), s)
  unfolding append
  append_unknown i kind payload s e = rw e

  -- The events of the incident after an append, and the incidents, which it leaves alone.
  pub events_of-append :
      (i kind : String) (payload : Json) (s : Store) (inc : Incident)
      → get_incident i s ≡ some inc
      → events_of i (append i kind payload s).1
        ≡ events_of i s ++ linked_event i kind payload inc s ∷ []
  unfolding events_of
  events_of-append i kind payload s inc e =
      rw (append_known i kind payload s inc e)
        (events_of-with_event_self (linked_event i kind payload inc s) (after_read s))

  pub incidents-append :
      (i kind : String) (payload : Json) (s : Store)
      → (append i kind payload s).1.incidents ≡ s.incidents
  incidents-append i kind payload s = elim (Option-cases (get_incident i s)) [
    | inl e ↦ rw (append_unknown i kind payload s e)
    | inr (inc, e) ↦ rw (append_known i kind payload s inc e)
  ]

  -- An appended event of another kind does not answer for this one.
  pub has_timeline_kind-append_ne :
      (j k i kind : String) (payload : Json) (s : Store)
      → kind ≢ k
      → has_timeline_kind j k (append i kind payload s).1 ≡ has_timeline_kind j k s
  unfolding has_timeline_kind
  has_timeline_kind-append_ne j k i kind payload s n = elim (Option-cases (get_incident i s)) [
    | inl e ↦ rw (append_unknown i kind payload s e)
    | inr (inc, e) ↦ rw (append_known i kind payload s inc e) (
        any_snoc (of_kind j k) s.timeline (linked_event i kind payload inc s)
          (rw (eq_false kind k n) (and_false (i == j))))
  ]

  -- What `verify` reports of an incident that is there.
  pub verify_known :
      (i : String) (s : Store) (inc : Incident)
      → get_incident i s ≡ some inc
      → verify i s ≡ (ok (verify_rows (genesis_hash i inc.created_at) (events_of i s)), s)
  unfolding verify
  verify_known i s inc e = rw e

  -- The chain of an incident is whole: each of its events is linked to the one before it, the first to
  -- the genesis hash.
  abbrev pub IsWhole : String → Incident → Store → Type 0
  IsWhole i inc s = IsChained (genesis_hash i inc.created_at) (events_of i s)

  pub last_or_genesis-eq :
      (i : String) (inc : Incident) (s : Store)
      → IsWhole i inc s
      → last_or_genesis i inc s ≡ chain_end (genesis_hash i inc.created_at) (events_of i s)
  unfolding last_chained_hash
  last_or_genesis-eq i inc s w = go (events_of i s) w
    where
      go :
          (es : List Event)
          → IsChained (genesis_hash i inc.created_at) es
          → or_genesis i inc (last_hash es) ≡ chain_end (genesis_hash i inc.created_at) es
      go [] c = refl
      go (e ∷ es) c =
          ap (or_genesis i inc) (last_hash-chain_end (genesis_hash i inc.created_at) e es c)

  pub append_self-IsWhole :
      (i kind : String) (payload : Json) (s : Store) (inc : Incident)
      → IsWhole i inc s
      → IsWhole i inc (with_event (linked_event i kind payload inc s) (after_read s))
  unfolding events_of
  append_self-IsWhole i kind payload s inc w =
      subst (IsChained (genesis_hash i inc.created_at))
        (sym (events_of-with_event_self (linked_event i kind payload inc s) (after_read s)))
        (IsChained-append (genesis_hash i inc.created_at) (events_of i s)
          (linked_event i kind payload inc s ∷ []) w
          (
            (
              ap some joined,
              ap (λ p. some (compute_event_hash p kind (h.dumps_sorted payload))) joined,
            ),
            tt,
          ))
    where
      joined : last_or_genesis i inc s ≡ chain_end (genesis_hash i inc.created_at) (events_of i s)
      joined = last_or_genesis-eq i inc s w

  append_at-IsWhole :
      (i j kind : String) (payload : Json) (s : Store) (inc jnc : Incident)
      → get_incident i s ≡ some inc
      → get_incident j s ≡ some jnc
      → IsWhole j jnc s
      → IsWhole j jnc (with_event (linked_event i kind payload inc s) (after_read s))
  unfolding events_of
  append_at-IsWhole i j kind payload s inc jnc ei ej w = elim (String-cases i j) [
    | inl (_, same) ↦
        let found : inc ≡ jnc = some_inj (sym ei ∙ ap (λ k. get_incident k s) same ∙ ej) in
        subst (λ k. IsWhole k jnc (with_event (linked_event i kind payload inc s) (after_read s)))
          same
          (rw found
            (append_self-IsWhole i kind payload s jnc (subst (λ k. IsWhole k jnc s) (sym same) w)))
    | inr (other, _) ↦
        subst (IsChained (genesis_hash j jnc.created_at))
          (sym (events_of-with_event_ne j (linked_event i kind payload inc s) (after_read s) other))
          w
  ]

  -- `verify` finds the chain of `j` whole.
  abbrev pub Verifies : String → Store → Type 0
  Verifies j s = verify j s ≡ (ok intact, s)

  pub Verifies-iff :
      (j : String) (s : Store) (inc : Incident)
      → get_incident j s ≡ some inc
      → Verifies j s ↔ IsWhole j inc s
  Verifies-iff j s inc e = (
    λ v.
        verify_rows_sound _ (events_of j s)
          (ok-injective (ap (λ r. r.0) (sym (verify_known j s inc e) ∙ v))),
    λ w. verify_known j s inc e ∙ ap (λ v. (ok v, s)) (verify_rows_complete _ (events_of j s) w),
  )

  not_verified : (j : String) (s : Store) → get_incident j s ≡ none → ¬ Verifies j s
  unfolding verify
  not_verified j s n v =
      let failed : verify j s ≡ (err (value_error "unknown incident"), s) = rw n in
      cc (ap (λ r. r.0) (sym v ∙ failed))

  -- An incident whose chain verifies is there.
  pub Verifies-incident :
      (j : String) (s : Store) → Verifies j s → (inc : Incident) × (get_incident j s ≡ some inc)
  Verifies-incident j s v = elim (Option-cases (get_incident j s)) [
    | inl n ↦ absurd (not_verified j s n v)
    | inr found ↦ found
  ]

  -- Appending an event to any incident, known or not, leaves every chain that verifies so.
  pub append-Verifies :
      (i j kind : String) (payload : Json) (s : Store)
      → Verifies j s
      → Verifies j (append i kind payload s).1
  unfolding get_incident
  append-Verifies i j kind payload s v = elim (Option-cases (get_incident i s)) [
    | inl e ↦ rw (append_unknown i kind payload s e) v
    | inr (inc, e) ↦
        rw (append_known i kind payload s inc e) (elim (Option-cases (get_incident j s)) [
          | inl n ↦ absurd (not_verified j s n v)
          | inr (jnc, f) ↦
              (Verifies-iff j (with_event (linked_event i kind payload inc s) (after_read s)) jnc
                  f).1
                (append_at-IsWhole i j kind payload s inc jnc e f ((Verifies-iff j s jnc f).0 v))
        ])
  ]
