-- ===== src/Incident/Machine/Status.antt =====
-- What an attempted transition does to the statuses and to the timeline.
use ai_oncall.Prelude.{
  suc, String, ◌≡◌, ◌≢◌, refl, ap, ◌∙◌, inl, inr, true, false, Option, none, some, [], ◌∷◌, ◌++◌,
  any, Bool-cases, any_of_find, if◌then◌else◌,
}
use ai_oncall.Python.Exec.{ok, err, integrity_error}
use ai_oncall.Python.Json.{Json, str, dict}
use ai_oncall.Python.Host.{Host}
use ai_oncall.Store.Schema.{Incident, Event, Store}
use ai_oncall.Store.Incidents.{get_incident, has_id, clashes, set_status, update_status}
use ai_oncall.Store.Timeline.{events_of}
use ai_oncall.Store.Rows.{with_status, map_option, find-set_status_self, find-set_status_ne}
use ai_oncall.Incident.HashChain.{append}
use ai_oncall.Incident.HashChain.Append.{
  linked_event, append_known, events_of-append, incidents-append,
}
use ai_oncall.Incident.Machine.{can_transition, transition}

abbrev pub status_of : String → Store → Option String
status_of i s = map_option (λ inc. inc.status) (get_incident i s)

abbrev pub changed : String → String → Json
changed from to = dict (("from", str from) ∷ ("to", str to) ∷ [])

abbrev pub refused : String → String → Json
refused current target = dict (("current", str current) ∷ ("target", str target) ∷ [])

module _ ⦃h : Host⦄ where
  -- The store after a successful UPDATE of the status.
  abbrev pub updated : String → String → Store → Store
  updated i status s = record s {
    incidents = set_status i status (h.clock s.reads) s.incidents;
    reads = suc s.reads;
  }

  pub update_status_free :
      (i status : String) (s : Store)
      → clashes i status s.incidents ≡ false
      → update_status i status s ≡ (ok (any (has_id i) s.incidents), updated i status s)
  unfolding update_status
  update_status_free i status s c = rw c

  pub update_status_clash :
      (i status : String) (s : Store)
      → clashes i status s.incidents ≡ true
      → update_status i status s ≡ (err integrity_error, record s { reads = suc s.reads })
  unfolding update_status
  update_status_clash i status s c = rw c

  pub get_incident-updated_self :
      (i status : String) (s : Store) (inc : Incident)
      → get_incident i s ≡ some inc
      → get_incident i (updated i status s) ≡ some (with_status status (h.clock s.reads) inc)
  unfolding get_incident
  get_incident-updated_self i status s inc e =
      find-set_status_self i status (h.clock s.reads) s.incidents
      ∙ ap (map_option (with_status status (h.clock s.reads))) e

  pub get_incident-updated_ne :
      (i j status : String) (s : Store)
      → i ≢ j
      → get_incident j (updated i status s) ≡ get_incident j s
  unfolding get_incident
  get_incident-updated_ne i j status s n =
      find-set_status_ne i j status (h.clock s.reads) s.incidents n

  -- The four ways in which an attempt ends.
  pub transition_unknown :
      (i target : String) (s : Store)
      → get_incident i s ≡ none
      → transition i target s ≡ (ok false, s)
  unfolding transition
  transition_unknown i target s e = rw e

  pub transition_illegal :
      (i target : String) (s : Store) (inc : Incident)
      → get_incident i s ≡ some inc
      → can_transition inc.status target ≡ false
      → transition i target s
        ≡ (ok false, (append i "illegal_transition_rejected" (refused inc.status target) s).1)
  unfolding transition
  transition_illegal i target s inc e illegal =
      rw (e, illegal)
        (rw (append_known i "illegal_transition_rejected" (refused inc.status target) s inc e))

  pub transition_clash :
      (i target : String) (s : Store) (inc : Incident)
      → get_incident i s ≡ some inc
      → can_transition inc.status target ≡ true
      → clashes i target s.incidents ≡ true
      → transition i target s ≡ (err integrity_error, record s { reads = suc s.reads })
  unfolding transition
  transition_clash i target s inc e legal c = rw (e, legal) (rw (update_status_clash i target s c))

  pub transition_legal :
      (i target : String) (s : Store) (inc : Incident)
      → get_incident i s ≡ some inc
      → can_transition inc.status target ≡ true
      → clashes i target s.incidents ≡ false
      → transition i target s
        ≡ (ok true, (append i "status_changed" (changed inc.status target) (updated i target s)).1)
  unfolding transition
  transition_legal i target s inc e legal free =
      rw (e, legal)
        (rw
          (
            update_status_free i target s free,
            any_of_find (has_id i) s.incidents inc (unfold get_incident in e),
          )
          (rw (
            append_known i "status_changed" (changed inc.status target) (updated i target s)
              (with_status target (h.clock s.reads) inc)
              (get_incident-updated_self i target s inc e))))

  pub get_incident-append :
      (j i kind : String) (payload : Json) (s : Store)
      → get_incident j (append i kind payload s).1 ≡ get_incident j s
  unfolding get_incident
  get_incident-append j i kind payload s = rw (incidents-append i kind payload s)

  -- An attempt on a known incident, where no other incident of the same fingerprint has the target status:
  -- it answers whether the table allows the step, the status becomes the target exactly then and stays
  -- otherwise, and either way one event is added to the timeline, which says which of the two happened.
  pub transition-outcome :
      (i target : String) (s : Store) (inc : Incident)
      → get_incident i s ≡ some inc
      → clashes i target s.incidents ≡ false
      → let allowed = can_transition inc.status target in
        let t = (transition i target s).1 in
        ((transition i target s).0 ≡ ok allowed)
        × (status_of i t ≡ some (if allowed then target else inc.status))
        × ((e : Event) × (events_of i t ≡ events_of i s ++ e ∷ [])
            × (e.kind ≡ (if allowed then "status_changed" else "illegal_transition_rejected")))
  unfolding events_of
  transition-outcome i target s inc e free = elim (Bool-cases (can_transition inc.status target)) [
    | inl legal ↦
        let p : Json = changed inc.status target in
        let new : Incident = with_status target (h.clock s.reads) inc in
        let e' = get_incident-updated_self i target s inc e in
        rw (transition_legal i target s inc e legal free, legal)
          (
            refl,
            ap (map_option (λ x. x.status))
                (get_incident-append i i "status_changed" p (updated i target s) ∙ e'),
            (
              linked_event i "status_changed" p new (updated i target s),
              events_of-append i "status_changed" p (updated i target s) new e',
              refl,
            ),
          )
    | inr illegal ↦
        let p : Json = refused inc.status target in
        rw (transition_illegal i target s inc e illegal, illegal)
          (
            refl,
            ap (map_option (λ x. x.status))
                (get_incident-append i i "illegal_transition_rejected" p s ∙ e),
            (
              linked_event i "illegal_transition_rejected" p inc s,
              events_of-append i "illegal_transition_rejected" p s inc e,
              refl,
            ),
          )
  ]
