-- ===== src/Store/Creation.antt =====
-- Creating an incident, and creating it again.
use ai_oncall.Prelude.{
  ℕ, suc, String, ◌<>◌, ◌≡◌, refl, ap, ◌∙◌, Bool, true, false, none, some, List, [], ◌∷◌, ◌++◌,
  Dict, any, find, arith, eq_iff, Bool-cases, Option-cases, inl, inr,
}
use ai_oncall.Python.Exec.{ok, err, integrity_error}
use ai_oncall.Python.Host.{Host}
use ai_oncall.Store.Schema.{Incident, Store}
use ai_oncall.Store.Incidents.{
  has_fingerprint, get_incident_by_fingerprint, conflicts, insert_incident, create_incident,
}

find_snoc :
    (f : String) (incs : List Incident) (inc : Incident)
    → find (has_fingerprint f) incs ≡ none
    → inc.fingerprint ≡ f
    → find (has_fingerprint f) (incs ++ inc ∷ []) ≡ some inc
find_snoc f [] inc e p = ground (arith, eq_iff inc.fingerprint f)
find_snoc f (x ∷ xs) inc e p = ground (arith, find_snoc f xs inc)

module _ ⦃h : Host⦄ where
  abbrev pub new_incident : String → ℕ → String → Dict String → Store → Incident
  new_incident fingerprint severity title labels s = record {
    id = "inc-" <> h.hex s.draws 12;
    fingerprint = fingerprint;
    status = "open";
    severity = severity;
    title = title;
    labels = labels;
    created_at = h.clock s.reads;
    updated_at = h.clock s.reads;
  }

  -- The store after the clock and the random digits that `create_incident` takes.
  abbrev pub after_draw : Store → Store
  after_draw s = record s { reads = suc s.reads; draws = suc s.draws }

  pub create_incident_seen :
      (f : String) (severity : ℕ) (title : String) (labels : Dict String) (s : Store)
      (inc : Incident)
      → get_incident_by_fingerprint f s ≡ some inc
      → create_incident f severity title labels s ≡ (ok (inc, false), after_draw s)
  unfolding create_incident get_incident_by_fingerprint
  create_incident_seen f severity title labels s inc e = rw e

  pub create_incident_fresh :
      (f : String) (severity : ℕ) (title : String) (labels : Dict String) (s : Store)
      → get_incident_by_fingerprint f s ≡ none
      → any (conflicts (new_incident f severity title labels s)) s.incidents ≡ false
      → create_incident f severity title labels s ≡ (
        ok (new_incident f severity title labels s, true),
        record (after_draw s) {
          incidents = s.incidents ++ new_incident f severity title labels s ∷ [];
        },
      )
  unfolding create_incident get_incident_by_fingerprint insert_incident
  create_incident_fresh f severity title labels s e free =
      rw (e, free) (rw (find_snoc f s.incidents (new_incident f severity title labels s) e refl))

  pub create_incident_conflict :
      (f : String) (severity : ℕ) (title : String) (labels : Dict String) (s : Store)
      → get_incident_by_fingerprint f s ≡ none
      → any (conflicts (new_incident f severity title labels s)) s.incidents ≡ true
      → create_incident f severity title labels s ≡ (err integrity_error, after_draw s)
  unfolding create_incident get_incident_by_fingerprint insert_incident
  create_incident_conflict f severity title labels s e taken = rw (e, taken)

  -- An incident that was returned, new or not, is found by its fingerprint afterwards.
  pub create_incident_found :
      (f : String) (severity : ℕ) (title : String) (labels : Dict String) (s : Store)
      (inc : Incident) (b : Bool)
      → (create_incident f severity title labels s).0 ≡ ok (inc, b)
      → get_incident_by_fingerprint f (create_incident f severity title labels s).1 ≡ some inc
  unfolding get_incident_by_fingerprint
  create_incident_found f severity title labels s inc b r =
      elim (Option-cases (get_incident_by_fingerprint f s)) [
        | inl e ↦ elim (Bool-cases (any (conflicts new) s.incidents)) [
          | inl taken ↦
              cc (r, ap (λ p. p.0) (create_incident_conflict f severity title labels s e taken))
          | inr free ↦ rw (create_incident_fresh f severity title labels s e free) (
              find_snoc f s.incidents new e refl
              ∙ cc (r, ap (λ p. p.0) (create_incident_fresh f severity title labels s e free)))
        ]
        | inr (x, e) ↦
            rw (create_incident_seen f severity title labels s x e)
              (e ∙ cc (r, ap (λ p. p.0) (create_incident_seen f severity title labels s x e)))
      ]
    where
      new : Incident
      new = new_incident f severity title labels s

  -- Whatever a first call returned, a second one for the same fingerprint returns the same incident, says
  -- that it is not new, and leaves every table as it was.
  pub create_incident_again :
      (f : String) (severity severity' : ℕ) (title title' : String) (labels labels' : Dict String)
      (s : Store) (inc : Incident) (b : Bool)
      → (create_incident f severity title labels s).0 ≡ ok (inc, b)
      → let t = (create_incident f severity title labels s).1 in
        create_incident f severity' title' labels' t ≡ (ok (inc, false), after_draw t)
  create_incident_again f severity severity' title title' labels labels' s inc b r =
      create_incident_seen f severity' title' labels' (create_incident f severity title labels s).1
        inc (create_incident_found f severity title labels s inc b r)
