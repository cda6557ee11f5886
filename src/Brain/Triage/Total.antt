-- ===== src/Brain/Triage/Total.antt =====
-- brain/triage.py: a run on an incident of the store comes to an outcome, and raises nothing.
use ai_oncall.Prelude.{
  ℕ, String, ◌<>◌, ◌≡◌, refl, sym, ap, subst, ◌∙◌, inl, inr, none, some, true, false, Bool-cases,
  [], ◌∷◌,
}
use ai_oncall.Python.Exec.{Exn, Result, ok, err, pure, bind_ok, ◌>>=◌, handle}
use ai_oncall.Python.Json.{Json, str, dict}
use ai_oncall.Python.Host.{Host}
use ai_oncall.Python.Texts.{Texts}
use ai_oncall.Store.Schema.{Incident, Store}
use ai_oncall.Store.Incidents.{get_incident}
use ai_oncall.Store.Timeline.{append_chained_event, append_timeline}
use ai_oncall.Store.Timeline.Events.{insert_event_known}
use ai_oncall.Incident.HashChain.{append}
use ai_oncall.Incident.HashChain.Append.{append_known, after_read}
use ai_oncall.Brain.Budget.{budget_for}
use ai_oncall.Brain.Triage.{
  PipelineInput, PipelineOutcome, PipelineConfig, Pipeline, degraded, checkpoint, is_active, go_on,
  guarded_triage, triage, run, build_prompt, account, note_aborted, note_degraded, aborted_outcome,
  degraded_outcome, on_store,
}
use ai_oncall.Brain.Triage.Keeps.{triage-kept}
use ai_oncall.Brain.Triage.Incidents.{get_incident-same, known, HasIncidents, keeps_incidents}

-- A result that is no exception.
abbrev pub Returns : {A : Type 0} → Result A → Type 0
Returns {A} r = (a : A) × (r ≡ ok a)

module _ ⦃h : Host⦄ where
  noted_known :
      (i kind : String) (payload : Json) (p : Pipeline) (inc : Incident)
      → get_incident i p.store ≡ some inc
      → (k : ℕ) × (t : Pipeline) × (on_store (append i kind payload) p ≡ (ok k, t))
  noted_known i kind payload p inc e = (
    p.store.next_event,
    _,
    ap (λ r. (r.0, record p { store = r.1 })) (append_known i kind payload p.store inc e),
  )

  paired : {A B : Type 0} (r : Result A × B) (a : A) → r.0 ≡ ok a → r ≡ (ok a, r.1)
  paired (r, t) a e = ap (λ q. (q, t)) e

  appended_plain :
      (i kind : String) (payload : Json) (s : Store) (inc : Incident)
      → get_incident i s ≡ some inc
      → append_chained_event i kind payload none none s
        ≡ (ok s.next_event, (append_timeline i kind payload s).1)
  unfolding append_chained_event append_timeline
  appended_plain i kind payload s inc e =
      paired (append_chained_event i kind payload none none s) s.next_event (
        ap (λ r. r.0)
          (insert_event_known i kind (h.dumps_sorted payload) (h.clock s.reads) none none
            (after_read s) (known i s inc e)))

module _ ⦃h : Host⦄ ⦃x : Texts⦄ (c : PipelineConfig) (input : PipelineInput) where
  degraded-Returns :
      (reason : String) (n : ℕ) (p : Pipeline) (inc : Incident)
      → get_incident input.incident_id p.store ≡ some inc
      → Returns (degraded c input reason n p).0
  unfolding degraded
  degraded-Returns reason n p inc e =
      let (k, t, q) = noted_known input.incident_id "schema_failure" _ p inc e in
      (
        degraded_outcome reason n (budget_for input.incident_id t.ledger).0.tokens_used,
        ap (λ r. r.0)
            (bind_ok (note_degraded c input reason n)
              (λ _.
                account input.incident_id >>= λ b. pure (degraded_outcome reason n b.tokens_used))
              p q),
      )

  handled-Returns :
      (r : Result PipelineOutcome) (p : Pipeline) (inc : Incident) (f : Exn → String)
      → get_incident input.incident_id p.store ≡ some inc
      → Returns (handle r p (λ e. degraded c input (f e) 0)).0
  handled-Returns (ok a) p inc f e = (a, refl)
  handled-Returns (err x) p inc f e = degraded-Returns (f x) 0 p inc e

  guarded-Returns :
      (p : Pipeline) (inc : Incident)
      → get_incident input.incident_id p.store ≡ some inc
      → Returns (guarded_triage c input p).0
  guarded-Returns p inc e =
      let r = triage c input (build_prompt c input) (account input.incident_id p).1 in
      let same : r.1.store.incidents ≡ p.store.incidents =
        unfold HasIncidents in
        (triage-kept c input (HasIncidents c input p.store.incidents)
            (keeps_incidents c input p.store.incidents) (build_prompt c input)).at
          (account input.incident_id p).1 refl in
      handled-Returns r.0 r.1 inc (λ e. "provider_failure: " <> x.message e)
        (get_incident-same input.incident_id r.1.store p.store same ∙ e)

  checkpoint_active :
      (note : String) (p : Pipeline) (inc : Incident)
      → get_incident input.incident_id p.store ≡ some inc
      → is_active inc.status ≡ true
      → checkpoint c input note p ≡ (ok none, p)
  unfolding checkpoint
  checkpoint_active note p inc e a = rw (e, a)

  -- The store after an abort, and the outcome.
  abbrev pub aborted_store : String → Incident → Store → Store
  aborted_store note inc s =
      (append_timeline input.incident_id "triage_aborted"
        (dict (
          ("reason", str "inactive_status") ∷ ("status", str inc.status) ∷ ("note", str note) ∷ []))
        s).1

  noted_aborted :
      (note : String) (p : Pipeline) (inc : Incident)
      → get_incident input.incident_id p.store ≡ some inc
      → note_aborted c input note inc p
        ≡ (ok p.store.next_event, record p { store = aborted_store note inc p.store })
  noted_aborted note p inc e =
      ap (λ r. (r.0, record p { store = r.1 }))
        (appended_plain input.incident_id "triage_aborted" _ p.store inc e)

  checkpoint_inactive :
      (note : String) (p : Pipeline) (inc : Incident)
      → get_incident input.incident_id p.store ≡ some inc
      → is_active inc.status ≡ false
      → checkpoint c input note p ≡ (
        ok (
            some
              (aborted_outcome inc.status (budget_for input.incident_id p.ledger).0.tokens_used)),
        record p {
          store = aborted_store note inc p.store;
          ledger = (budget_for input.incident_id p.ledger).1;
        },
      )
  unfolding checkpoint
  checkpoint_inactive note p inc e a =
      rw (e, a)
        (bind_ok (note_aborted c input note inc)
          (λ _. account input.incident_id >>= λ b.
            pure (some (aborted_outcome inc.status b.tokens_used)))
          p (noted_aborted note p inc e))

  run_active :
      (p : Pipeline) (inc : Incident)
      → get_incident input.incident_id p.store ≡ some inc
      → is_active inc.status ≡ true
      → run c input p ≡ guarded_triage c input p
  unfolding run
  run_active p inc e a =
      bind_ok (checkpoint c input "before_rag") (λ stop. go_on stop (guarded_triage c input)) p
        (checkpoint_active "before_rag" p inc e a)

  pub run_inactive :
      (p : Pipeline) (inc : Incident)
      → get_incident input.incident_id p.store ≡ some inc
      → is_active inc.status ≡ false
      → run c input p ≡ (
        ok (aborted_outcome inc.status (budget_for input.incident_id p.ledger).0.tokens_used),
        record p {
          store = aborted_store "before_rag" inc p.store;
          ledger = (budget_for input.incident_id p.ledger).1;
        },
      )
  unfolding run
  run_inactive p inc e a =
      bind_ok (checkpoint c input "before_rag") (λ stop. go_on stop (guarded_triage c input)) p
        (checkpoint_inactive "before_rag" p inc e a)

  -- The triage of an incident that is in the store comes to an outcome, whatever the providers do, whatever
  -- they answer, and whether or not the shadow report can be written: no exception leaves `run`.
  pub run-Returns :
      (p : Pipeline) (inc : Incident)
      → get_incident input.incident_id p.store ≡ some inc
      → Returns (run c input p).0
  run-Returns p inc e = elim (Bool-cases (is_active inc.status)) [
    | inl a ↦ subst (λ r. Returns r.0) (sym (run_active p inc e a)) (guarded-Returns p inc e)
    | inr a ↦ (_, ap (λ r. r.0) (run_inactive p inc e a))
  ]
