-- ===== src/Brain/Triage/Incidents.antt =====
-- brain/triage.py: a run leaves the table `incidents` as it is.
use ai_oncall.Prelude.{
  ℕ, String, ◌≡◌, refl, ap, ◌∙◌, inl, inr, Option, none, some, List, Bool, true, false, any,
  Bool-cases, any_of_find, find, if◌then◌else◌,
}
use ai_oncall.Python.Exec.{Exn, Result, ok, err, next, pure, ◌>>=◌}
use ai_oncall.Python.Preserves.{Preserves, Preserves-pure}
use ai_oncall.Python.Json.{Json}
use ai_oncall.Python.Host.{Host}
use ai_oncall.Python.Texts.{Texts}
use ai_oncall.Store.Schema.{Incident, Store}
use ai_oncall.Store.Incidents.{get_incident, has_id}
use ai_oncall.Store.Timeline.{append_chained_event, insert_event}
use ai_oncall.Store.Timeline.Events.{insert_event_known, insert_event_unknown}
use ai_oncall.Store.Records.{save_prediction}
use ai_oncall.Incident.HashChain.Append.{incidents-append}
use ai_oncall.Executor.Report.{TriageReport}
use ai_oncall.Brain.Budget.{assert_can_spend, budget_for}
use ai_oncall.Brain.Providers.Chain.{CompletionResult, complete}
use ai_oncall.Brain.Triage.{
  PipelineInput, PipelineConfig, Pipeline, ask, assert_spend, call, request_of, record_spent,
  written, shadow_if, write_shadow_report,
}
use ai_oncall.Brain.Triage.Keeps.{Keeps}

pub get_incident-same :
    (i : String) (s t : Store) → s.incidents ≡ t.incidents → get_incident i s ≡ get_incident i t
unfolding get_incident
get_incident-same i s t e = ap (find (has_id i)) e

pub known :
    (i : String) (s : Store) (inc : Incident)
    → get_incident i s ≡ some inc
    → any (has_id i) s.incidents ≡ true
unfolding get_incident
known i s inc e = any_of_find (has_id i) s.incidents inc e

module _ ⦃h : Host⦄ where
  pub incidents-insert_event :
      (i kind payload : String) (now : ℕ) (prev hash : Option String) (s : Store)
      → (insert_event i kind payload now prev hash s).1.incidents ≡ s.incidents
  incidents-insert_event i kind payload now prev hash s =
      elim (Bool-cases (any (has_id i) s.incidents)) [
        | inl e ↦ rw (insert_event_known i kind payload now prev hash s e)
        | inr e ↦ rw (insert_event_unknown i kind payload now prev hash s e)
      ]

  incidents-append_chained :
      (i kind : String) (payload : Json) (s : Store)
      → (append_chained_event i kind payload none none s).1.incidents ≡ s.incidents
  unfolding append_chained_event
  incidents-append_chained i kind payload s =
      incidents-insert_event i kind (h.dumps_sorted payload) _ none none _

  incidents-if :
      {A : Type 0} (b : Bool) (r q : Result A) (s t : Store)
      → s.incidents ≡ t.incidents
      → (if◌then◌else◌ {A = Result A × Store} b (r, s) (q, t)).1.incidents ≡ t.incidents
  incidents-if true r q s t e = e
  incidents-if false r q s t e = refl

  incidents-save_prediction :
      (i v : String) (a b m : Json) (n : ℕ) (s : Store)
      → (save_prediction i v a b m n s).1.incidents ≡ s.incidents
  unfolding save_prediction
  incidents-save_prediction i v a b m n s = incidents-if _ _ _ _ _ refl

module _ ⦃h : Host⦄ ⦃x : Texts⦄ (c : PipelineConfig) (input : PipelineInput)
    (incs : List Incident) where
  -- The incidents of the store are these.
  unfoldable pub HasIncidents : Pipeline → Type 0
  HasIncidents p = p.store.incidents ≡ incs

  answered-kept :
      (r : Result CompletionResult) (p : Pipeline)
      → p.store.incidents ≡ incs
      → (next r p
          (λ a. record_spent input.incident_id a.tokens_used >>= λ _. pure a)).1.store.incidents
        ≡ incs
  answered-kept (ok a) p w = w
  answered-kept (err e) p w = w

  asserted-kept :
      (prompt : String) (r : Result (Unit {0})) (p : Pipeline)
      → p.store.incidents ≡ incs
      → (next r p (λ _. call c prompt >>= λ a.
          record_spent input.incident_id a.tokens_used >>= λ _. pure a)).1.store.incidents
        ≡ incs
  asserted-kept prompt (ok tt) p w =
      answered-kept (complete c.outside (request_of prompt) p.chain).0 (call c prompt p).1 w
  asserted-kept prompt (err e) p w = w

  written-kept :
      (o : Option Exn) (path text : String) (p : Pipeline)
      → p.store.incidents ≡ incs
      → ((written o path text >>= λ t. pure (some t)) p).1.store.incidents ≡ incs
  written-kept none path text p w = w
  written-kept (some e) path text p w = w

  shadow-kept : (b : Bool) (r : TriageReport) → Preserves HasIncidents (shadow_if c b r)
  unfolding write_shadow_report HasIncidents
  shadow-kept true r = record { at = λ p w. written-kept (c.write_text _ _) _ _ _ w }
  shadow-kept false r = Preserves-pure none

  pub keeps_incidents : Keeps c input HasIncidents
  unfolding HasIncidents ask
  keeps_incidents = record {
    accounts = record { at = λ p w. w };
    asks = λ prompt. record {
      at = λ p w.
          asserted-kept prompt (assert_can_spend 0 (budget_for input.incident_id p.ledger).0).0
            (assert_spend input.incident_id p).1 w;
    };
    aborts = λ note inc. record {
      at = λ p w. incidents-append_chained input.incident_id "triage_aborted" _ p.store ∙ w;
    };
    degrades = λ reason n. record {
      at = λ p w. incidents-append input.incident_id "schema_failure" _ p.store ∙ w;
    };
    completes = λ r n. record {
      at = λ p w. incidents-append input.incident_id "triage_completed" _ p.store ∙ w;
    };
    saves = λ r. record {
      at = λ p w. incidents-save_prediction r.incident_id r.prompt_version _ _ _ 0 p.store ∙ w;
    };
    writes = shadow-kept;
  }
