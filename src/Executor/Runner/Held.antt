-- ===== src/Executor/Runner/Held.antt =====
-- What an execution leaves of the table `executed_actions`: reports and commands do not touch it.
use ai_oncall.Prelude.{
  ℕ, suc, String, ◌≡◌, sym, subst, inl, inr, Bool, true, false, ◌&&◌, Option, none, List, [], ◌∷◌,
  ◌++◌, any, Bool-cases, Option-cases, arith,
}
use ai_oncall.Python.Exec.{Exn, Exec, Result, ok, err, next, pure}
use ai_oncall.Python.Preserves.{Preserves, Preserves-pure, Preserves-bind, Preserves-catch}
use ai_oncall.Python.Json.{Json}
use ai_oncall.Python.Host.{Host}
use ai_oncall.Store.Schema.{ExecutedAction, Store}
use ai_oncall.Store.Incidents.{get_incident}
use ai_oncall.Store.Actions.{has_key, is_done, set_done}
use ai_oncall.Memory.Redact.{Patterns}
use ai_oncall.Incident.HashChain.{append}
use ai_oncall.Incident.HashChain.Append.{append_known, append_unknown}
use ai_oncall.Executor.Report.{SuggestedAction, is_mutating}
use ai_oncall.Executor.Runner.{
  Production, StepResult, Site, on_site, run_with_timeout, report_failure, report_completion,
  run_action, after_preview, run_step, run_steps, step_label,
}

abbrev pub is_started : String → List ExecutedAction → Bool
is_started k as' = any (has_key k) as'

pub done_of_started :
    (k : String) (now : ℕ) (as' : List ExecutedAction)
    → is_started k as' ≡ true
    → any (λ a. has_key k a && is_done a) (set_done k now as') ≡ true
unfolding set_done
done_of_started k now [] e = cc
done_of_started k now (a ∷ as') e = ground (arith, done_of_started k now as')

module _ ⦃h : Host⦄ ⦃p : Patterns⦄ (o : Production) where
  pub executed_actions-append :
      (i kind : String) (payload : Json) (s : Store)
      → (append i kind payload s).1.executed_actions ≡ s.executed_actions
  executed_actions-append i kind payload s = elim (Option-cases (get_incident i s)) [
    | inl e ↦ rw (append_unknown i kind payload s e)
    | inr (inc, e) ↦ rw (append_known i kind payload s inc e)
  ]

  module _ (Q : List ExecutedAction → Type 0) where
    abbrev pub Held : Site → Type 0
    Held s = Q s.store.executed_actions

    pub Held-next :
        {A B : Type 0} (r : Result A) (s : Site) (b : B) → Held s → Held (next r s (λ _. pure b)).1
    Held-next (ok a) s b q = q
    Held-next (err e) s b q = q

    pub append-Held :
        (i kind : String) (payload : Json) → Preserves Held (on_site (append i kind payload))
    append-Held i kind payload = record {
      at = λ s q. subst Q (sym (executed_actions-append i kind payload s.store)) q;
    }

    chosen-Held :
        {A : Type 0} (b : Bool) (m n : Exec Site A)
        → Preserves Held m
        → Preserves Held n
        → Preserves Held (elim b [ true ↦ m | false ↦ n ])
    chosen-Held true m n q r = q
    chosen-Held false m n q r = r

    failure-Held :
        (i name : String) (t : ℕ) (d : Option String) (e : Exn)
        → Preserves Held (report_failure o i name t d e)
    failure-Held i name t d e = record {
      at = λ s q. Held-next _ _ _ (subst Q (sym (executed_actions-append i "step_failed" _ _)) q);
    }

    completion-Held :
        (i name : String) (t : ℕ) (d : Option String) (raw : String)
        → Preserves Held (report_completion o i name t d raw)
    completion-Held i name t d raw = record {
      at =
          λ s q. Held-next _ _ _ (subst Q (sym (executed_actions-append i "step_completed" _ _)) q);
    }

    command-Held :
        (action : String) (dry_run : Bool) → Preserves Held (run_with_timeout o action dry_run)
    command-Held action dry_run = record { at = λ s q. q }

    action-Held :
        (i name action : String) (t : ℕ) (d : Option String)
        → Preserves Held (run_action o i name action t d)
    action-Held i name action t d =
        Preserves-catch _ _
          (Preserves-bind (run_with_timeout o action false) _ (command-Held action false)
            (completion-Held i name t d))
          (failure-Held i name t d)

    previewed-Held :
        (i name action : String) (t : ℕ) (r : Result String)
        → Preserves Held (after_preview o i name action t r)
    previewed-Held i name action t (ok raw) = action-Held i name action t _
    previewed-Held i name action t (err e) = failure-Held i name t none e

    step-Held : (i : String) (n : ℕ) (a : SuggestedAction) → Preserves Held (run_step o i n a)
    unfolding run_step
    step-Held i n a = record {
      at = λ s q. elim (Bool-cases (is_mutating a)) [
        | inl m ↦ rw m ((previewed-Held i (step_label o n a) a.action _ _).at _ q)
        | inr m ↦ rw m ((action-Held i (step_label o n a) a.action _ none).at _ q)
      ];
    }

    pub steps-Held :
        (i : String) (n : ℕ) (steps : List StepResult) (actions : List SuggestedAction)
        → Preserves Held (run_steps o i n steps actions)
    unfolding run_steps
    steps-Held i n steps [] = Preserves-pure (steps, true)
    steps-Held i n steps (a ∷ as') = Preserves-bind (run_step o i n a) _ (step-Held i n a) (λ r.
        chosen-Held r.succeeded _ _ (steps-Held i (suc n) (steps ++ r ∷ []) as')
          (Preserves-pure (steps ++ r ∷ [], false)))
