-- ===== src/Executor/Runner/Again.antt =====
-- An execution that came to its end is not repeated.
use ai_oncall.Prelude.{
  ℕ, suc, String, ◌≡◌, refl, sym, ap, subst, ◌∙◌, ◌⊎◌, inl, inr, Bool, true, false, not, ◌&&◌,
  Option, none, some, List, [], ◌∷◌, ◌++◌, any, all, Bool-cases, if◌then◌else◌, arith, eq_refl,
}
use ai_oncall.Python.Exec.{Exn, Exec, Result, ok, next_ok, ok-injective, pure, raise, ◌>>◌}
use ai_oncall.Python.Json.{Json}
use ai_oncall.Python.Host.{Host}
use ai_oncall.Store.Timeline.{has_timeline_kind}
use ai_oncall.Store.Schema.{Incident, ExecutedAction, Store}
use ai_oncall.Store.Incidents.{get_incident}
use ai_oncall.Store.Actions.{
  has_key, is_done, has_executed_action, record_action_started, mark_action_done,
}
use ai_oncall.Memory.Redact.{Patterns}
use ai_oncall.Incident.HashChain.{append}
use ai_oncall.Executor.Report.{SuggestedAction, TriageReport, mutating_actions}
use ai_oncall.Executor.Runner.Guards.{quiet_done}
use ai_oncall.Executor.Runner.{
  Production, StepResult, ExecutionOutcome, success, any_step, Site, on_site, run_step, run_steps,
  finish, announce, run_all, start, skip, skipped, is_settled, any_of, if_active, unless_done,
  execute_locked, execute, action_key,
}
use ai_oncall.Executor.Runner.Held.{
  is_started, done_of_started, executed_actions-append, Held-next, append-Held, steps-Held,
}

module _ ⦃h : Host⦄ ⦃p : Patterns⦄ (o : Production) where
  all_snoc :
      (xs : List StepResult) (x : StepResult)
      → x.succeeded ≡ false
      → all (λ s. s.succeeded) (xs ++ x ∷ []) ≡ false
  all_snoc [] x e = ground arith
  all_snoc (y ∷ ys) x e = ground (arith, all_snoc ys x e)

  abbrev picked : {A : Type 0} → Bool → A → A → A
  picked b m n = elim b [ true ↦ m | false ↦ n ]

  chosen_ok :
      {A : Type 0} (b : Bool) (m n : Exec Site A) (s : Site) (d : A)
      → (picked b m n s).0 ≡ ok d
      → ((b ≡ true) × ((m s).0 ≡ ok d)) ⊎ ((b ≡ false) × ((n s).0 ≡ ok d))
  chosen_ok true m n s d e = inl (refl, e)
  chosen_ok false m n s d e = inr (refl, e)

  -- A loop that was broken off has a failed step.
  steps_failed :
      (i : String) (n : ℕ) (steps : List StepResult) (actions : List SuggestedAction) (s : Site)
      (done : List StepResult × Bool)
      → (run_steps o i n steps actions s).0 ≡ ok done
      → done.1 ≡ false
      → all (λ x. x.succeeded) done.0 ≡ false
  unfolding run_steps
  steps_failed i n steps [] s done e f =
      cc (ap (λ (d : List StepResult × Bool). d.1) (ok-injective e), f)
  steps_failed i n steps (a ∷ as') s done e f =
      let (r, _, e') = next_ok (run_step o i n a s).0 (run_step o i n a s).1 _ done e in
      elim (chosen_ok r.succeeded (run_steps o i (suc n) (steps ++ r ∷ []) as')
        (pure (steps ++ r ∷ [], false)) (run_step o i n a s).1 done e') [
          | inl (good, q) ↦
              steps_failed i (suc n) (steps ++ r ∷ []) as' (run_step o i n a s).1 done q f
          | inr (bad, q) ↦
              ap (λ (d : List StepResult × Bool). all (λ x. x.succeeded) d.0) (sym (ok-injective q))
              ∙ all_snoc steps r bad
        ]

  not_both : (a b : Bool) → b ≡ false → ¬ ((a && b) ≡ true)
  not_both a b f g = ground arith

  -- The loop and its end, from a store in which the actions are recorded as started.
  finish-IsDone :
      (i key : String) (done : List StepResult × Bool) (s : Site) (out : ExecutionOutcome)
      → is_started key s.store.executed_actions ≡ true
      → (finish o i key done s).0 ≡ ok out
      → (done.1 ≡ false → all (λ x. x.succeeded) done.0 ≡ false)
      → success out ≡ true
      → has_executed_action key (finish o i key done s).1.store ≡ true
  unfolding success has_executed_action mark_action_done
  finish-IsDone i key (steps, false) s out started e failed good =
      absurd (not_both (any_step steps) _ (failed refl) (ap success (ok-injective e) ∙ good))
  finish-IsDone i key (steps, true) s out started e failed good =
      Held-next o (λ as'. any (λ a. has_key key a && is_done a) as' ≡ true) _ _ _
        (subst (λ as'. any (λ a. has_key key a && is_done a) as' ≡ true)
          (sym (executed_actions-append o i "execution_finished" _ _))
          (done_of_started key _ s.store.executed_actions started))

  -- Of a call's result and the state after it: if it succeeded, the actions are recorded as executed.
  abbrev IsRecorded : String → Result ExecutionOutcome × Site → Type 0
  IsRecorded key x =
      (out : ExecutionOutcome)
      → x.0 ≡ ok out
      → success out ≡ true
      → has_executed_action key x.1.store ≡ true

  run_all-IsRecorded :
      (i key : String) (actions : List SuggestedAction) (s : Site)
      → is_started key s.store.executed_actions ≡ true
      → IsRecorded key (run_all o i key actions s)
  run_all-IsRecorded i key actions s started out e good =
      let m = run_steps o i 0 [] actions in
      let (done, q, e') = next_ok (m s).0 (m s).1 (finish o i key) out e in
      rw q (
        finish-IsDone i key done (m s).1 out
          ((steps-Held o (λ as'. is_started key as' ≡ true) i 0 [] actions).at s started) e'
          (steps_failed i 0 [] actions s done q) good)

  started_now :
      (key : String) (s : Store)
      → is_started key (record_action_started key s).1.executed_actions ≡ true
  unfolding record_action_started
  started_now key s = elim (Bool-cases (is_started key s.executed_actions)) [
    | inl there ↦ rw there there
    | inr fresh ↦ rw fresh (snoc key _ s.executed_actions (eq_refl key))
  ]
    where
      snoc :
          (k : String) (a : ExecutedAction) (as' : List ExecutedAction)
          → has_key k a ≡ true
          → is_started k (as' ++ a ∷ []) ≡ true
      snoc k a [] e = ground arith
      snoc k a (x ∷ xs) e = ground (arith, snoc k a xs e)

  announced-IsRecorded :
      (i key : String) (actions : List SuggestedAction) (s : Site)
      → is_started key s.store.executed_actions ≡ true
      → IsRecorded key ((announce o i key actions >> run_all o i key actions) s)
  announced-IsRecorded i key actions s started out e good =
      let m = announce o i key actions in
      let (_, q, e') = next_ok (m s).0 (m s).1 (λ _. run_all o i key actions) out e in
      rw q (
        run_all-IsRecorded i key actions (m s).1
          ((append-Held o (λ as'. is_started key as' ≡ true) i "execution_started" _).at s started)
          out e' good)

  start-IsRecorded :
      (i key : String) (actions : List SuggestedAction) (s : Site)
      → IsRecorded key (start o i key actions s)
  start-IsRecorded i key actions s out e good =
      let m = on_site (record_action_started key) in
      let (_, q, e') =
        next_ok (m s).0 (m s).1 (λ _. announce o i key actions >> run_all o i key actions) out e in
      rw q (announced-IsRecorded i key actions (m s).1 (started_now key s.store) out e' good)

  raise-IsRecorded : (key : String) (x : Exn) (s : Site) → IsRecorded key (raise x s)
  raise-IsRecorded key x s out e good = cc

  skip-IsRecorded :
      (key i reason : String) (payload : Json) (s : Site)
      → IsRecorded key (skip o i payload reason s)
  unfolding success
  skip-IsRecorded key i reason payload s out e good =
      let m = on_site (append i "execution_skipped" payload) in
      let (_, _, e') = next_ok (m s).0 (m s).1 (λ _. pure (skipped i reason)) out e in
      cc (ap success (ok-injective e'), good)

  either-IsRecorded :
      (key : String) (b : Bool) (m n : Exec Site ExecutionOutcome) (s : Site)
      → IsRecorded key (m s)
      → IsRecorded key (n s)
      → IsRecorded key ((if b then m else n) s)
  either-IsRecorded key true m n s q r = q
  either-IsRecorded key false m n s q r = r

  active-IsRecorded :
      (i key : String) (report : TriageReport) (found : Option Incident) (s : Site)
      → IsRecorded key (if_active o i key report found s)
  active-IsRecorded i key report none s = raise-IsRecorded key _ s
  active-IsRecorded i key report (some inc) s =
      either-IsRecorded key (is_settled inc.status) _ _ s (skip-IsRecorded key i _ _ s) (
        either-IsRecorded key
          (any_of (mutating_actions report) && not (has_timeline_kind i "approval_granted" s.store))
          _ _ s (raise-IsRecorded key _ s) (start-IsRecorded i key report.suggested_actions s))

  undone-IsRecorded :
      (i key : String) (report : TriageReport) (done : Bool) (s : Site)
      → IsRecorded key (unless_done o i key report done s)
  undone-IsRecorded i key report true s = skip-IsRecorded key i _ _ s
  undone-IsRecorded i key report false s = active-IsRecorded i key report (get_incident i s.store) s

  execute-IsRecorded :
      (i : String) (report : TriageReport) (s : Site)
      → IsRecorded (action_key o i report) (execute o i report s)
  unfolding execute execute_locked
  execute-IsRecorded i report s =
      either-IsRecorded (action_key o i report) report.validated (execute_locked o i report)
        (raise _) s (undone-IsRecorded i (action_key o i report) report _ s)
        (raise-IsRecorded (action_key o i report) _ s)

  -- After an execution that succeeded, executing the same report for the same incident again runs no command.
  pub execute_once :
      (i : String) (report : TriageReport) (s : Site) (out : ExecutionOutcome)
      → (execute o i report s).0 ≡ ok out
      → success out ≡ true
      → let t = (execute o i report s).1 in (execute o i report t).1.commands ≡ t.commands
  execute_once i report s out e good =
      quiet_done o i report (execute o i report s).1 (execute-IsRecorded i report s out e good)
