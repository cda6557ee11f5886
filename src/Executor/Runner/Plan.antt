-- ===== src/Executor/Runner/Plan.antt =====
-- Which commands an execution runs, and in what order.
use ai_oncall.Prelude.{
  ℕ, suc, String, ◌≡◌, refl, sym, ap, subst, ◌∙◌, ◌⊎◌, inl, inr, Bool, true, false, Option, none,
  some, List, [], ◌∷◌, ◌++◌, Bool-cases, if◌then◌else◌, length,
}
use mathlib.Core.List.{append_assoc, append-nil}
use ai_oncall.Python.Exec.{Exn, Result, ok, err, next, next_ok, ok-injective, pure, catch}
use ai_oncall.Python.Preserves.{Preserves, Preserves-pure, Preserves-catch}
use ai_oncall.Python.Host.{Host}
use ai_oncall.Store.Schema.{time}
use ai_oncall.Store.Actions.{mark_action_done}
use ai_oncall.Memory.Redact.{Patterns}
use ai_oncall.Executor.Redact.{redact_text}
use ai_oncall.Executor.Report.{SuggestedAction, is_mutating}
use ai_oncall.Executor.Runner.{
  Production, Command, StepResult, Site, on_site, run_with_timeout, report_failure,
  report_completion, run_action, after_preview, run_step, step_label, run_steps, finish,
}

pub Result-cases {ℓ} :
    {A : Type ℓ} (r : Result A) → ((a : A) × (r ≡ ok a)) ⊎ ((e : Exn) × (r ≡ err e))
Result-cases (ok a) = inl (a, refl)
Result-cases (err e) = inr (e, refl)

abbrev preview_of : String → Command
preview_of action = record { action = action; dry_run = true }

abbrev real : String → Command
real action = record { action = action; dry_run = false }

-- The commands of an action when nothing fails: a mutating one is run as a dry run first.
abbrev pub plan_of : SuggestedAction → List Command
plan_of a = if is_mutating a then preview_of a.action ∷ real a.action ∷ [] else real a.action ∷ []

abbrev pub plan : List SuggestedAction → List Command
plan [] = []
plan (a ∷ as') = plan_of a ++ plan as'

-- After the commands of `before`, a beginning of the planned ones was run.
abbrev pub RanSome : List Command → List Command → List Command → Type 0
RanSome before planned now =
    (cs : List Command) × (rest : List Command) × (now ≡ before ++ cs) × (planned ≡ cs ++ rest)

pub then_pure :
    (P : List Command → Type 0) {A B : Type 0} (r : Result A) (s : Site) (b : B)
    → P s.commands
    → P (next r s (λ _. pure b)).1.commands
then_pure P (ok a) s b q = q
then_pure P (err e) s b q = q

module _ ⦃h : Host⦄ ⦃p : Patterns⦄ (o : Production) where
  -- Reporting runs no command.
  module _ (P : List Command → Type 0) where
    abbrev pub On : Site → Type 0
    On s = P s.commands

    pub failure-On :
        (i name : String) (t : ℕ) (d : Option String) (e : Exn)
        → Preserves On (report_failure o i name t d e)
    failure-On i name t d e = record { at = λ s q. then_pure P _ _ _ q }

    completion-On :
        (i name : String) (t : ℕ) (d : Option String) (raw : String)
        → Preserves On (report_completion o i name t d raw)
    completion-On i name t d raw = record { at = λ s q. then_pure P _ _ _ q }

    pub caught-On :
        (i name : String) (t : ℕ) (d : Option String) (raw : String)
        → Preserves On (catch (report_completion o i name t d raw) (report_failure o i name t d))
    caught-On i name t d raw =
        Preserves-catch _ _ (completion-On i name t d raw) (failure-On i name t d)

    pub finish-On :
        (i key : String) (done : List StepResult × Bool) → Preserves On (finish o i key done)
    unfolding mark_action_done
    finish-On i key (steps, true) = record { at = λ s q. then_pure P _ _ _ q }
    finish-On i key (steps, false) = Preserves-pure _

  failure-succeeded :
      (i name : String) (t : ℕ) (d : Option String) (e : Exn) (s : Site) (r : StepResult)
      → (report_failure o i name t d e s).0 ≡ ok r
      → r.succeeded ≡ false
  failure-succeeded i name t d e s r q =
      let (_, _, q') = next_ok _ _ (λ _. pure _) r q in
      sym (ap (λ (x : StepResult). x.succeeded) (ok-injective q'))

  -- After the command of an action, which is the last of its plan.
  run_action-commands :
      (i name action : String) (t : ℕ) (d : Option String) (s : Site) (cs : List Command)
      → s.commands ≡ cs
      → let u = run_action o i name action t d s in (u.1.commands ≡ cs ++ real action ∷ [])
  run_action-commands i name action t d s cs q =
      elim (Result-cases (o.run (length s.commands) action false)) [
        | inl (raw, e) ↦ rw e (
            (caught-On (λ x. x ≡ cs ++ real action ∷ []) i name t d raw).at _
              (ap (λ x. x ++ real action ∷ []) q))
        | inr (x, e) ↦ rw e (
            (failure-On (λ x. x ≡ cs ++ real action ∷ []) i name t d x).at _
              (ap (λ x. x ++ real action ∷ []) q))
      ]

  -- A step runs a beginning of the plan of its action, and the whole of it where it succeeds.
  abbrev pub Follows : List Command → List Command → Result StepResult × Site → Type 0
  Follows before planned u =
      RanSome before planned u.1.commands
      × ((r : StepResult) → u.0 ≡ ok r → r.succeeded ≡ true → u.1.commands ≡ before ++ planned)

  Follows-whole :
      (before planned : List Command) (u : Result StepResult × Site)
      → u.1.commands ≡ before ++ planned
      → Follows before planned u
  Follows-whole before planned u q = ((planned, [], q, sym (append-nil planned)), λ r e t. q)

  previewed-Follows :
      (i name action : String) (t : ℕ) (before : List Command) (r : Result String) (s : Site)
      → s.commands ≡ before ++ preview_of action ∷ []
      → Follows before (preview_of action ∷ real action ∷ []) (after_preview o i name action t r s)
  previewed-Follows i name action t before (ok raw) s q =
      Follows-whole before (preview_of action ∷ real action ∷ [])
        (run_action o i name action t (some (redact_text raw)) s)
        (run_action-commands i name action t (some (redact_text raw)) s
            (before ++ preview_of action ∷ []) q
          ∙ append_assoc before (preview_of action ∷ []) (real action ∷ []))
  previewed-Follows i name action t before (err e) s q = (
    (
      preview_of action ∷ [],
      real action ∷ [],
      (failure-On (λ x. x ≡ before ++ preview_of action ∷ []) i name t none e).at s q,
      refl,
    ),
    λ r done good. cc (good, failure-succeeded i name t none e s r done),
  )

  run_step-Follows :
      (i : String) (n : ℕ) (a : SuggestedAction) (s : Site)
      → Follows s.commands (plan_of a) (run_step o i n a s)
  unfolding run_step
  run_step-Follows i n a s = elim (Bool-cases (is_mutating a)) [
    | inl m ↦ rw m (
        previewed-Follows i (step_label o n a) a.action (h.clock s.store.reads) s.commands
          (o.run (length s.commands) a.action true)
          (run_with_timeout o a.action true (on_site time s).1).1 refl)
    | inr m ↦ rw m (
        Follows-whole s.commands (real a.action ∷ [])
          (run_action o i (step_label o n a) a.action (h.clock s.store.reads) none
            (on_site time s).1)
          (run_action-commands i (step_label o n a) a.action (h.clock s.store.reads) none
            (on_site time s).1 s.commands refl))
  ]

  RanSome-longer :
      (before planned more now : List Command)
      → RanSome before planned now
      → RanSome before (planned ++ more) now
  RanSome-longer before planned more now (cs, rest, q, e) =
      (cs, rest ++ more, q, ap (λ x. x ++ more) e ∙ append_assoc cs rest more)

  RanSome-after :
      (before first more now : List Command)
      → RanSome (before ++ first) more now
      → RanSome before (first ++ more) now
  RanSome-after before first more now (cs, rest, q, e) = (
    first ++ cs,
    rest,
    q ∙ append_assoc before first cs,
    ap (λ x. first ++ x) e ∙ sym (append_assoc first cs rest),
  )

  taken : {A : Type 0} (b : Bool) (m n : A) → b ≡ true → elim b [ true ↦ m | false ↦ n ] ≡ m
  taken true m n e = refl
  taken false m n e = cc

  pub run_steps-RanSome :
      (i : String) (n : ℕ) (steps : List StepResult) (actions : List SuggestedAction) (s : Site)
      → RanSome s.commands (plan actions) (run_steps o i n steps actions s).1.commands
  unfolding run_steps
  run_steps-RanSome i n steps [] s = ([], [], sym (append-nil s.commands), refl)
  run_steps-RanSome i n steps (a ∷ as') s =
      let (some_run, all_run) = run_step-Follows i n a s in
      elim (Result-cases (run_step o i n a s).0) [
        | inr (e, q) ↦ rw q (RanSome-longer s.commands (plan_of a) (plan as') _ some_run)
        | inl (r, q) ↦ elim (Bool-cases r.succeeded) [
          | inr bad ↦ rw q (rw bad (RanSome-longer s.commands (plan_of a) (plan as') _ some_run))
          | inl good ↦
              let whole = all_run r q good in
              rw q (
                subst
                  (λ m. RanSome s.commands (plan (a ∷ as')) (m (run_step o i n a s).1).1.commands)
                  (sym (
                    taken r.succeeded (run_steps o i (suc n) (steps ++ r ∷ []) as')
                      (pure (steps ++ r ∷ [], false)) good))
                  (RanSome-after s.commands (plan_of a) (plan as') _ (
                    subst
                      (λ b.
                        RanSome b (plan as')
                          (run_steps o i (suc n) (steps ++ r ∷ []) as'
                            (run_step o i n a s).1).1.commands)
                      whole
                      (run_steps-RanSome i (suc n) (steps ++ r ∷ []) as' (run_step o i n a s).1))))
        ]
      ]
