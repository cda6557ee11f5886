-- ===== src/Executor/Runner/Guards.antt =====
-- When an execution runs commands at all.
use ai_oncall.Prelude.{
  String, ◌≡◌, ◌≢◌, refl, sym, ap, ◌∙◌, inl, inr, Bool, true, false, not, ◌&&◌, some, List, [],
  Bool-cases, Option-cases, if◌then◌else◌,
}
use mathlib.Core.List.{append-nil}
use ai_oncall.Python.Exec.{Exec, Result, ok, err, next, raise, ◌>>=◌, ◌>>◌}
use ai_oncall.Python.Json.{Json}
use ai_oncall.Python.Host.{Host}
use ai_oncall.Store.Schema.{Incident}
use ai_oncall.Store.Incidents.{get_incident}
use ai_oncall.Store.Timeline.{has_timeline_kind}
use ai_oncall.Store.Actions.{has_executed_action, record_action_started}
use ai_oncall.Memory.Redact.{Patterns}
use ai_oncall.Executor.Report.{TriageReport, SuggestedAction, mutating_actions}
use ai_oncall.Executor.Runner.{
  Production, Command, ExecutionOutcome, Site, on_site, is_settled, any_of, action_key, run_steps,
  finish, announce, run_all, start, skip, if_active, execute_locked, execute,
}
use ai_oncall.Executor.Runner.Plan.{RanSome, plan, then_pure, finish-On, run_steps-RanSome}

then_next :
    (P : List Command → Type 0) {A B : Type 0} (r : Result A) (s : Site) (f : A → Exec Site B)
    → P s.commands
    → ((a : A) → P (f a s).1.commands)
    → P (next r s f).1.commands
then_next P (ok a) s f q k = k a
then_next P (err e) s f q k = q

if_either :
    (P : List Command → Type 0) {A : Type 0} (b : Bool) (m n : Exec Site A) (s : Site)
    → P (m s).1.commands
    → P (n s).1.commands
    → P ((if b then m else n) s).1.commands
if_either P true m n s q r = q
if_either P false m n s q r = r

if_true : {A : Type 0} (b : Bool) (m n : A) → b ≡ true → (if b then m else n) ≡ m
if_true true m n e = refl
if_true false m n e = cc

then_bind :
    (P : List Command → Type 0) {A B : Type 0} (m : Exec Site A) (f : A → Exec Site B) (s : Site)
    → P (m s).1.commands
    → ((a : A) → P (f a (m s).1).1.commands)
    → P ((m >>= f) s).1.commands
then_bind P m f s q k = then_next P (m s).0 (m s).1 f q k

module _ ⦃h : Host⦄ ⦃p : Patterns⦄ (o : Production) where
  quiet_skip :
      (i reason : String) (payload : Json) (s : Site)
      → (skip o i payload reason s).1.commands ≡ s.commands
  quiet_skip i reason payload s = then_pure (λ x. x ≡ s.commands) _ _ _ refl

  -- Whatever holds of the commands before the call and after the locked part holds after the call.
  execute_either :
      (P : List Command → Type 0) (i : String) (report : TriageReport) (s : Site)
      → P s.commands
      → P (execute_locked o i report s).1.commands
      → P (execute o i report s).1.commands
  unfolding execute
  execute_either P i report s q r =
      if_either P report.validated (execute_locked o i report) (raise _) s r q

  pub quiet_done :
      (i : String) (report : TriageReport) (s : Site)
      → has_executed_action (action_key o i report) s.store ≡ true
      → (execute o i report s).1.commands ≡ s.commands
  unfolding execute_locked
  quiet_done i report s d =
      execute_either (λ x. x ≡ s.commands) i report s refl (rw d (quiet_skip i _ _ s))

  -- The part behind the check for a repeated execution.
  behind_either :
      (P : List Command → Type 0) (i : String) (report : TriageReport) (s : Site)
      → (((cs : List Command) → cs ≡ s.commands → P cs))
      → P (if_active o i (action_key o i report) report (get_incident i s.store) s).1.commands
      → P (execute o i report s).1.commands
  unfolding execute_locked
  behind_either P i report s same q =
      execute_either P i report s (same _ refl)
        (elim (Bool-cases (has_executed_action (action_key o i report) s.store)) [
          | inl d ↦ rw d (same _ (quiet_skip i _ _ s))
          | inr d ↦ rw d q
        ])

  quiet_behind :
      (i : String) (report : TriageReport) (s : Site)
      → (if_active o i (action_key o i report) report (get_incident i s.store) s).1.commands
        ≡ s.commands
      → (execute o i report s).1.commands ≡ s.commands
  quiet_behind i report s q = behind_either (λ x. x ≡ s.commands) i report s (λ cs e. e) q

  settled_quiet :
      (i : String) (report : TriageReport) (s : Site) (inc : Incident)
      → get_incident i s.store ≡ some inc
      → is_settled inc.status ≡ true
      → (if_active o i (action_key o i report) report (get_incident i s.store) s).1.commands
        ≡ s.commands
  settled_quiet i report s inc e st = rw e (
      ap (λ (m : Exec Site ExecutionOutcome). (m s).1.commands)
        (if_true (is_settled inc.status) _ _ st)
      ∙ quiet_skip i _ _ s)

  quiet_settled :
      (i : String) (report : TriageReport) (s : Site) (inc : Incident)
      → get_incident i s.store ≡ some inc
      → is_settled inc.status ≡ true
      → (execute o i report s).1.commands ≡ s.commands
  quiet_settled i report s inc e st = quiet_behind i report s (settled_quiet i report s inc e st)

  quiet_unconsented :
      (i : String) (report : TriageReport) (s : Site)
      → any_of (mutating_actions report) ≡ true
      → has_timeline_kind i "approval_granted" s.store ≡ false
      → (execute o i report s).1.commands ≡ s.commands
  quiet_unconsented i report s m c =
      quiet_behind i report s (elim (Option-cases (get_incident i s.store)) [
        | inl e ↦ rw e
        | inr (inc, e) ↦ elim (Bool-cases (is_settled inc.status)) [
          | inl st ↦ settled_quiet i report s inc e st
          | inr st ↦ rw e (rw st (rw (m, c)))
        ]
      ])

  -- Where an execution ran a command, the report was validated, these actions were not executed to the end
  -- before, the incident is there and neither mitigated nor resolved, and if one of the
  -- actions is mutating, then an approval is on record for the incident.
  pub execute_guarded :
      (i : String) (report : TriageReport) (s : Site)
      → (execute o i report s).1.commands ≢ s.commands
      → (report.validated ≡ true)
        × (has_executed_action (action_key o i report) s.store ≡ false)
        × ((inc : Incident) × (get_incident i s.store ≡ some inc) × (is_settled inc.status ≡ false))
        × (any_of (mutating_actions report) ≡ true
            → has_timeline_kind i "approval_granted" s.store ≡ true)
  unfolding execute
  execute_guarded i report s ran = (
    elim (Bool-cases report.validated) [ inl v ↦ v | inr v ↦ absurd (ran (rw v)) ],
    elim (Bool-cases (has_executed_action (action_key o i report) s.store)) [
      | inl d ↦ absurd (ran (quiet_done i report s d))
      | inr d ↦ d
    ],
    elim (Option-cases (get_incident i s.store)) [
      | inl e ↦ absurd (ran (quiet_behind i report s (rw e)))
      | inr (inc, e) ↦ elim (Bool-cases (is_settled inc.status)) [
        | inl st ↦ absurd (ran (quiet_settled i report s inc e st))
        | inr st ↦ (inc, e, st)
      ]
    ],
    λ m. elim (Bool-cases (has_timeline_kind i "approval_granted" s.store)) [
      | inl c ↦ c
      | inr c ↦ absurd (ran (quiet_unconsented i report s m c))
    ],
  )

  RanSome-none : (before planned now : List Command) → now ≡ before → RanSome before planned now
  RanSome-none before planned now q = ([], planned, q ∙ sym (append-nil before), refl)

  start-RanSome :
      (i key : String) (actions : List SuggestedAction) (s : Site)
      → RanSome s.commands (plan actions) (start o i key actions s).1.commands
  start-RanSome i key actions s =
      let P : List Command → Type 0 = RanSome s.commands (plan actions) in
      let none_yet : P s.commands = RanSome-none s.commands (plan actions) s.commands refl in
      let t : Site = (on_site (record_action_started key) s).1 in
      let u : Site = (announce o i key actions t).1 in
      let ran : P (run_steps o i 0 [] actions u).1.commands =
        run_steps-RanSome o i 0 [] actions u in
      then_bind P (on_site (record_action_started key))
        (λ _. announce o i key actions >> run_all o i key actions) s none_yet
        (λ _.
          then_bind P (announce o i key actions) (λ _. run_all o i key actions) t none_yet
            (λ _.
              then_bind P (run_steps o i 0 [] actions) (finish o i key) u ran
                (λ done. (finish-On o P i key done).at _ ran)))

  -- An execution, however it ends, runs a beginning of the plan of the report, in its order: each
  -- mutating action is run as a dry run right before it is run for real.
  pub execute-RanSome :
      (i : String) (report : TriageReport) (s : Site)
      → RanSome s.commands (plan report.suggested_actions) (execute o i report s).1.commands
  execute-RanSome i report s =
      let P : List Command → Type 0 = RanSome s.commands (plan report.suggested_actions) in
      let same : (cs : List Command) → cs ≡ s.commands → P cs =
        λ cs q. RanSome-none s.commands _ cs q in
      behind_either P i report s same (elim (Option-cases (get_incident i s.store)) [
        | inl e ↦ rw e (same s.commands refl)
        | inr (inc, e) ↦ rw e (
            if_either P (is_settled inc.status) _ _ s (same _ (quiet_skip i _ _ s)) (
              if_either P
                (any_of (mutating_actions report)
                  && not (has_timeline_kind i "approval_granted" s.store))
                _ _ s (same s.commands refl)
                (start-RanSome i (action_key o i report) report.suggested_actions s)))
      ])
