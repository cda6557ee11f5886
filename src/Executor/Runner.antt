-- ===== src/Executor/Runner.antt =====
-- executor/runner.py: `execute` under the rules of its header. The commands are run by a function that
-- is handed in; the encrypted audit files stand outside the store and are left out, and the lock of an
-- incident is held for the whole of `_execute_locked`, which is one action here.
pub mod Plan
pub mod Guards
pub mod Held
pub mod Again
use ai_oncall.Prelude.{
  ℕ, suc, ◌-◌, String, ◌<>◌, ◌==◌, Bool, true, false, not, ◌&&◌, ◌||◌, Option, none, some, List, [],
  ◌∷◌, ◌++◌, map, any, all, length, filterb, if◌then◌else◌,
}
use ai_oncall.Python.Exec.{
  Exn, Exec, Result, ok, err, executor_rejected, pure, raise, gets, ◌>>=◌, ◌>>◌, next, catch,
  handle,
}
use ai_oncall.Python.Json.{Json, str, num, strings, dict}
use ai_oncall.Python.Host.{Host}
use ai_oncall.Store.Schema.{Incident, Store, time}
use ai_oncall.Store.Incidents.{get_incident}
use ai_oncall.Store.Timeline.{has_timeline_kind}
use ai_oncall.Store.Actions.{has_executed_action, record_action_started, mark_action_done}
use ai_oncall.Incident.HashChain.{append}
use ai_oncall.Memory.Redact.{Patterns}
use ai_oncall.Executor.Redact.{redact_text}
use ai_oncall.Executor.Report.{SuggestedAction, TriageReport, is_mutating, mutating_actions}

-- What the runner uses of its surroundings. `run` is the injected command runner on the n-th command,
-- with the timeout of a step: the raw output, or the exception.
pub record Production : Type 0 where
  pub run : ℕ → (action : String) → (dry_run : Bool) → Result String
  -- `s[:n]`
  pub cut : ℕ → String → String
  -- `str(i)` and `str(exc)`
  pub show : ℕ → String
  pub message : Exn → String
  -- `"|".join(sorted(…))`
  pub join_sorted : List String → String

-- A command that was run.
pub record Command : Type 0 where
  pub action : String
  pub dry_run : Bool

pub record StepResult : Type 0 where
  pub step_name : String
  pub succeeded : Bool
  pub output_redacted : String
  pub duration_seconds : ℕ
  pub dry_run_output : Option String

pub record ExecutionOutcome : Type 0 where
  pub incident_id : String
  pub executed : Bool
  pub skipped_reason : Option String
  pub steps : List StepResult

-- `bool(self.steps)`
abbrev pub any_step : List StepResult → Bool
any_step [] = false
any_step (x ∷ xs) = true

unfoldable pub success : ExecutionOutcome → Bool
success o = o.executed && (any_step o.steps && all (λ s. s.succeeded) o.steps)

-- The store, and the commands run so far.
pub record Site : Type 0 where
  pub store : Store
  pub commands : List Command

abbrev pub on_site : {A : Type 0} → Exec Store A → Exec Site A
on_site m s = let r = m s.store in (r.0, record s { store = r.1 })

-- `status in {"mitigated", "resolved"}`
abbrev pub is_settled : String → Bool
is_settled st = st == "mitigated" || st == "resolved"

abbrev pub any_of : List SuggestedAction → Bool
any_of [] = false
any_of (a ∷ as') = true

abbrev pub skipped : String → String → ExecutionOutcome
skipped i reason = record {
  incident_id = i;
  executed = false;
  skipped_reason = some reason;
  steps = [];
}

abbrev pub executed_steps : String → List StepResult → ExecutionOutcome
executed_steps i steps = record {
  incident_id = i;
  executed = true;
  skipped_reason = none;
  steps = steps;
}

module _ (o : Production) where
  unfoldable pub action_key : String → TriageReport → String
  action_key i report =
      i <> (":" <> o.cut 200 (o.join_sorted (map (λ a. a.action) report.suggested_actions)))

  -- `_run_with_timeout`
  abbrev pub run_with_timeout : String → Bool → Exec Site String
  run_with_timeout action dry_run s = (
    o.run (length s.commands) action dry_run,
    record s { commands = s.commands ++ record { action = action; dry_run = dry_run } ∷ [] },
  )

module _ ⦃h : Host⦄ ⦃p : Patterns⦄ (o : Production) where
  abbrev pub report_failure : String → String → ℕ → Option String → Exn → Exec Site StepResult
  report_failure i step_name started dry_output exc = do
    now ← on_site time
    let safe = redact_text (o.message exc)
    on_site (
        append i "step_failed"
          (dict (("step", str step_name) ∷ ("error", str (o.cut 2000 safe)) ∷ [])))
    pure (record {
      step_name = step_name;
      succeeded = false;
      output_redacted = safe;
      duration_seconds = now - started;
      dry_run_output = dry_output;
    })

  abbrev pub report_completion : String → String → ℕ → Option String → String → Exec Site StepResult
  report_completion i step_name started dry_output raw = do
    now ← on_site time
    let safe = redact_text raw
    on_site (
        append i "step_completed"
          (dict (("step", str step_name) ∷ ("output", str (o.cut 2000 safe)) ∷ [])))
    pure (record {
      step_name = step_name;
      succeeded = true;
      output_redacted = safe;
      duration_seconds = now - started;
      dry_run_output = dry_output;
    })

  -- The `try` block from the command itself onwards, when the output of the dry run is there.
  abbrev pub run_action : String → String → String → ℕ → Option String → Exec Site StepResult
  run_action i step_name action started dry_output =
      catch (run_with_timeout o action false >>= report_completion i step_name started dry_output)
        (report_failure i step_name started dry_output)

  abbrev pub after_preview : String → String → String → ℕ → Result String → Exec Site StepResult
  after_preview i step_name action started (ok raw) =
      run_action i step_name action started (some (redact_text raw))
  after_preview i step_name action started (err e) = report_failure i step_name started none e

  abbrev pub preview_first : String → String → String → ℕ → Exec Site StepResult
  preview_first i step_name action started s =
      let r = run_with_timeout o action true s in after_preview i step_name action started r.0 r.1

  -- `step_name`
  abbrev pub step_label : ℕ → SuggestedAction → String
  step_label n a = "step-" <> (o.show n <> ("-" <> o.cut 40 a.action))

  abbrev pub choose_run : String → String → SuggestedAction → ℕ → Exec Site StepResult
  choose_run i step_name a started =
      if is_mutating a
      then preview_first i step_name a.action started
      else run_action i step_name a.action started none

  -- The body of the loop for the n-th action.
  unfoldable pub run_step : String → ℕ → SuggestedAction → Exec Site StepResult
  run_step i n a = do started ← on_site time; choose_run i (step_label n a) a started

  -- The loop. Its answer says whether it came to its end, which a failed step prevents.
  unfoldable pub run_steps :
      String → ℕ → List StepResult → List SuggestedAction → Exec Site (List StepResult × Bool)
  run_steps i n steps [] = pure (steps, true)
  run_steps i n steps (a ∷ as') = do
    r ← run_step i n a
    elim r.succeeded [
      | true ↦ run_steps i (suc n) (steps ++ r ∷ []) as'
      | false ↦ pure (steps ++ r ∷ [], false)
    ]

  abbrev pub finish : String → String → List StepResult × Bool → Exec Site ExecutionOutcome
  finish i key (steps, false) = pure (executed_steps i steps)
  finish i key (steps, true) = do
    on_site (mark_action_done key)
    on_site (
        append i "execution_finished" (
          dict (
            ("steps_ok", num (length (filterb (λ s. s.succeeded) steps)))
            ∷ ("steps_total", num (length steps))
            ∷ [])))
    pure (executed_steps i steps)

  abbrev pub announce : String → String → List SuggestedAction → Exec Site ℕ
  announce i key actions = on_site (
      append i "execution_started"
        (dict (("action_key", str key) ∷ ("actions", strings (map (λ a. a.action) actions)) ∷ [])))

  abbrev pub run_all : String → String → List SuggestedAction → Exec Site ExecutionOutcome
  run_all i key actions = do done ← run_steps i 0 [] actions; finish i key done

  abbrev pub start : String → String → List SuggestedAction → Exec Site ExecutionOutcome
  start i key actions = do
    on_site (record_action_started key)
    announce i key actions
    run_all i key actions

  abbrev pub skip : String → Json → String → Exec Site ExecutionOutcome
  skip i payload reason = do on_site (append i "execution_skipped" payload); pure (skipped i reason)

  abbrev pub if_consented : String → String → TriageReport → Bool → Exec Site ExecutionOutcome
  if_consented i key report consented =
      if any_of (mutating_actions report) && not consented
      then raise (
          executor_rejected
            "mutating actions require an approved request (no approval_granted in timeline)")
      else start i key report.suggested_actions

  abbrev pub if_active :
      String → String → TriageReport → Option Incident → Exec Site ExecutionOutcome
  if_active i key report none = raise (executor_rejected ("unknown incident " <> i))
  if_active i key report (some incident) =
      if is_settled incident.status
      then skip i
          (dict (("reason", str "already_mitigated") ∷ ("status", str incident.status) ∷ []))
          ("already " <> incident.status)
      else (do
        consented ← gets (λ s. has_timeline_kind i "approval_granted" s.store)
        if_consented i key report consented)

  abbrev pub unless_done : String → String → TriageReport → Bool → Exec Site ExecutionOutcome
  unless_done i key report true =
      skip i (dict (("reason", str "idempotent") ∷ ("action_key", str key) ∷ [])) "idempotent"
  unless_done i key report false = do
    incident ← gets (λ s. get_incident i s.store)
    if_active i key report incident

  unfoldable pub execute_locked : String → TriageReport → Exec Site ExecutionOutcome
  execute_locked i report = do
    let key = action_key o i report
    done ← gets (λ s. has_executed_action key s.store)
    unless_done i key report done

  unfoldable pub execute : String → TriageReport → Exec Site ExecutionOutcome
  unfolding execute_locked
  execute i report =
      if report.validated
      then execute_locked i report
      else raise (executor_rejected "executor only accepts a validated TriageReport")
