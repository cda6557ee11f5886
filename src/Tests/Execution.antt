-- ===== src/Tests/Execution.antt =====
-- The executor at a concrete incident.
use ai_oncall.Prelude.{◌≡◌, ◌≢◌, refl, true, false, none, some, List, [], ◌∷◌}
use ai_oncall.Python.Exec.{ok}
use ai_oncall.Python.Json.{str}
use ai_oncall.Store.Schema.{Incident}
use ai_oncall.Store.Incidents.{get_incident}
use ai_oncall.Store.Timeline.{has_timeline_kind, append_chained_event, insert_event}
use ai_oncall.Store.Actions.{has_executed_action, record_action_started, mark_action_done}
use ai_oncall.Incident.HashChain.{append}
use ai_oncall.Executor.Report.{SuggestedAction, TriageReport, mutating_actions}
use ai_oncall.Executor.Runner.{
  Production, Command, Site, is_settled, any_of, action_key, run_step, run_steps, execute,
}
use ai_oncall.Executor.Runner.Plan.{RanSome, plan}
use ai_oncall.Executor.Runner.Guards.{execute_guarded, execute-RanSome}
use ai_oncall.Executor.Runner.Again.{execute_once}
use ai_oncall.Executor.Runner.{ExecutionOutcome, executed_steps, success}
use ai_oncall.Executor.Redact.{redact_text}
use ai_oncall.Memory.Redact.{redact_with}
use ai_oncall.Tests.Fixture.{test_host, test_patterns, shop}

abbrev pub production : Production
production = record {
  run = λ n action dry_run. ok "done";
  cut = λ n s. s;
  show = λ n. "n";
  message = λ e. "failed";
  join_sorted = λ names. "restart";
}

abbrev restart : SuggestedAction
restart = record { action = "kubectl rollout restart"; risk = "mutating"; runbook_ref = none }

abbrev report : TriageReport
report = record {
  incident_id = "inc-1";
  hypotheses = [];
  suggested_actions = restart ∷ [];
  missing_context = [];
  prompt_version = "1.0.0";
  validated = true;
}

-- The incident is open and an approval is on record.
abbrev site : Site
site = record { store = (append "inc-1" "approval_granted" (str "by ann") shop).1; commands = [] }

abbrev both : List Command
both =
    record { action = "kubectl rollout restart"; dry_run = true }
    ∷ record { action = "kubectl rollout restart"; dry_run = false }
    ∷ []

ran_both : (execute production "inc-1" report site).1.commands ≡ both
unfolding execute has_executed_action append get_incident append_chained_event insert_event
    has_timeline_kind record_action_started run_steps run_step mark_action_done
ran_both = refl

ran_some : (execute production "inc-1" report site).1.commands ≢ []
ran_some e = cc (ran_both, e)

execute_guarded_example :
    (true ≡ true)
    × (has_executed_action (action_key production "inc-1" report) site.store ≡ false)
    × ((inc : Incident) × (get_incident "inc-1" site.store ≡ some inc)
        × (is_settled inc.status ≡ false))
    × (any_of (mutating_actions report) ≡ true
        → has_timeline_kind "inc-1" "approval_granted" site.store ≡ true)
execute_guarded_example = execute_guarded production "inc-1" report site ran_some

execute-RanSome_example :
    RanSome [] (plan (restart ∷ [])) (execute production "inc-1" report site).1.commands
execute-RanSome_example = execute-RanSome production "inc-1" report site

abbrev finished : ExecutionOutcome
finished = executed_steps "inc-1" (
    record {
      step_name = "step-n-kubectl rollout restart";
      succeeded = true;
      output_redacted = "done";
      duration_seconds = 1;
      dry_run_output = some "done";
    }
    ∷ [])

answered : (execute production "inc-1" report site).0 ≡ ok finished
unfolding execute has_executed_action append get_incident append_chained_event insert_event
    has_timeline_kind record_action_started run_steps run_step mark_action_done redact_text
    redact_with
answered = refl

good : success finished ≡ true
unfolding success
good = refl

execute_once_example :
    let t = (execute production "inc-1" report site).1 in
    (execute production "inc-1" report t).1.commands ≡ t.commands
execute_once_example = execute_once production "inc-1" report site finished answered good
