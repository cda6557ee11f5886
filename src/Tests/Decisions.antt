-- ===== src/Tests/Decisions.antt =====
-- The way from a report to its execution, at a concrete incident.
use ai_oncall.Prelude.{◌≡◌, refl, none, some, List, [], ◌∷◌, insert}
use ai_oncall.Python.Exec.{ok, ◌>>◌, pure}
use ai_oncall.Store.Incidents.{get_incident}
use ai_oncall.Store.Timeline.{append_chained_event, insert_event}
use ai_oncall.Store.Approvals.{record_pending_approval, set_state}
use ai_oncall.Incident.HashChain.{append}
use ai_oncall.Runbook.Approval.{PendingApproval, submit, notify, approved, outcome, refusal}
use ai_oncall.Flow.Orchestrator.{FlowConfig, Flow, register_from_report, handle_action, run_report}
use ai_oncall.Flow.Commands.{Event, registers, acts, ticks, run, run-commands}
use ai_oncall.Flow.Execution.{after_grant, decide_refused}
use ai_oncall.Flow.Registered.{register-approve}
use ai_oncall.Tests.Fixture.{test_host, test_patterns, first, shop}
use ai_oncall.Tests.Reports.{test_texts, sound_report, sound_report-IsWellFormed}
use ai_oncall.Tests.Approvals.{config}
use ai_oncall.Tests.Execution.{production}

abbrev pub flow_config : FlowConfig
flow_config = record {
  gate = config;
  runner = some production;
  timeout_seconds = 300;
  deliver_buttons = some (λ i text buttons. none);
}

abbrev pub idle : Flow
idle = record {
  gate = record { store = shop; requests = []; sent = [] };
  commands = [];
  messages = [];
}

abbrev registered : Flow
registered = (register_from_report flow_config "inc-1" sound_report idle).1

answers : (register_from_report flow_config "inc-1" sound_report idle).0 ≡ ok ("appr-0a1b2c" ∷ [])
unfolding register_from_report submit append get_incident append_chained_event insert_event notify
    record_pending_approval insert
answers = refl

still_there : get_incident "inc-1" registered.gate.store ≡ some first
unfolding register_from_report submit append get_incident append_chained_event insert_event notify
    record_pending_approval insert
still_there = refl

register-approve_example :
    (q : PendingApproval) × (q.incident_id ≡ "inc-1")
    × (handle_action flow_config "approve" "appr-0a1b2c" "ann" "" registered
        ≡ (run_report flow_config production sound_report >> pure (outcome approved "appr-0a1b2c"))
            (after_grant "appr-0a1b2c" "ann" q flow_config registered))
register-approve_example =
    register-approve flow_config "inc-1" "appr-0a1b2c" "ann" "" sound_report idle production first
      answers refl still_there refl sound_report-IsWellFormed refl

abbrev events : List Event
events =
    registers "inc-1" sound_report
    ∷ ticks
    ∷ acts "reject" "appr-0a1b2c" "ann" "no"
    ∷ acts "approved" "appr-1" "ann" ""
    ∷ []

run-commands_example : (run flow_config events idle).commands ≡ []
run-commands_example = run-commands flow_config events idle refl

decide_refused_example :
    (handle_action flow_config "approve" "appr-9" "ann" "no" idle ≡ (ok refusal, idle))
    × (handle_action flow_config "reject" "appr-9" "ann" "no" idle ≡ (
      ok refusal,
      record idle {
        gate = record idle.gate {
          store = record shop { approval_requests = set_state "appr-9" "rejected" [] };
        };
      },
    ))
decide_refused_example = decide_refused flow_config "appr-9" "ann" "no" idle refl
