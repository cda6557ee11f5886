-- ===== src/Tests/Daemon.antt =====
-- The daemon on an alert that comes twice, a replay, and a runbook.
use ai_oncall.Prelude.{◌≡◌, refl, true, none, [], ◌∷◌}
use ai_oncall.Python.Exec.{ok}
use ai_oncall.Python.Json.{Json, str, fields, items, dict, array}
use ai_oncall.Store.Creation.{after_draw}
use ai_oncall.Prelude.{insert, sort_by}
use ai_oncall.Store.Incidents.{
  create_incident, get_incident_by_fingerprint, insert_incident, conflicts, get_incident,
  ensure_incident,
}
use ai_oncall.Store.Timeline.{append_timeline, append_chained_event, insert_event}
use ai_oncall.Store.Records.{latest_prediction, save_prediction}
use ai_oncall.Incident.HashChain.{append}
use ai_oncall.Brain.Validator.{
  one, too_large, validate_report, extract_json_object, drop_fences, check_hypothesis,
  check_each_hypothesis, check_hypotheses, check_action, check_each_action, check_actions,
}
use ai_oncall.Brain.Budget.{BudgetLedger, budget_for, assert_can_spend, record_for, record_usage}
use ai_oncall.Brain.Providers.Circuit.{allow_request, record_success, state}
use ai_oncall.Brain.Providers.Chain.{complete, complete_from, guarded_complete}
use ai_oncall.Flow.Report.{report_to_dict}
use ai_oncall.Brain.Triage.{
  run, checkpoint, triage, ask, degraded, build_prompt, conclude_answer, finish_report,
  write_shadow_report,
}
use ai_oncall.Evalkit.{
  ReplayCase, ReplayReport, EvalConfig, replay, ensure_cases, replay_cases, to_pipeline_input,
  action_matches, cause_hit, normalize, sum_tokens,
}
use ai_oncall.Evalkit.Tally.{IsTally, replay-IsTally}
use ai_oncall.Daemon.Core.{Core, store_of, with_store}
use ai_oncall.Daemon.Servicer.{AlertEvent, created_response, known_response, report_incident}
use ai_oncall.Daemon.Wiring.{DaemonConfig, wrapped_triage, triage_incident, input_for}
use ai_oncall.Daemon.Filed.{wired, report_incident-wrapped_triage}
use ai_oncall.Runbook.Model.{Runbook}
use ai_oncall.Runbook.Parse.{parse_runbook, check_step, check_steps, check_all_steps}
use ai_oncall.Runbook.Parse.Sound.{IsSoundRunbook}
use ai_oncall.Runbook.Parse.Accepted.{parse_runbook_sound}
use ai_oncall.Tests.Fixture.{test_host, test_patterns}
use ai_oncall.Tests.Reports.{test_texts}
use ai_oncall.Tests.Triage.{config, pipeline, ledger}
use ai_oncall.Tests.Decisions.{flow_config, idle}

abbrev book_data : Json
book_data = dict (
    ("name", str "restart-pay")
    ∷ ("service", str "pay")
    ∷ (
      "steps",
      array (
          dict (("name", str "restart") ∷ ("action", str "kubectl") ∷ ("risk", str "mutating") ∷ [])
          ∷ []),
    )
    ∷ [])

abbrev book : Runbook
book = record {
  name = "restart-pay";
  service = "pay";
  description = "";
  steps =
      record { name = "restart"; action = "kubectl"; risk = "mutating"; dry_run_capable = true }
      ∷ [];
}

parsed : parse_runbook book_data "" ≡ ok book
unfolding parse_runbook check_step check_steps check_all_steps fields items
parsed = refl

parse_runbook_sound_example : IsSoundRunbook book
parse_runbook_sound_example = parse_runbook_sound book_data "" book parsed

abbrev daemon : DaemonConfig
daemon = record { pipeline = config; flow = flow_config }

-- No call is left.
abbrev spent : BudgetLedger
spent = record { max_calls = 0; max_tokens = 20000; budgets = [] }

abbrev core : Core
core = record { flow = idle; chain = pipeline.chain; ledger = spent; files = [] }

abbrev alert : AlertEvent
alert = record {
  fingerprint = "fp-9";
  severity = 2;
  summary = "latency";
  labels = [];
  starts_at_unix = 990;
}

abbrev later_alert : AlertEvent
later_alert = record alert { summary = "still slow"; starts_at_unix = 995 }

first_answer :
    (report_incident (wired daemon none) alert core).0 ≡ ok (created_response "inc-0a1b2c")
unfolding report_incident create_incident get_incident_by_fingerprint insert_incident conflicts
    append_timeline insert_event wrapped_triage triage_incident run checkpoint get_incident
    input_for triage ask assert_can_spend budget_for insert degraded append append_chained_event
    latest_prediction sort_by
first_answer = refl

report_incident-wrapped_triage_example :
    let t = (report_incident (wired daemon none) alert core).1 in
    report_incident (wired daemon none) later_alert t
    ≡ (ok (known_response "inc-0a1b2c"), with_store (after_draw (store_of t)) t)
report_incident-wrapped_triage_example =
    report_incident-wrapped_triage daemon none alert later_alert core
      (created_response "inc-0a1b2c") refl refl first_answer

abbrev case : ReplayCase
case = record {
  case_id = "inc-1";
  context_summary = fields [];
  ground_truth_cause = "memory leak";
  expected_action_keyword = "";
  degraded_sources = [];
  rag_hits = [];
}

abbrev eval_config : EvalConfig
eval_config = record {
  pipeline = config;
  new_ledger = ledger;
  report_path = λ name. name;
  report_text = λ r. "{}";
}

abbrev replayed : ReplayReport
replayed = record {
  prompt_version = "1.1.0";
  total_cases = 1;
  reported_cases = 1;
  cause_hits = 1;
  action_usable_count = 1;
  total_tokens = 7;
  created_at = 1003;
}

replay_ends : (replay eval_config "1.1.0" (case ∷ []) pipeline).0 ≡ ok replayed
unfolding replay ensure_cases ensure_incident get_incident replay_cases run checkpoint
    to_pipeline_input triage ask assert_can_spend budget_for insert complete complete_from
    guarded_complete allow_request conclude_answer extract_json_object validate_report
    report_to_dict fields items record_for record_usage record_success state build_prompt
    finish_report check_action check_actions check_each_action check_each_hypothesis
    check_hypotheses check_hypothesis drop_fences one too_large append save_prediction
    append_chained_event insert_event write_shadow_report action_matches cause_hit normalize
    sum_tokens
replay_ends = refl

replay-IsTally_example : IsTally eval_config "1.1.0" (case ∷ []) replayed
replay-IsTally_example =
    replay-IsTally eval_config "1.1.0" (case ∷ []) pipeline replayed replay_ends
