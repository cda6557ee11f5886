-- ===== src/Tests/Triage.antt =====
-- The pipeline on a concrete incident, with a provider that answers.
use ai_oncall.Prelude.{String, ◌≡◌, refl, false, none, some, [], ◌∷◌}
use ai_oncall.Python.Json.{null}
use ai_oncall.Store.Incidents.{get_incident}
use ai_oncall.Brain.Budget.{BudgetLedger}
use ai_oncall.Brain.Providers.Chain.{Outside, CompletionResult, answer, guard_all}
use ai_oncall.Brain.Triage.{PipelineInput, PipelineOutcome, PipelineConfig, Pipeline, run}
use ai_oncall.Brain.Triage.Spending.{IsThrifty, run-IsThrifty}
use ai_oncall.Brain.Triage.Total.{Returns, run-Returns}
use ai_oncall.Tests.Fixture.{test_host, first, shop}
use ai_oncall.Tests.Reports.{test_texts, sound_report}

abbrev reply : CompletionResult
reply = record { text = "{}"; tokens_used = 7; provider_name = "main"; model = "m"; attempts = [] }

abbrev outside : Outside
outside = record { asked = λ k. k; failed = λ k. k; reply = λ k name request. answer reply }

abbrev pub config : PipelineConfig
config = record {
  prompt_version = "1.0.0";
  shadow = false;
  path_of = λ name. name;
  write_text = λ path text. none;
  outside = outside;
}

abbrev input_of : String → PipelineInput
input_of i = record {
  incident_id = i;
  context_summary = null;
  degraded_sources = [];
  rag_hits = [];
}

abbrev pub ledger : BudgetLedger
ledger = record { max_calls = 6; max_tokens = 20000; budgets = [] }

abbrev pub pipeline : Pipeline
pipeline = record {
  store = shop;
  chain = record { guarded = guard_all 30 ("main" ∷ []); attempts_made = 0 };
  ledger = ledger;
  files = [];
}

abbrev reported_outcome : PipelineOutcome
reported_outcome = record {
  status = "report";
  report = some sound_report;
  repair_attempts = 0;
  tokens_used = 0;
  reason = "";
  shadow_path = none;
}

run-IsThrifty_example : IsThrifty (run config (input_of "inc-1") pipeline).1.ledger
run-IsThrifty_example = run-IsThrifty config (input_of "inc-1") pipeline tt

is_there : get_incident "inc-1" shop ≡ some first
unfolding get_incident
is_there = refl

run-Returns_example : Returns (run config (input_of "inc-1") pipeline).0
run-Returns_example = run-Returns config (input_of "inc-1") pipeline first is_there
