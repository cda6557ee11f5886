-- ===== src/Evalkit.antt =====
-- evalkit/__init__.py: recorded incidents are triaged again, and the versions of a prompt are compared by how
-- often the triage was right. Rates are compared as exact fractions; the rounded numbers of a summary
-- and log lines are left out, and the JSON text of a report is a parameter.
pub mod Tally
use ai_oncall.Prelude.{
  ℕ, ◌+◌, ◌*◌, ◌/◌, String, ◌<>◌, ◌==◌, Bool, true, false, not, ◌&&◌, ◌||◌, Option, none, some,
  List, [], ◌∷◌, ◌++◌, length, filterb, any, nat_eq, ltb, if◌then◌else◌,
}
use ai_oncall.Python.Exec.{Exec, ok, pure, gets, ◌>>=◌, ◌>>◌}
use ai_oncall.Python.Json.{
  Json, Fields, null, bool, num, neg, float, non_finite, str, arr, obj, end, field,
}
use ai_oncall.Python.Host.{Host}
use ai_oncall.Python.Texts.{Texts}
use ai_oncall.Store.Schema.{time}
use ai_oncall.Store.Incidents.{ensure_incident}
use ai_oncall.Memory.Redact.{Patterns, redact_text}
use ai_oncall.Executor.Report.{Hypothesis, SuggestedAction, TriageReport}
use ai_oncall.Brain.Budget.{BudgetLedger}
use ai_oncall.Brain.Triage.{
  PipelineInput, PipelineOutcome, PipelineConfig, Pipeline, on_store, account, written, is_empty,
  run,
}

pub record ReplayCase : Type 0 where
  pub case_id : String
  pub context_summary : Fields
  pub ground_truth_cause : String
  pub expected_action_keyword : String
  pub degraded_sources : List String
  pub rag_hits : List String

pub record CaseResult : Type 0 where
  pub case_id : String
  pub status : String
  pub cause_hit : Bool
  pub action_usable : Bool
  pub tokens_used : ℕ

pub record ReplayReport : Type 0 where
  pub prompt_version : String
  pub total_cases : ℕ
  pub reported_cases : ℕ
  pub cause_hits : ℕ
  pub action_usable_count : ℕ
  pub total_tokens : ℕ
  pub created_at : ℕ

-- What a replay is given: the surroundings of the pipeline, the ledger that the factory gives for each case,
-- the path of a report in its directory, and the JSON text of a report.
pub record EvalConfig : Type 0 where
  pub pipeline : PipelineConfig
  pub new_ledger : BudgetLedger
  pub report_path : String → String
  pub report_text : ReplayReport → String

-- The pipeline of a replay: the given version, and always the shadow mode.
abbrev pub replay_config : EvalConfig → String → PipelineConfig
replay_config c prompt_version = record c.pipeline {
  prompt_version = prompt_version;
  shadow = true;
}

abbrev pub count : {A : Type 0} → (A → Bool) → List A → ℕ
count p xs = length (filterb p xs)

unfoldable pub sum_tokens : List CaseResult → ℕ
sum_tokens [] = 0
sum_tokens (r ∷ rs) = r.tokens_used + sum_tokens rs

abbrev pub punctuation : String
punctuation = "[\\s\\-_,.:;!?\\uff01\\uff1f\\uff0c\\uff1a\\uff1b]"

abbrev pub report_of_results : String → List CaseResult → ℕ → ℕ → ReplayReport
report_of_results prompt_version rs total now = record {
  prompt_version = prompt_version;
  total_cases = total;
  reported_cases = count (λ r. r.status == "report") rs;
  cause_hits = count (λ r. r.cause_hit) rs;
  action_usable_count = count (λ r. r.action_usable) rs;
  total_tokens = sum_tokens rs;
  created_at = now;
}

module _ ⦃p : Patterns⦄ where
  -- `redact_text(v) if isinstance(v, str) else v`
  abbrev pub redact_value : Json → Json
  redact_value (str s) = str (redact_text s)
  redact_value v = v

  unfoldable pub redact_fields : Fields → Fields
  redact_fields end = end
  redact_fields (field k v fs) = field k (redact_value v) (redact_fields fs)

  unfoldable pub to_pipeline_input : ReplayCase → PipelineInput
  unfolding redact_fields
  to_pipeline_input case = record {
    incident_id = case.case_id;
    context_summary = obj (redact_fields case.context_summary);
    degraded_sources = case.degraded_sources;
    rag_hits = case.rag_hits;
  }

module _ ⦃x : Texts⦄ where
  unfoldable pub normalize : String → String
  normalize text = x.re_sub punctuation "" (x.lower text)

  abbrev pub names_cause : String → Hypothesis → Bool
  names_cause truth h = x.contains truth (normalize h.cause) || x.contains (normalize h.cause) truth

  unfoldable pub cause_hit : Option TriageReport → String → Bool
  unfolding normalize
  cause_hit none ground_truth = false
  cause_hit (some r) ground_truth = any (names_cause (normalize ground_truth)) r.hypotheses

  unfoldable pub action_matches : Option TriageReport → String → Bool
  unfolding normalize
  action_matches none keyword = false
  action_matches (some r) keyword =
      if keyword == ""
      then not (is_empty r.suggested_actions)
      else any (λ a. x.contains (normalize keyword) (normalize a.action)) r.suggested_actions

  -- `bool(outcome.report and outcome.report.suggested_actions)`
  abbrev pub has_actions : Option TriageReport → Bool
  has_actions none = false
  has_actions (some r) = not (is_empty r.suggested_actions)

  abbrev pub result_of : ReplayCase → PipelineOutcome → ℕ → CaseResult
  result_of case outcome tokens = record {
    case_id = case.case_id;
    status = outcome.status;
    cause_hit = cause_hit outcome.report case.ground_truth_cause;
    action_usable =
        has_actions outcome.report && action_matches outcome.report case.expected_action_keyword;
    tokens_used = tokens;
  }

-- `candidate.cause_hit_rate` and the like: a fraction, 0.0 where there are no cases
abbrev pub rate : ℕ → ℕ → ℕ × ℕ
rate n total = if nat_eq total 0 then (0, 1) else (n, total)

abbrev pub is_less : ℕ × ℕ → ℕ × ℕ → Bool
is_less a b = ltb (a.0 * b.1) (b.0 * a.1)

-- `a > b * 1.5`
abbrev pub is_far_above : ℕ × ℕ → ℕ × ℕ → Bool
is_far_above a b = ltb (3 * (b.0 * a.1)) (2 * (a.0 * b.1))

unfoldable pub cause_hit_rate : ReplayReport → ℕ × ℕ
cause_hit_rate r = rate r.cause_hits r.total_cases

unfoldable pub action_usable_rate : ReplayReport → ℕ × ℕ
action_usable_rate r = rate r.action_usable_count r.total_cases

unfoldable pub avg_tokens_per_case : ReplayReport → ℕ × ℕ
avg_tokens_per_case r = rate r.total_tokens r.total_cases

abbrev pub named_if : Bool → String → List String
named_if true name = name ∷ []
named_if false name = []

unfoldable pub regressions : ReplayReport → ReplayReport → List String
regressions baseline candidate =
    named_if (is_less (cause_hit_rate candidate) (cause_hit_rate baseline)) "cause_hit_rate"
    ++ (named_if (is_less (action_usable_rate candidate) (action_usable_rate baseline))
          "action_usable_rate"
        ++ named_if (is_far_above (avg_tokens_per_case candidate) (avg_tokens_per_case baseline))
            "avg_tokens_per_case")

-- `compare(baseline, candidate)["verdict"] == "pass"`
unfoldable pub release_gate : ReplayReport → ReplayReport → Bool
release_gate baseline candidate = is_empty (regressions baseline candidate)

module _ ⦃h : Host⦄ ⦃p : Patterns⦄ ⦃x : Texts⦄ (c : EvalConfig) where
  unfoldable pub ensure_cases : List ReplayCase → Exec Pipeline (Unit {0})
  ensure_cases [] = pure tt
  ensure_cases (case ∷ cases) = do
    on_store (
        ensure_incident case.case_id ("replay-" <> case.case_id) case.ground_truth_cause
          (("case_id", case.case_id) ∷ []) "open")
    ensure_cases cases

  abbrev pub with_new_ledger : Exec Pipeline (Unit {0})
  with_new_ledger s = (ok tt, record s { ledger = c.new_ledger })

  abbrev pub replay_case : String → ReplayCase → Exec Pipeline CaseResult
  replay_case prompt_version case = do
    with_new_ledger
    outcome ← run (replay_config c prompt_version) (to_pipeline_input case)
    budget ← account case.case_id
    pure (result_of case outcome budget.tokens_used)

  unfoldable pub replay_cases : String → List ReplayCase → Exec Pipeline (List CaseResult)
  replay_cases prompt_version [] = pure []
  replay_cases prompt_version (case ∷ cases) = do
    r ← replay_case prompt_version case
    rs ← replay_cases prompt_version cases
    pure (r ∷ rs)

  abbrev pub report_name : ReplayReport → String
  report_name r =
      x.replace "." "_" r.prompt_version <> ("_" <> (x.show (r.created_at / h.second) <> ".json"))

  abbrev pub save_replay : ReplayReport → Exec Pipeline String
  save_replay r =
      let path = c.report_path (report_name r) in
      written (c.pipeline.write_text path (c.report_text r)) path (c.report_text r)

  unfoldable pub replay : String → List ReplayCase → Exec Pipeline ReplayReport
  replay prompt_version cases = do
    ensure_cases cases
    results ← replay_cases prompt_version cases
    now ← on_store time
    let report = report_of_results prompt_version results (length cases) now
    save_replay report
    pure report
