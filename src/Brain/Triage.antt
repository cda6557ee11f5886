-- ===== src/Brain/Triage.antt =====
-- brain/triage.py: the triage of an incident, from the prompt to a validated report, one repair at most,
-- and the degraded paths. `os.environ` and the directory of the shadow reports are the configuration.
pub mod Proper
pub mod Keeps
pub mod Spending
pub mod Incidents
pub mod Total
pub mod Shadow
use ai_oncall.Prelude.{
  ℕ, suc, ◌/◌, String, ◌<>◌, ◌==◌, Bool, true, false, not, ◌&&◌, ◌||◌, Option, none, some, List, [],
  ◌∷◌, ◌++◌, map, if◌then◌else◌,
}
use ai_oncall.Python.Exec.{
  Exn, Exec, Result, ok, err, is_value_error, is_budget_exceeded, and_then, pure, gets, ◌>>=◌, ◌>>◌,
  catch, attempt,
}
use ai_oncall.Python.Json.{Json, str, num, strings, array, dict}
use ai_oncall.Python.Host.{Host}
use ai_oncall.Python.Texts.{Texts, join}
use ai_oncall.Store.Schema.{Incident, Store, time}
use ai_oncall.Store.Incidents.{get_incident}
use ai_oncall.Store.Timeline.{append_chained_event}
use ai_oncall.Store.Records.{save_prediction}
use ai_oncall.Incident.HashChain.{append}
use ai_oncall.Executor.Report.{Hypothesis, SuggestedAction, TriageReport}
use ai_oncall.Flow.Report.{hypothesis_dict, action_dict}
use ai_oncall.Brain.Validator.{validate_report, extract_json_object}
use ai_oncall.Brain.Budget.{TokenBudget, BudgetLedger, assert_can_spend, budget_for, record_for}
use ai_oncall.Brain.Providers.Chain.{
  Outside, CompletionRequest, CompletionResult, ProviderChain, complete,
}
use ai_oncall.Brain.Triage.Shadow.{shadow_text, shadow_name}

-- The value of PROMPT_SYSTEM.
abbrev pub prompt_system : String
prompt_system =
    "You are an SRE triage assistant. Respond with ONLY a JSON object matching: {\"incident_id\": str, \"hypotheses\": [{\"cause\": str, \"confidence\": number 0..1, \"evidence\": [str]}] (1-5 items, descending confidence), \"suggested_actions\": [{\"action\": str, \"risk\": \"read-only\"|\"mutating\", \"runbook_ref\": str|null}], \"missing_context\": [str], \"prompt_version\": semver string}. No markdown fences, no extra text."

-- `status in ACTIVE_STATUSES`
abbrev pub is_active : String → Bool
is_active st = st == "open" || st == "investigating"

pub record PipelineInput : Type 0 where
  pub incident_id : String
  pub context_summary : Json
  pub degraded_sources : List String
  pub rag_hits : List String

pub record PipelineOutcome : Type 0 where
  pub status : String
  pub report : Option TriageReport
  pub repair_attempts : ℕ
  pub tokens_used : ℕ
  pub reason : String
  pub shadow_path : Option String

unfoldable pub has_validated_report : PipelineOutcome → Bool
has_validated_report o = elim o.report [ none ↦ false | some r ↦ r.validated ]

-- What the pipeline is built with.
pub record PipelineConfig : Type 0 where
  pub prompt_version : String
  pub shadow : Bool
  -- `str(shadow_dir / name)`
  pub path_of : String → String
  -- `path.write_text(text)` returns or raises
  pub write_text : String → String → Option Exn
  -- the providers
  pub outside : Outside

-- The objects that the pipeline changes, and the files that it wrote.
pub record Pipeline : Type 0 where
  pub store : Store
  pub chain : ProviderChain
  pub ledger : BudgetLedger
  pub files : List (String × String)

-- `not xs`
abbrev pub is_empty {ℓ} : {A : Type ℓ} → List A → Bool
is_empty [] = true
is_empty (x ∷ xs) = false

abbrev pub on_store : {A : Type 0} → Exec Store A → Exec Pipeline A
on_store m p = let r = m p.store in (r.0, record p { store = r.1 })

abbrev pub lift : {A : Type 0} → Result A → Exec Pipeline A
lift r p = (r, p)

-- `self._ledger.budget_for(incident_id)`
abbrev pub account : String → Exec Pipeline TokenBudget
account i p = let r = budget_for i p.ledger in (ok r.0, record p { ledger = r.1 })

-- `budget.assert_can_spend()`
abbrev pub assert_spend : String → Exec Pipeline (Unit {0})
assert_spend i p =
    let r = budget_for i p.ledger in ((assert_can_spend 0 r.0).0, record p { ledger = r.1 })

-- `budget.record(tokens)`
abbrev pub record_spent : String → ℕ → Exec Pipeline (Unit {0})
record_spent i tokens p = (ok tt, record p { ledger = record_for i tokens p.ledger })

abbrev pub degraded_outcome : String → ℕ → ℕ → PipelineOutcome
degraded_outcome reason attempts tokens = record {
  status = "degraded";
  report = none;
  repair_attempts = attempts;
  tokens_used = tokens;
  reason = reason;
  shadow_path = none;
}

abbrev pub aborted_outcome : String → ℕ → PipelineOutcome
aborted_outcome status tokens = record {
  status = "aborted";
  report = none;
  repair_attempts = 0;
  tokens_used = tokens;
  reason = "incident status is " <> (status <> ", not active");
  shadow_path = none;
}

abbrev pub report_outcome : TriageReport → ℕ → Option String → PipelineOutcome
report_outcome report attempts path = record {
  status = "report";
  report = some report;
  repair_attempts = attempts;
  tokens_used = 0;
  reason = "";
  shadow_path = path;
}

-- `report.missing_context.extend(…)`, if sources were missing and the report does not say so
abbrev pub with_missing : List String → TriageReport → TriageReport
with_missing sources report =
    if not (is_empty sources) && is_empty report.missing_context
    then record report { missing_context = map (λ s. "context unavailable: " <> s) sources }
    else report

abbrev pub written : Option Exn → String → String → Exec Pipeline String
written none path text p = (ok path, record p { files = p.files ++ (path, text) ∷ [] })
written (some e) path text p = (err e, p)

abbrev pub go_on :
    Option PipelineOutcome → Exec Pipeline PipelineOutcome → Exec Pipeline PipelineOutcome
go_on (some stopped) m = pure stopped
go_on none m = m

abbrev pub source_part : List String → List String
source_part [] = []
source_part (s ∷ ss) =
    ("DEGRADED context sources unavailable (do NOT invent their contents): " <> join ", " (s ∷ ss))
    ∷ []

abbrev pub hit_part : List String → List String
hit_part [] = []
hit_part (t ∷ ts) = ("Similar historical knowledge:\n- " <> join "\n- " (t ∷ ts)) ∷ []

abbrev pub request_of : String → CompletionRequest
request_of prompt = record { prompt = prompt; system = prompt_system; max_tokens = 1024 }

module _ ⦃h : Host⦄ (c : PipelineConfig) where
  unfoldable pub build_prompt : PipelineInput → String
  build_prompt input = join "\n" (
      ("Incident: " <> input.incident_id)
      ∷ ("Context (JSON): " <> h.dumps input.context_summary)
      ∷ (source_part input.degraded_sources
          ++ (hit_part input.rag_hits
              ++ ("Return \"prompt_version\": \"" <> (c.prompt_version <> "\".")) ∷ [])))

  abbrev pub note_aborted : PipelineInput → String → Incident → Exec Pipeline ℕ
  note_aborted input note incident = on_store (
      append_chained_event input.incident_id "triage_aborted"
        (dict (
          ("reason", str "inactive_status")
          ∷ ("status", str incident.status)
          ∷ ("note", str note)
          ∷ []))
        none none)

  abbrev pub abort : PipelineInput → String → Incident → Exec Pipeline (Option PipelineOutcome)
  abort input note incident = do
    note_aborted input note incident
    budget ← account input.incident_id
    pure (some (aborted_outcome incident.status budget.tokens_used))

  abbrev pub unless_active :
      PipelineInput → String → Option Incident → Exec Pipeline (Option PipelineOutcome)
  unless_active input note none = pure none
  unless_active input note (some incident) =
      if is_active incident.status then pure none else abort input note incident

  unfoldable pub checkpoint : PipelineInput → String → Exec Pipeline (Option PipelineOutcome)
  checkpoint input note = do
    incident ← gets (λ p. get_incident input.incident_id p.store)
    unless_active input note incident

  abbrev pub note_degraded : PipelineInput → String → ℕ → Exec Pipeline ℕ
  note_degraded input reason attempts = on_store (
      append input.incident_id "schema_failure"
        (dict (("reason", str reason) ∷ ("repair_attempts", num attempts) ∷ [])))

  unfoldable pub degraded : PipelineInput → String → ℕ → Exec Pipeline PipelineOutcome
  degraded input reason attempts = do
    note_degraded input reason attempts
    budget ← account input.incident_id
    pure (degraded_outcome reason attempts budget.tokens_used)

  abbrev pub call : String → Exec Pipeline CompletionResult
  call prompt p =
      let r = complete c.outside (request_of prompt) p.chain in (r.0, record p { chain = r.1 })

  -- The `try` block of a call: the check of the budget, the call, and its cost.
  unfoldable pub ask : PipelineInput → String → Exec Pipeline CompletionResult
  ask input prompt = do
    assert_spend input.incident_id
    answer ← call prompt
    record_spent input.incident_id answer.tokens_used
    pure answer

module _ ⦃h : Host⦄ ⦃x : Texts⦄ (c : PipelineConfig) where
  unfoldable pub write_shadow_report : TriageReport → Exec Pipeline String
  write_shadow_report report = do
    now ← on_store time
    let path = c.path_of (shadow_name report.incident_id (now / h.second))
    let text = shadow_text report
    written (c.write_text path text) path text

  abbrev pub shadow_if : Bool → TriageReport → Exec Pipeline (Option String)
  shadow_if true report = do path ← write_shadow_report report; pure (some path)
  shadow_if false report = pure none

  abbrev pub save_report : TriageReport → Exec Pipeline String
  save_report report = on_store (
      save_prediction report.incident_id report.prompt_version
        (array (map hypothesis_dict report.hypotheses))
        (array (map action_dict report.suggested_actions)) (strings report.missing_context) 0)

  abbrev pub note_completed : PipelineInput → TriageReport → ℕ → Exec Pipeline ℕ
  note_completed input report attempts = on_store (
      append input.incident_id "triage_completed" (
        dict
          (("prompt_version", str report.prompt_version) ∷ ("repair_attempts", num attempts) ∷ [])))

  abbrev pub settle_report : PipelineInput → TriageReport → ℕ → Exec Pipeline PipelineOutcome
  settle_report input report attempts = do
    save_report report
    note_completed input report attempts
    path ← shadow_if c.shadow report
    pure (report_outcome report attempts path)

  unfoldable pub finish_report : PipelineInput → TriageReport → ℕ → Exec Pipeline PipelineOutcome
  finish_report input report attempts =
      settle_report input (with_missing input.degraded_sources report) attempts

  abbrev pub read_report : PipelineInput → CompletionResult → Result TriageReport
  read_report input answer =
      and_then (extract_json_object answer.text) (λ fs. validate_report fs (some input.incident_id))

  -- The `try` block of an answer: it is read, checked and settled.
  unfoldable pub conclude_answer :
      PipelineInput → ℕ → CompletionResult → Exec Pipeline PipelineOutcome
  conclude_answer input attempts answer = do
    report ← lift (read_report input answer)
    finish_report input report attempts

  abbrev pub repair_prompt : String → String → String
  repair_prompt prompt first_error =
      prompt
      <> ("\n\nYour previous output was INVALID: "
          <> (first_error <> "\nReturn the corrected JSON object only."))

  unfoldable pub repair : PipelineInput → String → Exn → Exec Pipeline PipelineOutcome
  repair input prompt exc =
      attempt (ask c input (repair_prompt prompt (x.message exc))) is_budget_exceeded
        (λ e. degraded c input ("budget_exceeded_during_repair: " <> x.message e) 1)
        (λ second.
          attempt (conclude_answer input 1 second) is_value_error
            (λ e. degraded c input ("schema failure after repair: " <> x.message e) 1) pure)

  abbrev pub judge_first : PipelineInput → String → CompletionResult → Exec Pipeline PipelineOutcome
  judge_first input prompt first = do
    stop ← checkpoint c input "after_first_llm"
    go_on stop (attempt (conclude_answer input 0 first) is_value_error (repair input prompt) pure)

  -- The outer `try` block.
  unfoldable pub triage : PipelineInput → String → Exec Pipeline PipelineOutcome
  triage input prompt =
      attempt (ask c input prompt) is_budget_exceeded
        (λ e. degraded c input ("budget_exceeded: " <> x.message e) 0) (judge_first input prompt)

  abbrev pub guarded_triage : PipelineInput → Exec Pipeline PipelineOutcome
  guarded_triage input = do
    account input.incident_id
    catch (triage input (build_prompt c input))
        (λ e. degraded c input ("provider_failure: " <> x.message e) 0)

  unfoldable pub run : PipelineInput → Exec Pipeline PipelineOutcome
  run input = do stop ← checkpoint c input "before_rag"; go_on stop (guarded_triage input)
