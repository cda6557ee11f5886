-- ===== src/Executor/Report.antt =====
-- brain/schema_validator.py: the dataclasses of a triage report. A confidence is a number of the
-- smallest steps of a float.
use ai_oncall.Prelude.{ℕ, String, ◌==◌, Bool, Option, List, filterb, if◌then◌else◌}
use ai_oncall.Python.Exec.{Exec, pure, raise, executor_rejected}

pub record Hypothesis : Type 0 where
  pub cause : String
  pub confidence : ℕ
  pub evidence : List String

pub record SuggestedAction : Type 0 where
  pub action : String
  pub risk : String
  pub runbook_ref : Option String

pub record TriageReport : Type 0 where
  pub incident_id : String
  pub hypotheses : List Hypothesis
  pub suggested_actions : List SuggestedAction
  pub missing_context : List String
  pub prompt_version : String
  pub validated : Bool

abbrev pub is_mutating : SuggestedAction → Bool
is_mutating a = a.risk == "mutating"

-- `[a for a in report.suggested_actions if a.risk == "mutating"]`
abbrev pub mutating_actions : TriageReport → List SuggestedAction
mutating_actions r = filterb is_mutating r.suggested_actions

unfoldable pub ensure_executor_input : {S : Type 0} → TriageReport → Exec S TriageReport
ensure_executor_input r =
    if r.validated
    then pure r
    else raise (executor_rejected "executor only accepts a validated TriageReport")
