-- ===== src/Runbook/Model.antt =====
-- runbook/parse.py: the dataclasses.
use ai_oncall.Prelude.{String, ◌==◌, Bool, List, any, filterb, if◌then◌else◌}

pub record RunbookStep : Type 0 where
  pub name : String
  pub action : String
  pub risk : String
  pub dry_run_capable : Bool

pub record Runbook : Type 0 where
  pub name : String
  pub service : String
  pub description : String
  pub steps : List RunbookStep

unfoldable pub max_risk : Runbook → String
max_risk r = if any (λ s. s.risk == "mutating") r.steps then "mutating" else "read-only"

unfoldable pub steps_by_risk : String → Runbook → List RunbookStep
steps_by_risk risk r = filterb (λ s. s.risk == risk) r.steps
