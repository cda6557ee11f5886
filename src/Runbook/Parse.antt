-- ===== src/Runbook/Parse.antt =====
-- runbook/parse.py: a runbook is read from a dict, and all errors are collected. The YAML parser stands
-- outside; what it gives is taken to be made of the values of JSON.
pub mod Sound
pub mod Accepted
use ai_oncall.Prelude.{
  ℕ, suc, String, ◌<>◌, ◌==◌, Bool, true, false, Option, none, some, List, [], ◌∷◌, ◌++◌, any,
  if◌then◌else◌,
}
use ai_oncall.Python.Exec.{Exn, Result, ok, err, runbook_invalid, and_then}
use ai_oncall.Python.Json.{
  Json, Items, Fields, null, bool, num, neg, float, non_finite, str, arr, obj, elements, get,
}
use ai_oncall.Python.Texts.{Texts}
use ai_oncall.Brain.Validator.{Findings, missing, as_text, filled, matching, risk_of, repr_of, both}
use ai_oncall.Runbook.Model.{Runbook, RunbookStep}

abbrev pub name_re : String
name_re = "^[a-z][a-z0-9\\-_]{1,63}$"

-- `name in seen_names`
abbrev pub is_seen : List String → String → Bool
is_seen seen name = any (λ m. m == name) seen

abbrev pub unless_seen : List String → Option String → Option String
unless_seen seen none = none
unless_seen seen (some name) = if is_seen seen name then none else some name

abbrev pub name_errors : String → List String → Option String → List String
name_errors step seen none = (step <> (".name must match " <> name_re)) ∷ []
name_errors step seen (some name) =
    if is_seen seen name then (step <> (".name duplicated: " <> name)) ∷ [] else []

-- `raw.get("dry_run_capable", True)`, if it is a bool
abbrev pub dry_run_of : Option Json → Option Bool
dry_run_of none = some true
dry_run_of (some (bool b)) = some b
dry_run_of _ = none

-- `data.get("description", "")`, if it is a text
abbrev pub description_of : Option Json → Option String
description_of none = some ""
description_of v = as_text v

abbrev pub read_step :
    Option String → Option String → Option String → Option Bool → List RunbookStep
read_step (some name) (some action) (some risk) (some dry_run) =
    record { name = name; action = action; risk = risk; dry_run_capable = dry_run } ∷ []
read_step _ _ _ _ = []

abbrev pub prefix_of : String → String
prefix_of source = if source == "" then "" else source <> ": "

abbrev pub conclude_runbook :
    List String → Option String → Option String → Option String → List RunbookStep → Result Runbook
conclude_runbook [] (some name) (some service) (some description) steps =
    ok (record { name = name; service = service; description = description; steps = steps })
conclude_runbook errors _ _ _ steps = err (runbook_invalid errors)

module _ ⦃x : Texts⦄ where
  abbrev pub step_label : String → ℕ → String
  step_label prefix i = prefix <> ("steps[" <> (x.show i <> "]"))

  abbrev pub judge_step :
      String
      → List String
      → Option Json
      → Option String
      → Option String
      → Option String
      → Option Bool
      → Findings RunbookStep
  judge_step step seen given name action risk dry_run = (
    name_errors step seen name
        ++ (missing action (step <> ".action must be a non-empty string")
            ++ (missing risk (
                  step
                  <> (".risk must be one of ['mutating', 'read-only'], got "
                      <> x.repr (repr_of given)))
                ++ missing dry_run (step <> ".dry_run_capable must be a boolean"))),
    read_step (unless_seen seen name) action risk dry_run,
  )

  unfoldable pub check_step : String → ℕ → List String → Json → Result (Findings RunbookStep)
  check_step prefix i seen (obj raw) = and_then (risk_of (get "risk" raw)) (λ risk. ok (
      judge_step (step_label prefix i) seen (get "risk" raw) (matching name_re (get "name" raw))
        (filled (get "action" raw)) risk (dry_run_of (get "dry_run_capable" raw))))
  check_step prefix i seen _ = ok ((step_label prefix i <> " must be a mapping") ∷ [], [])

  -- `seen_names` after a step
  abbrev pub with_name : List String → Option String → List String
  with_name seen none = seen
  with_name seen (some name) = name ∷ seen

  abbrev pub seen_after : List String → Json → List String
  seen_after seen (obj raw) = with_name seen (unless_seen seen (matching name_re (get "name" raw)))
  seen_after seen _ = seen

  unfoldable pub check_steps : String → ℕ → List String → List Json → Result (Findings RunbookStep)
  check_steps prefix i seen [] = ok ([], [])
  check_steps prefix i seen (v ∷ vs) =
      and_then (check_step prefix i seen v)
        (λ a. and_then (check_steps prefix (suc i) (seen_after seen v) vs) (λ b. ok (both a b)))

  abbrev pub no_steps : String → Result (Findings RunbookStep)
  no_steps prefix = ok ((prefix <> "steps must be a non-empty array") ∷ [], [])

  abbrev pub check_some : String → List Json → Result (Findings RunbookStep)
  check_some prefix [] = no_steps prefix
  check_some prefix (v ∷ vs) = check_steps prefix 0 [] (v ∷ vs)

  unfoldable pub check_all_steps : String → Option Json → Result (Findings RunbookStep)
  check_all_steps prefix (some (arr vs)) = check_some prefix (elements vs)
  check_all_steps prefix _ = no_steps prefix

  abbrev pub runbook_errors : String → Fields → List String → List String
  runbook_errors prefix fs step_errors =
      missing (matching name_re (get "name" fs)) (prefix <> ("name must match " <> name_re))
      ++ (missing (filled (get "service" fs)) (prefix <> "service must be a non-empty string")
          ++ (missing (description_of (get "description" fs))
                (prefix <> "description must be a string")
              ++ step_errors))

  abbrev pub parse_dict : String → Fields → Result Runbook
  parse_dict prefix fs = and_then (check_all_steps prefix (get "steps" fs)) (λ steps.
      conclude_runbook (runbook_errors prefix fs steps.0) (matching name_re (get "name" fs))
        (filled (get "service" fs)) (description_of (get "description" fs)) steps.1)

  unfoldable pub parse_runbook : Json → String → Result Runbook
  parse_runbook (obj fs) source = parse_dict (prefix_of source) fs
  parse_runbook _ source =
      err (runbook_invalid ((prefix_of source <> "top-level must be a mapping") ∷ []))
