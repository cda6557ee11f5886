-- ===== src/Brain/Validator.antt =====
-- brain/schema_validator.py: the checks of a report, whose errors are collected. Two of them raise on
-- their own: a set does not take a list or a dict, and a very large integer is no float.
pub mod Contract
pub mod Sound
use ai_oncall.Prelude.{
  ℕ, suc, ◌-◌, ◌^◌, ◌*◌, ◌+◌, String, ◌<>◌, ◌==◌, Bool, true, false, not, ◌&&◌, ◌||◌, Option, none,
  some, List, [], ◌∷◌, ◌++◌, length, drop, leb, ltb, nat_eq, if◌then◌else◌,
}
use ai_oncall.Python.Exec.{Exn, Result, ok, err, value_error, other_error, and_then}
use ai_oncall.Python.Json.{
  Json, Items, Fields, null, bool, num, neg, float, non_finite, str, arr, obj, elements, get,
}
use ai_oncall.Python.Texts.{Texts, join}
use ai_oncall.Executor.Report.{Hypothesis, SuggestedAction, TriageReport}

abbrev pub max_hypotheses : ℕ
max_hypotheses = 5

abbrev pub semver_re : String
semver_re = "^\\d+\\.\\d+\\.\\d+$"

-- `risk in RISK_LEVELS`, of a text
abbrev pub is_risk : String → Bool
is_risk s = s == "read-only" || s == "mutating"

-- 1.0, in units of 2 ^ -1074
unfoldable pub one : ℕ
one = 2 ^ 1074

-- The least integer that `float` refuses.
unfoldable pub too_large : ℕ
too_large = 2 ^ 1024 - 2 ^ 970

-- `isinstance(v, str)`
abbrev pub as_text : Option Json → Option String
as_text (some (str s)) = some s
as_text _ = none

abbrev pub all_texts : List Json → Option (List String)
all_texts [] = some []
all_texts (v ∷ vs) =
    let rest = all_texts vs in
    elim (as_text (some v)) [
      | none ↦ none
      | some s ↦ elim rest [ none ↦ none | some ss ↦ some (s ∷ ss) ]
    ]

abbrev pub float_of_int : ℕ → Option ℕ → Result (Option ℕ)
float_of_int size v =
    if leb too_large size then err (other_error "int too large to convert to float") else ok v

-- `conf_ok`, with `float(conf)` if it is
abbrev pub in_unit : Option Json → Result (Option ℕ)
in_unit (some (num n)) = float_of_int n (if leb n 1 then some (n * one) else none)
in_unit (some (neg n)) = float_of_int (suc n) none
in_unit (some (float false n)) = ok (if leb n one then some n else none)
in_unit (some (float true n)) = ok (if nat_eq n 0 then some 0 else none)
in_unit _ = ok none

-- `h.get("evidence", [])`
abbrev pub evidence_of : Option Json → Option (List String)
evidence_of none = some []
evidence_of (some (arr vs)) = all_texts (elements vs)
evidence_of _ = none

abbrev pub risk_of : Option Json → Result (Option String)
risk_of (some (str s)) = ok (if is_risk s then some s else none)
risk_of (some (arr vs)) = err (other_error "unhashable type: 'list'")
risk_of (some (obj fs)) = err (other_error "unhashable type: 'dict'")
risk_of _ = ok none

-- `runbook_ref is None or isinstance(runbook_ref, str)`
abbrev pub ref_of : Option Json → Option (Option String)
ref_of none = some none
ref_of (some null) = some none
ref_of (some (str s)) = some (some s)
ref_of _ = none

abbrev pub missing {ℓ} : {A : Type ℓ} → Option A → String → List String
missing none message = message ∷ []
missing (some a) message = []

abbrev pub repr_of : Option Json → Json
repr_of none = null
repr_of (some v) = v

-- The errors found, and what was read.
abbrev pub Findings : Type 0 → Type 0
Findings A = List String × List A

abbrev pub read_hypothesis : Option String → Option ℕ → Option (List String) → List Hypothesis
read_hypothesis (some cause) (some confidence) (some evidence) =
    record { cause = cause; confidence = confidence; evidence = evidence } ∷ []
read_hypothesis _ _ _ = []

abbrev pub read_action :
    Option String → Option String → Option (Option String) → List SuggestedAction
read_action (some action) (some risk) (some ref) =
    record { action = action; risk = risk; runbook_ref = ref } ∷ []
read_action _ _ _ = []

-- The findings of a loop's first round and of the rest.
abbrev pub both : {A : Type 0} → Findings A → Findings A → Findings A
both a b = (a.0 ++ b.0, a.1 ++ b.1)

abbrev pub context_errors : Option Json → List String
context_errors (some (arr vs)) =
    missing (all_texts (elements vs)) "missing_context must contain only strings"
context_errors _ = "missing_context must be an array of strings" ∷ []

abbrev pub context_of : Option Json → List String
context_of (some (arr vs)) = elim (all_texts (elements vs)) [ none ↦ [] | some ss ↦ ss ]
context_of _ = []

-- `str(v)` of a text, and of None
abbrev pub or_none : Option String → String
or_none none = "None"
or_none (some s) = s

abbrev pub conclude : List String → TriageReport → Result TriageReport
conclude [] report = ok report
conclude (e ∷ es) report = err (value_error (join "; " (e ∷ es)))

module _ ⦃x : Texts⦄ where
  abbrev pub unless_blank : Option String → Option String
  unless_blank none = none
  unless_blank (some s) = if x.is_blank s then none else some s

  -- `isinstance(v, str) and bool(v.strip())`
  abbrev pub filled : Option Json → Option String
  filled v = unless_blank (as_text v)

  abbrev pub if_match : String → Option String → Option String
  if_match pattern none = none
  if_match pattern (some s) = if x.re_match pattern s then some s else none

  abbrev pub matching : String → Option Json → Option String
  matching pattern v = if_match pattern (as_text v)

  abbrev pub item : String → ℕ → String → String
  item list i rest = list <> ("[" <> (x.show i <> ("]" <> rest)))

  abbrev pub judge_hypothesis :
      ℕ → Option String → Option ℕ → Option (List String) → Findings Hypothesis
  judge_hypothesis i cause confidence evidence = (
    missing cause (item "hypotheses" i ".cause must be a non-empty string")
        ++ (missing confidence (item "hypotheses" i ".confidence must be a number in [0.0, 1.0]")
            ++ missing evidence (item "hypotheses" i ".evidence must be an array of strings")),
    read_hypothesis cause confidence evidence,
  )

  unfoldable pub check_hypothesis : ℕ → Json → Result (Findings Hypothesis)
  check_hypothesis i (obj h) = and_then (in_unit (get "confidence" h)) (λ confidence.
      ok (judge_hypothesis i (filled (get "cause" h)) confidence (evidence_of (get "evidence" h))))
  check_hypothesis i _ = ok (item "hypotheses" i " must be an object" ∷ [], [])

  unfoldable pub check_each_hypothesis : ℕ → List Json → Result (Findings Hypothesis)
  check_each_hypothesis i [] = ok ([], [])
  check_each_hypothesis i (v ∷ vs) =
      and_then (check_hypothesis i v)
        (λ a. and_then (check_each_hypothesis (suc i) vs) (λ b. ok (both a b)))

  abbrev pub wrong_hypotheses : Result (Findings Hypothesis)
  wrong_hypotheses = ok ("hypotheses must be an array of 1-5 items" ∷ [], [])

  unfoldable pub check_hypotheses : Option Json → Result (Findings Hypothesis)
  unfolding check_each_hypothesis
  check_hypotheses (some (arr vs)) =
      if leb 1 (length (elements vs)) && leb (length (elements vs)) max_hypotheses
      then check_each_hypothesis 0 (elements vs)
      else wrong_hypotheses
  check_hypotheses _ = wrong_hypotheses

  abbrev pub judge_action :
      ℕ
      → Option Json
      → Option String
      → Option String
      → Option (Option String)
      → Findings SuggestedAction
  judge_action i given action risk ref = (
    missing action (item "suggested_actions" i ".action must be a non-empty string")
        ++ (missing risk (
              item "suggested_actions" i
                (".risk must be one of ['mutating', 'read-only'], got " <> x.repr (repr_of given)))
            ++ missing ref (item "suggested_actions" i ".runbook_ref must be a string or null")),
    read_action action risk ref,
  )

  unfoldable pub check_action : ℕ → Json → Result (Findings SuggestedAction)
  check_action i (obj a) = and_then (risk_of (get "risk" a)) (λ risk.
      ok (
        judge_action i (get "risk" a) (filled (get "action" a)) risk
          (ref_of (get "runbook_ref" a))))
  check_action i _ = ok (item "suggested_actions" i " must be an object" ∷ [], [])

  unfoldable pub check_each_action : ℕ → List Json → Result (Findings SuggestedAction)
  check_each_action i [] = ok ([], [])
  check_each_action i (v ∷ vs) =
      and_then (check_action i v)
        (λ a. and_then (check_each_action (suc i) vs) (λ b. ok (both a b)))

  unfoldable pub check_actions : Option Json → Result (Findings SuggestedAction)
  unfolding check_each_action
  check_actions (some (arr vs)) = check_each_action 0 (elements vs)
  check_actions _ = ok ("suggested_actions must be an array" ∷ [], [])

  abbrev pub mismatch : Option String → Option String → List String
  mismatch (some expected) (some given) =
      if given == expected
      then []
      else ("incident_id mismatch: expected "
          <> (x.repr (str expected) <> (", got " <> x.repr (str given))))
        ∷ []
  mismatch _ _ = []

  abbrev pub errors_of :
      Fields → Option String → Findings Hypothesis → Findings SuggestedAction → List String
  errors_of fs expected hs as' =
      missing (filled (get "incident_id" fs)) "incident_id must be a non-empty string"
      ++ (hs.0
          ++ (as'.0
              ++ (context_errors (get "missing_context" fs)
                  ++ (missing (matching semver_re (get "prompt_version" fs))
                        "prompt_version must be a semver string like '1.0.0'"
                      ++ mismatch expected (as_text (get "incident_id" fs))))))

  abbrev pub report_of : Fields → List Hypothesis → List SuggestedAction → TriageReport
  report_of fs hs as' = record {
    incident_id = or_none (as_text (get "incident_id" fs));
    hypotheses = hs;
    suggested_actions = as';
    missing_context = context_of (get "missing_context" fs);
    prompt_version = or_none (as_text (get "prompt_version" fs));
    validated = true;
  }

  unfoldable pub validate_report : Fields → Option String → Result TriageReport
  unfolding check_hypotheses check_actions
  validate_report fs expected = and_then (check_hypotheses (get "hypotheses" fs)) (λ hs.
      and_then (check_actions (get "suggested_actions" fs))
        (λ as'. conclude (errors_of fs expected hs as') (report_of fs hs.1 as'.1)))

  abbrev pub is_fence : String → Bool
  is_fence line = x.starts_with (x.strip line) "```"

  -- `while end > start and lines[end - 1].strip().startswith("```"): end -= 1`
  unfoldable pub drop_fences : List String → List String
  drop_fences [] = []
  drop_fences (line ∷ lines) =
      let rest = drop_fences lines in
      if is_fence line then elim rest [ [] ↦ [] | l ∷ ls ↦ line ∷ l ∷ ls ] else line ∷ rest

  abbrev pub body_lines : List String → List String
  body_lines lines = drop_fences (if ltb 1 (length lines) then drop 1 lines else lines)

  abbrev pub unwrapped : String → String
  unwrapped text =
      if x.starts_with text "```"
      then x.strip (join "\n" (body_lines (x.splitlines text)))
      else text

  abbrev pub braces : Option ℕ → Option ℕ → Option (ℕ × ℕ)
  braces (some a) (some b) = if leb b a then none else some (a, b)
  braces _ _ = none

  abbrev pub as_object : Option Json → Result Fields
  as_object none = err (value_error "invalid JSON")
  as_object (some (obj fs)) = ok fs
  as_object (some _) = err (value_error "JSON top-level must be an object")

  unfoldable pub extract_json_object : String → Result Fields
  unfolding drop_fences
  extract_json_object raw =
      let text = unwrapped (x.strip raw) in
      elim (braces (x.find_text text "{") (x.rfind_text text "}")) [
        | none ↦ err (value_error "output contains no JSON object")
        | some (a, b) ↦ as_object (x.loads (x.slice a (b + 1) text))
      ]
