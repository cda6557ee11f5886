-- ===== src/Flow/RoundTrip.antt =====
-- The dict that approval_flow.py stores of a report is read back as that report.
use ai_oncall.Prelude.{
  ℕ, String, ◌≡◌, refl, sym, ap, ◌∙◌, subst, Bool, true, false, ◌&&◌, ◌++◌, Option, none, some,
  List, [], ◌∷◌, map, length, leb, All, arith, ◌≤◌, suc, if◌then◌else◌,
}
use ai_oncall.Python.Exec.{Result, ok, and_then}
use ai_oncall.Python.Json.{Json, float, str, elements, items, fields, array, str_or_null}
use ai_oncall.Python.Texts.{Texts}
use ai_oncall.Executor.Report.{Hypothesis, SuggestedAction, TriageReport}
use ai_oncall.Brain.Validator.{
  all_texts, semver_re, max_hypotheses, unless_blank, if_match, missing, mismatch, Findings,
  wrong_hypotheses, one, in_unit, evidence_of, risk_of, ref_of, is_risk, judge_hypothesis,
  judge_action, both, check_hypothesis, check_action, check_each_hypothesis, check_hypotheses,
  check_each_action, check_actions, conclude, errors_of, report_of, validate_report, context_errors,
  context_of,
}
use ai_oncall.Brain.Validator.Sound.{IsSoundHypothesis, IsSoundAction, IsWellFormed, is_expected}
use ai_oncall.Flow.Report.{hypothesis_dict, action_dict, report_to_dict}

all_texts-map : (ss : List String) → all_texts (elements (items (map str ss))) ≡ some ss
unfolding items
all_texts-map [] = refl
all_texts-map (s ∷ ss) = rw (all_texts-map ss)

module _ ⦃x : Texts⦄ where
  unless_blank_filled : (s : String) → x.is_blank s ≡ false → unless_blank (some s) ≡ some s
  unless_blank_filled s e = rw e

  evidence_of_strings : (ss : List String) → evidence_of (some (array (map str ss))) ≡ some ss
  evidence_of_strings ss = all_texts-map ss

  in_unit_float : (n : ℕ) → n ≤ one → in_unit (some (float false n)) ≡ ok (some n)
  in_unit_float n e = ground arith

  ref_of-str_or_null : (o : Option String) → ref_of (some (str_or_null o)) ≡ some o
  ref_of-str_or_null none = refl
  ref_of-str_or_null (some s) = refl

  judged :
      (i : ℕ) (h : Hypothesis) (c : Option String) (v : Option (List String))
      → c ≡ some h.cause
      → v ≡ some h.evidence
      → judge_hypothesis i c (some h.confidence) v ≡ ([], h ∷ [])
  judged i h c v p q = rw (p, q)

  check_hypothesis_back :
      (i : ℕ) (h : Hypothesis)
      → IsSoundHypothesis h
      → check_hypothesis i (hypothesis_dict h) ≡ ok ([], h ∷ [])
  unfolding check_hypothesis fields
  check_hypothesis_back i h (named, small) =
      ap
        (λ (k : Result (Option ℕ)). and_then k (λ c. ok (
          judge_hypothesis i (unless_blank (some h.cause)) c
            (evidence_of (some (array (map str h.evidence)))))))
        (in_unit_float h.confidence small)
      ∙ ap ok (judged i h _ _ (unless_blank_filled h.cause named) (evidence_of_strings h.evidence))

  judged_action :
      (i : ℕ) (g : Option Json) (a : SuggestedAction) (t r : Option String)
      (f : Option (Option String))
      → t ≡ some a.action
      → r ≡ some a.risk
      → f ≡ some a.runbook_ref
      → judge_action i g t r f ≡ ([], a ∷ [])
  judged_action i g a t r f p q s = rw (p, q, s)

  risk_of_str : (s : String) → is_risk s ≡ true → risk_of (some (str s)) ≡ ok (some s)
  risk_of_str s e = rw e

  check_action_back :
      (i : ℕ) (a : SuggestedAction)
      → IsSoundAction a
      → check_action i (action_dict a) ≡ ok ([], a ∷ [])
  unfolding check_action fields
  check_action_back i a (named, risky) =
      ap
        (λ (k : Result (Option String)). and_then k (λ r. ok (
          judge_action i (some (str a.risk)) (unless_blank (some a.action)) r
            (ref_of (some (str_or_null a.runbook_ref))))))
        (risk_of_str a.risk risky)
      ∙ ap ok (
          judged_action i (some (str a.risk)) a _ _ _ (unless_blank_filled a.action named) refl
            (ref_of-str_or_null a.runbook_ref))

  both_ok :
      {A : Type 0} (p q : Result (Findings A)) (a : A) (as' : List A)
      → p ≡ ok ([], a ∷ [])
      → q ≡ ok ([], as')
      → and_then p (λ a. and_then q (λ b. ok (both a b))) ≡ ok ([], a ∷ as')
  both_ok p q a as' e f = rw (e, f)

  each_hypothesis_back :
      (i : ℕ) (hs : List Hypothesis)
      → All IsSoundHypothesis hs
      → check_each_hypothesis i (elements (items (map hypothesis_dict hs))) ≡ ok ([], hs)
  unfolding check_each_hypothesis items
  each_hypothesis_back i [] s = refl
  each_hypothesis_back i (h ∷ hs) (s, ss) =
      both_ok _ _ h hs (check_hypothesis_back i h s) (each_hypothesis_back (suc i) hs ss)

  each_action_back :
      (i : ℕ) (hs : List SuggestedAction)
      → All IsSoundAction hs
      → check_each_action i (elements (items (map action_dict hs))) ≡ ok ([], hs)
  unfolding check_each_action items
  each_action_back i [] s = refl
  each_action_back i (h ∷ hs) (s, ss) =
      both_ok _ _ h hs (check_action_back i h s) (each_action_back (suc i) hs ss)

  length-elements :
      {A : Type 0} (f : A → Json) (xs : List A) → length (elements (items (map f xs))) ≡ length xs
  unfolding items
  length-elements f [] = refl
  length-elements f (y ∷ ys) = ap suc (length-elements f ys)

  if_fits :
      (n : ℕ) (r : Result (Findings Hypothesis)) (hs : List Hypothesis)
      → 1 ≤ n
      → n ≤ 5
      → r ≡ ok ([], hs)
      → (if leb 1 n && leb n max_hypotheses then r else wrong_hypotheses) ≡ ok ([], hs)
  if_fits n r hs low high e = ground arith

  hypotheses_back :
      (hs : List Hypothesis)
      → 1 ≤ length hs
      → length hs ≤ 5
      → All IsSoundHypothesis hs
      → check_hypotheses (some (array (map hypothesis_dict hs))) ≡ ok ([], hs)
  unfolding check_hypotheses
  hypotheses_back hs low high s =
      if_fits (length (elements (items (map hypothesis_dict hs)))) _ hs
        (subst (λ n. 1 ≤ n) (sym (length-elements hypothesis_dict hs)) low)
        (subst (λ n. n ≤ 5) (sym (length-elements hypothesis_dict hs)) high)
        (each_hypothesis_back 0 hs s)

  actions_back :
      (hs : List SuggestedAction)
      → All IsSoundAction hs
      → check_actions (some (array (map action_dict hs))) ≡ ok ([], hs)
  unfolding check_actions
  actions_back hs s = each_action_back 0 hs s

  no_mismatch :
      (expected : Option String) (i : String)
      → is_expected expected i ≡ true
      → mismatch expected (some i) ≡ []
  no_mismatch none i f = refl
  no_mismatch (some d) i f = rw f

  finished :
      (p : Result (Findings Hypothesis)) (q : Result (Findings SuggestedAction))
      (errors : Findings Hypothesis → Findings SuggestedAction → List String)
      (report : List Hypothesis → List SuggestedAction → TriageReport) (hs : List Hypothesis)
      (as' : List SuggestedAction)
      → p ≡ ok ([], hs)
      → q ≡ ok ([], as')
      → errors ([], hs) ([], as') ≡ []
      → and_then p (λ h. and_then q (λ a. conclude (errors h a) (report h.1 a.1)))
        ≡ ok (report hs as')
  finished p q errors report hs as' e f n = rw (e, f, n)

  no_errors :
      (i v : String) (ms : List String) (expected : Option String)
      → x.is_blank i ≡ false
      → x.re_match semver_re v ≡ true
      → mismatch expected (some i) ≡ []
      → missing (unless_blank (some i)) "incident_id must be a non-empty string"
          ++ (context_errors (some (array (map str ms)))
              ++ (missing
                    (if_match semver_re (some v))
                    "prompt_version must be a semver string like '1.0.0'"
                  ++ mismatch expected (some i)))
        ≡ []
  no_errors i v ms expected named versioned same = rw (named, versioned, same, all_texts-map ms)

  same_report :
      (r : TriageReport) (ms : List String) (v : Bool)
      → ms ≡ r.missing_context
      → v ≡ r.validated
      → record r { missing_context = ms; validated = v } ≡ r
  same_report r ms v e f = rw (e, f)

  context_back : (ms : List String) → context_of (some (array (map str ms))) ≡ ms
  context_back ms = rw (all_texts-map ms, context_of)

  -- The dict that is stored of a report that keeps the contract is read back as that report.
  pub validate_report-report_to_dict :
      (r : TriageReport) (expected : Option String)
      → IsWellFormed r
      → is_expected expected r.incident_id ≡ true
      → validate_report (report_to_dict r) expected ≡ ok r
  unfolding validate_report report_to_dict fields
  validate_report-report_to_dict r expected w f =
      finished _ _ (errors_of (report_to_dict r) expected) (report_of (report_to_dict r))
        r.hypotheses r.suggested_actions
        (hypotheses_back r.hypotheses w.at_least_one w.at_most_five w.hypotheses)
        (actions_back r.suggested_actions w.actions)
        (no_errors r.incident_id r.prompt_version r.missing_context expected w.identified
          w.versioned (no_mismatch expected r.incident_id f))
      ∙ ap ok (same_report r _ true (context_back r.missing_context) (sym w.checked))
