-- ===== src/Brain/Validator/Contract.antt =====
-- The report that brain/schema_validator.py returns keeps the contract of a report.
use ai_oncall.Prelude.{
  ℕ, String, ◌≡◌, refl, sym, ap, subst, true, false, ◌&&◌, Option, none, some, List, [], ◌∷◌,
  length, leb, All, arith, ◌≤◌, ◌==◌, Bool-cases, inl, inr, some_inj, if◌then◌else◌,
}
use ai_oncall.Python.Exec.{Result, ok, and_then_ok, ok-injective}
use ai_oncall.Python.Json.{
  Json, Fields, null, bool, num, neg, float, non_finite, str, arr, obj, elements, get,
}
use ai_oncall.Python.Texts.{Texts}
use ai_oncall.Executor.Report.{Hypothesis, SuggestedAction, TriageReport}
use ai_oncall.Brain.Validator.{
  semver_re, max_hypotheses, as_text, or_none, filled, matching, missing, mismatch, Findings,
  wrong_hypotheses, check_each_hypothesis, check_hypotheses, check_actions, errors_of, report_of,
  validate_report, context_errors,
}
use ai_oncall.Brain.Validator.Sound.{
  IsSoundHypothesis, IsSoundAction, IsWellFormed, is_expected, append_nil_iff, missing_nil,
  unless_blank-some, if_match-some, conclude_ok, each_hypothesis_sound, each_action_sound,
}

module _ ⦃x : Texts⦄ where
  abbrev IsSoundList : List Hypothesis → Type 0
  IsSoundList hs = (1 ≤ length hs) × ((length hs ≤ 5) × All IsSoundHypothesis hs)

  -- What was answered with an error is not free of errors.
  refused : {A P : Type 0} {m : String} (f : Findings A) → ok (m ∷ [], []) ≡ ok f → f.0 ≡ [] → P
  refused f e n = cc (ap (λ g. g.0) (ok-injective e), n)

  of_length :
      (n : ℕ) (r : Result (Findings Hypothesis)) (f : Findings Hypothesis)
      → (if leb 1 n && leb n max_hypotheses then r else wrong_hypotheses) ≡ ok f
      → f.0 ≡ []
      → (1 ≤ n) × (n ≤ 5) × (r ≡ ok f)
  of_length n r f e nil = elim (Bool-cases (leb 1 n && leb n max_hypotheses)) [
    | inl fits ↦ (ground arith, ground arith, ground arith)
    | inr misfit ↦ let same : wrong_hypotheses ≡ ok f = ground arith in refused f same nil
  ]

  check_hypotheses_sound :
      (v : Option Json) (f : Findings Hypothesis)
      → check_hypotheses v ≡ ok f
      → f.0 ≡ []
      → IsSoundList f.1
  unfolding check_hypotheses
  check_hypotheses_sound (some (arr vs)) f e n =
      let (low, high, each) =
        of_length (length (elements vs)) (check_each_hypothesis 0 (elements vs)) f e n in
      let (l, s) = each_hypothesis_sound 0 (elements vs) f each n in (omega arith, (omega arith, s))
  check_hypotheses_sound none f e n = refused f e n
  check_hypotheses_sound (some null) f e n = refused f e n
  check_hypotheses_sound (some (bool b)) f e n = refused f e n
  check_hypotheses_sound (some (num k)) f e n = refused f e n
  check_hypotheses_sound (some (neg k)) f e n = refused f e n
  check_hypotheses_sound (some (float b k)) f e n = refused f e n
  check_hypotheses_sound (some (non_finite s)) f e n = refused f e n
  check_hypotheses_sound (some (str s)) f e n = refused f e n
  check_hypotheses_sound (some (obj fs)) f e n = refused f e n

  check_actions_sound :
      (v : Option Json) (f : Findings SuggestedAction)
      → check_actions v ≡ ok f
      → f.0 ≡ []
      → All IsSoundAction f.1
  unfolding check_actions
  check_actions_sound (some (arr vs)) f e n = each_action_sound 0 (elements vs) f e n
  check_actions_sound none f e n = refused f e n
  check_actions_sound (some null) f e n = refused f e n
  check_actions_sound (some (bool b)) f e n = refused f e n
  check_actions_sound (some (num k)) f e n = refused f e n
  check_actions_sound (some (neg k)) f e n = refused f e n
  check_actions_sound (some (float b k)) f e n = refused f e n
  check_actions_sound (some (non_finite s)) f e n = refused f e n
  check_actions_sound (some (str s)) f e n = refused f e n
  check_actions_sound (some (obj fs)) f e n = refused f e n

  text_read : (o : Option String) (s : String) → o ≡ some s → or_none o ≡ s
  text_read o s e = ap or_none e

  mismatch_nil :
      (expected given : Option String) (g : String)
      → given ≡ some g
      → mismatch expected given ≡ []
      → is_expected expected g ≡ true
  mismatch_nil none given g s n = refl
  mismatch_nil (some d) none g s n = cc
  mismatch_nil (some d) (some v) g s n = elim (Bool-cases (v == d)) [
    | inl t ↦ let same : v ≡ g = some_inj s in subst (λ u. (u == d) ≡ true) same t
    | inr f ↦ cc (rw f at n)
  ]

  -- A report that `validate_report` returns keeps the whole contract: an incident id that is not blank, one
  -- to five hypotheses, each with a cause that is not blank and a confidence of at most 1.0, only actions
  -- whose risk is "read-only" or "mutating", a semver prompt version, and the mark that it was checked.
  -- Its incident id is the expected one, where one is expected.
  pub validate_report_sound :
      (fs : Fields) (expected : Option String) (r : TriageReport)
      → validate_report fs expected ≡ ok r
      → IsWellFormed r × (is_expected expected r.incident_id ≡ true)
  unfolding validate_report
  validate_report_sound fs expected r e =
      let (hs, qh, e') = and_then_ok (check_hypotheses (get "hypotheses" fs)) _ r e in
      let (as', qa, e'') = and_then_ok (check_actions (get "suggested_actions" fs)) _ r e' in
      let (none_wrong, same) =
        conclude_ok (errors_of fs expected hs as') (report_of fs hs.1 as'.1) r e'' in
      let (n1, m1) = append_nil_iff (missing (filled (get "incident_id" fs)) _) _ none_wrong in
      let (n2, m2) = append_nil_iff hs.0 _ m1 in
      let (n3, m3) = append_nil_iff as'.0 _ m2 in
      let (n4, m4) = append_nil_iff (context_errors (get "missing_context" fs)) _ m3 in
      let (n5, n6) =
        append_nil_iff (missing (matching semver_re (get "prompt_version" fs)) _) _ m4 in
      let (i, qi) = missing_nil (filled (get "incident_id" fs)) _ n1 in
      let (ri, bi) = unless_blank-some (as_text (get "incident_id" fs)) i qi in
      let (v, qv) = missing_nil (matching semver_re (get "prompt_version" fs)) _ n5 in
      let (rv, mv) = if_match-some semver_re (as_text (get "prompt_version" fs)) v qv in
      let (low, (high, sound)) = check_hypotheses_sound (get "hypotheses" fs) hs qh n2 in
      subst (λ (t : TriageReport). IsWellFormed t × (is_expected expected t.incident_id ≡ true))
        same
        (
          record {
            identified = subst (λ t. x.is_blank t ≡ false) (sym (text_read _ i ri)) bi;
            at_least_one = low;
            at_most_five = high;
            hypotheses = sound;
            actions = check_actions_sound (get "suggested_actions" fs) as' qa n3;
            versioned = subst (λ t. x.re_match semver_re t ≡ true) (sym (text_read _ v rv)) mv;
            checked = refl;
          },
          subst (λ t. is_expected expected t ≡ true) (sym (text_read _ i ri))
              (mismatch_nil expected _ i ri n6),
        )
