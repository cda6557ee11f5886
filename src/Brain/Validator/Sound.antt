-- ===== src/Brain/Validator/Sound.antt =====
-- What holds of a report that passes the checks.
use ai_oncall.Prelude.{
  ℕ, zero, suc, ◌*◌, ◌≤◌, String, ◌==◌, ◌≡◌, refl, ap, ◌∙◌, subst, inl, inr, Bool, true, false,
  Option, none, some, List, [], ◌∷◌, ◌++◌, length, length-append, leb, All, All-append, arith,
  Bool-cases, if◌then◌else◌, some_inj,
}
use ai_oncall.Python.Exec.{ok, and_then_ok, ok-injective}
use ai_oncall.Python.Json.{Json, null, bool, num, neg, float, non_finite, str, arr, obj, get}
use ai_oncall.Python.Texts.{Texts}
use ai_oncall.Executor.Report.{Hypothesis, SuggestedAction, TriageReport}
use ai_oncall.Brain.Validator.{
  semver_re, is_risk, one, too_large, as_text, unless_blank, if_match, in_unit, float_of_int,
  evidence_of, risk_of, ref_of, missing, Findings, filled, judge_hypothesis, check_hypothesis,
  check_each_hypothesis, judge_action, check_action, check_each_action, conclude,
}

pub append_nil_iff {ℓ} : {A : Type ℓ} (xs ys : List A) → xs ++ ys ≡ [] → (xs ≡ []) × (ys ≡ [])
append_nil_iff [] ys e = (refl, e)
append_nil_iff (x ∷ xs) ys e = cc

pub missing_nil {ℓ} :
    {A : Type ℓ} (o : Option A) (m : String) → missing o m ≡ [] → (a : A) × (o ≡ some a)
missing_nil none m e = cc
missing_nil (some a) m e = (a, refl)

if_some {ℓ} :
    {A : Type ℓ} (b : Bool) (a c : A) → (if b then some a else none) ≡ some c → (b ≡ true) × (a ≡ c)
if_some true a c e = (refl, some_inj e)
if_some false a c e = cc

float_of_int_ok : (size : ℕ) (v : Option ℕ) (k : ℕ) → float_of_int size v ≡ ok (some k) → v ≡ some k
float_of_int_ok size v k e = elim (Bool-cases (leb too_large size)) [
  | inl big ↦ cc (rw big at e)
  | inr small ↦ ok-injective (rw small at e)
]

-- A confidence that is accepted is at most 1.0.
in_unit-le : (v : Option Json) (k : ℕ) → in_unit v ≡ ok (some k) → k ≤ one
in_unit-le none k e = cc
in_unit-le (some null) k e = cc
in_unit-le (some (bool b)) k e = cc
in_unit-le (some (num zero)) k e =
    let q : 0 * one ≡ k = some_inj (float_of_int_ok 0 _ k e) in omega arith
in_unit-le (some (num (suc zero))) k e =
    let q : 1 * one ≡ k = some_inj (float_of_int_ok 1 _ k e) in omega arith
in_unit-le (some (num (suc (suc n)))) k e =
    let q =
      float_of_int_ok (suc (suc n)) (if leb (suc (suc n)) 1 then some (suc (suc n) * one) else none)
        k e in
    ground arith
in_unit-le (some (neg n)) k e = cc (float_of_int_ok (suc n) none k e)
in_unit-le (some (float false n)) k e = ground arith
in_unit-le (some (float true n)) k e = ground arith
in_unit-le (some (non_finite s)) k e = cc
in_unit-le (some (str s)) k e = cc
in_unit-le (some (arr vs)) k e = cc
in_unit-le (some (obj fs)) k e = cc

pub risk_of-IsRisk : (v : Option Json) (s : String) → risk_of v ≡ ok (some s) → is_risk s ≡ true
risk_of-IsRisk none s e = cc
risk_of-IsRisk (some null) s e = cc
risk_of-IsRisk (some (bool b)) s e = cc
risk_of-IsRisk (some (num n)) s e = cc
risk_of-IsRisk (some (neg n)) s e = cc
risk_of-IsRisk (some (float b n)) s e = cc
risk_of-IsRisk (some (non_finite t)) s e = cc
risk_of-IsRisk (some (str t)) s e =
    let (b, same) = if_some (is_risk t) t s (ok-injective e) in subst (λ u. is_risk u ≡ true) same b
risk_of-IsRisk (some (arr vs)) s e = cc
risk_of-IsRisk (some (obj fs)) s e = cc

pub conclude_ok :
    (es : List String) (r r' : TriageReport) → conclude es r ≡ ok r' → (es ≡ []) × (r ≡ r')
conclude_ok [] r r' e = (refl, ok-injective e)
conclude_ok (m ∷ es) r r' e = cc

module _ ⦃x : Texts⦄ where
  abbrev pub IsSoundHypothesis : Hypothesis → Type 0
  IsSoundHypothesis h = (x.is_blank h.cause ≡ false) × (h.confidence ≤ one)

  abbrev pub IsSoundAction : SuggestedAction → Type 0
  IsSoundAction a = (x.is_blank a.action ≡ false) × (is_risk a.risk ≡ true)

  -- Any incident id is as expected where none is.
  abbrev pub is_expected : Option String → String → Bool
  is_expected none i = true
  is_expected (some e) i = i == e

  -- The contract of a triage report.
  pub record IsWellFormed (r : TriageReport) : Type 0 where
    pub identified : x.is_blank r.incident_id ≡ false
    pub at_least_one : 1 ≤ length r.hypotheses
    pub at_most_five : length r.hypotheses ≤ 5
    pub hypotheses : All IsSoundHypothesis r.hypotheses
    pub actions : All IsSoundAction r.suggested_actions
    pub versioned : x.re_match semver_re r.prompt_version ≡ true
    pub checked : r.validated ≡ true

  pub unless_blank-some :
      (o : Option String) (s : String)
      → unless_blank o ≡ some s
      → (o ≡ some s) × (x.is_blank s ≡ false)
  unless_blank-some none s e = cc
  unless_blank-some (some t) s e = ground arith

  pub if_match-some :
      (p : String) (o : Option String) (s : String)
      → if_match p o ≡ some s
      → (o ≡ some s) × (x.re_match p s ≡ true)
  if_match-some p none s e = cc
  if_match-some p (some t) s e = ground arith

  judge_hypothesis_sound :
      (i : ℕ) (cause : Option String) (confidence : Option ℕ) (evidence : Option (List String))
      → (judge_hypothesis i cause confidence evidence).0 ≡ []
      → ((s : String) → cause ≡ some s → x.is_blank s ≡ false)
      → ((k : ℕ) → confidence ≡ some k → k ≤ one)
      → let hs = (judge_hypothesis i cause confidence evidence).1 in
        (length hs ≡ 1) × All IsSoundHypothesis hs
  judge_hypothesis_sound i none k v e p q = cc
  judge_hypothesis_sound i (some c) none v e p q = cc
  judge_hypothesis_sound i (some c) (some k) none e p q = cc
  judge_hypothesis_sound i (some c) (some k) (some v) e p q = (refl, ((p c refl, q k refl), tt))

  judge_action_sound :
      (i : ℕ) (given : Option Json) (action risk : Option String) (ref : Option (Option String))
      → (judge_action i given action risk ref).0 ≡ []
      → ((s : String) → action ≡ some s → x.is_blank s ≡ false)
      → ((s : String) → risk ≡ some s → is_risk s ≡ true)
      → All IsSoundAction (judge_action i given action risk ref).1
  judge_action_sound i g none r f e p q = cc
  judge_action_sound i g (some a) none f e p q = cc
  judge_action_sound i g (some a) (some r) none e p q = cc
  judge_action_sound i g (some a) (some r) (some f) e p q = ((p a refl, q r refl), tt)

  check_hypothesis_sound :
      (i : ℕ) (v : Json) (f : Findings Hypothesis)
      → check_hypothesis i v ≡ ok f
      → f.0 ≡ []
      → (length f.1 ≡ 1) × All IsSoundHypothesis f.1
  unfolding check_hypothesis
  check_hypothesis_sound i (obj h) f e none_wrong =
      let (k, read, e') = and_then_ok (in_unit (get "confidence" h)) _ f e in
      let same = ok-injective e' in
      let (one_read, sound) =
        judge_hypothesis_sound i (filled (get "cause" h)) k (evidence_of (get "evidence" h))
          (ap (λ (g : Findings Hypothesis). g.0) same ∙ none_wrong)
          (λ s q. (unless_blank-some (as_text (get "cause" h)) s q).1)
          (λ n q. in_unit-le (get "confidence" h) n (read ∙ ap ok q)) in
      subst (λ (g : Findings Hypothesis). (length g.1 ≡ 1) × All IsSoundHypothesis g.1) same
        (one_read, sound)
  check_hypothesis_sound i null f e n = cc
  check_hypothesis_sound i (bool b) f e n = cc
  check_hypothesis_sound i (num k) f e n = cc
  check_hypothesis_sound i (neg k) f e n = cc
  check_hypothesis_sound i (float b k) f e n = cc
  check_hypothesis_sound i (non_finite s) f e n = cc
  check_hypothesis_sound i (str s) f e n = cc
  check_hypothesis_sound i (arr vs) f e n = cc

  check_action_sound :
      (i : ℕ) (v : Json) (f : Findings SuggestedAction)
      → check_action i v ≡ ok f
      → f.0 ≡ []
      → All IsSoundAction f.1
  unfolding check_action
  check_action_sound i (obj a) f e none_wrong =
      let (r, read, e') = and_then_ok (risk_of (get "risk" a)) _ f e in
      let same = ok-injective e' in
      subst (λ (g : Findings SuggestedAction). All IsSoundAction g.1) same
        (judge_action_sound i (get "risk" a) (filled (get "action" a)) r
          (ref_of (get "runbook_ref" a))
          (ap (λ (g : Findings SuggestedAction). g.0) same ∙ none_wrong)
          (λ s q. (unless_blank-some (as_text (get "action" a)) s q).1)
          (λ s q. risk_of-IsRisk (get "risk" a) s (read ∙ ap ok q)))
  check_action_sound i null f e n = cc
  check_action_sound i (bool b) f e n = cc
  check_action_sound i (num k) f e n = cc
  check_action_sound i (neg k) f e n = cc
  check_action_sound i (float b k) f e n = cc
  check_action_sound i (non_finite s) f e n = cc
  check_action_sound i (str s) f e n = cc
  check_action_sound i (arr vs) f e n = cc

  pub each_hypothesis_sound :
      (i : ℕ) (vs : List Json) (f : Findings Hypothesis)
      → check_each_hypothesis i vs ≡ ok f
      → f.0 ≡ []
      → (length f.1 ≡ length vs) × All IsSoundHypothesis f.1
  unfolding check_each_hypothesis
  each_hypothesis_sound i [] f e n =
      subst (λ (g : Findings Hypothesis). (length g.1 ≡ 0) × All IsSoundHypothesis g.1)
        (ok-injective e) (refl, tt)
  each_hypothesis_sound i (v ∷ vs) f e n =
      let (a, qa, e') = and_then_ok (check_hypothesis i v) _ f e in
      let (b, qb, e'') = and_then_ok (check_each_hypothesis (suc i) vs) _ f e' in
      let same = ok-injective e'' in
      let (na, nb) = append_nil_iff a.0 b.0 (ap (λ (g : Findings Hypothesis). g.0) same ∙ n) in
      let (la, sa) = check_hypothesis_sound i v a qa na in
      let (lb, sb) = each_hypothesis_sound (suc i) vs b qb nb in
      subst
        (λ (g : Findings Hypothesis). (length g.1 ≡ suc (length vs)) × All IsSoundHypothesis g.1)
        same (omega (arith, length-append a.1 b.1), All-append IsSoundHypothesis a.1 b.1 sa sb)

  pub each_action_sound :
      (i : ℕ) (vs : List Json) (f : Findings SuggestedAction)
      → check_each_action i vs ≡ ok f
      → f.0 ≡ []
      → All IsSoundAction f.1
  unfolding check_each_action
  each_action_sound i [] f e n =
      subst (λ (g : Findings SuggestedAction). All IsSoundAction g.1) (ok-injective e) tt
  each_action_sound i (v ∷ vs) f e n =
      let (a, qa, e') = and_then_ok (check_action i v) _ f e in
      let (b, qb, e'') = and_then_ok (check_each_action (suc i) vs) _ f e' in
      let same = ok-injective e'' in
      let (na, nb) = append_nil_iff a.0 b.0 (ap (λ (g : Findings SuggestedAction). g.0) same ∙ n) in
      subst (λ (g : Findings SuggestedAction). All IsSoundAction g.1) same
        (All-append IsSoundAction a.1 b.1 (check_action_sound i v a qa na)
          (each_action_sound (suc i) vs b qb nb))
