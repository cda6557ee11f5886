-- ===== src/Runbook/Parse/Sound.antt =====
-- What holds of a runbook that runbook/parse.py accepts.
use ai_oncall.Prelude.{
  ℕ, suc, ◌≤◌, String, ◌==◌, ◌≡◌, refl, sym, ap, ◌∙◌, subst, Bool, true, false, Option, none, some,
  List, [], ◌∷◌, ◌++◌, length, All, arith, Bool-cases, inl, inr,
}
use ai_oncall.Python.Exec.{ok, and_then_ok, ok-injective}
use ai_oncall.Python.Json.{
  Json, null, bool, num, neg, float, non_finite, str, arr, obj, elements, get,
}
use ai_oncall.Python.Texts.{Texts}
use ai_oncall.Brain.Validator.{Findings, is_risk, missing, as_text, filled, matching, risk_of}
use ai_oncall.Brain.Validator.Sound.{
  append_nil_iff, missing_nil, unless_blank-some, if_match-some, risk_of-IsRisk,
}
use ai_oncall.Runbook.Model.{Runbook, RunbookStep}
use ai_oncall.Runbook.Parse.{
  name_re, is_seen, unless_seen, name_errors, dry_run_of, conclude_runbook, step_label, judge_step,
  check_step, with_name, seen_after, check_steps, check_some, check_all_steps,
}

-- No name occurs twice.
abbrev pub IsDistinct : List RunbookStep → Type 0
IsDistinct [] = Unit
IsDistinct (s ∷ ss) = All (λ t. (s.name == t.name) ≡ false) ss × IsDistinct ss

abbrev AreNew : List String → List RunbookStep → Type 0
AreNew seen ss = All (λ s. is_seen seen s.name ≡ false) ss

pub fresh_name :
    (step : String) (seen : List String) (o : Option String)
    → name_errors step seen o ≡ []
    → (n : String) × (o ≡ some n) × (unless_seen seen o ≡ some n) × (is_seen seen n ≡ false)
fresh_name step seen none e = cc
fresh_name step seen (some n) e = elim (Bool-cases (is_seen seen n)) [
  | inl s ↦ cc (rw s at e)
  | inr s ↦ (n, refl, rw s refl, s)
]

unseen_rest :
    (n : String) (seen : List String) (ss : List RunbookStep)
    → AreNew (n ∷ seen) ss
    → AreNew seen ss × All (λ t. (n == t.name) ≡ false) ss
unseen_rest n seen [] a = (tt, tt)
unseen_rest n seen (s ∷ ss) (e, a) =
    let (b, d) = unseen_rest n seen ss a in ((ground arith, b), (ground arith, d))

pub conclude_runbook_ok :
    (es : List String) (name service description : Option String) (steps : List RunbookStep)
    (r : Runbook)
    → conclude_runbook es name service description steps ≡ ok r
    → (es ≡ []) × (name ≡ some r.name) × (service ≡ some r.service) × (steps ≡ r.steps)
conclude_runbook_ok [] (some n) (some s) (some d) steps r e =
    let same = ok-injective e in
    (
      refl,
      ap (λ (t : Runbook). some t.name) same,
      ap (λ (t : Runbook). some t.service) same,
      ap (λ (t : Runbook). t.steps) same,
    )
conclude_runbook_ok [] none s d steps r e = cc
conclude_runbook_ok [] (some n) none d steps r e = cc
conclude_runbook_ok [] (some n) (some s) none steps r e = cc
conclude_runbook_ok (m ∷ es) none s d steps r e = cc
conclude_runbook_ok (m ∷ es) (some n) s d steps r e = cc

module _ ⦃x : Texts⦄ where
  abbrev pub IsSoundStep : RunbookStep → Type 0
  IsSoundStep s =
      (x.re_match name_re s.name ≡ true) × (x.is_blank s.action ≡ false) × (is_risk s.risk ≡ true)

  pub record IsSoundRunbook (r : Runbook) : Type 0 where
    pub named : x.re_match name_re r.name ≡ true
    pub of_service : x.is_blank r.service ≡ false
    pub has_steps : 1 ≤ length r.steps
    pub sound_steps : All IsSoundStep r.steps
    pub distinct : IsDistinct r.steps

  judge_step_sound :
      (step : String) (seen : List String) (given : Option Json) (name action risk : Option String)
      (dry : Option Bool)
      → (judge_step step seen given name action risk dry).0 ≡ []
      → ((n : String) → name ≡ some n → x.re_match name_re n ≡ true)
      → ((s : String) → action ≡ some s → x.is_blank s ≡ false)
      → ((s : String) → risk ≡ some s → is_risk s ≡ true)
      → (s : RunbookStep) × ((judge_step step seen given name action risk dry).1 ≡ s ∷ [])
        × IsSoundStep s
        × (is_seen seen s.name ≡ false)
        × (unless_seen seen name ≡ some s.name)
  judge_step_sound step seen given name action risk dry e p q t =
      let (e1, m1) = append_nil_iff (name_errors step seen name) _ e in
      let (e2, m2) = append_nil_iff (missing action _) _ m1 in
      let (e3, e4) = append_nil_iff (missing risk _) (missing dry _) m2 in
      let (n, named, same, new) = fresh_name step seen name e1 in
      let (a, qa) = missing_nil action _ e2 in
      let (k, qk) = missing_nil risk _ e3 in
      let (d, qd) = missing_nil dry _ e4 in
      (
        record { name = n; action = a; risk = k; dry_run_capable = d },
        rw (same, qa, qk, qd) refl,
        (p n named, q a qa, t k qk),
        new,
        same,
      )

  -- One step that is read without an error, with the names after it.
  abbrev StepRead : List String → Json → Findings RunbookStep → Type 0
  StepRead seen v f =
      (s : RunbookStep) × (f.1 ≡ s ∷ [])
      × IsSoundStep s
      × (is_seen seen s.name ≡ false)
      × (seen_after seen v ≡ s.name ∷ seen)

  not_read :
      {P : Type 0} {m : String} (f : Findings RunbookStep) → ok (m ∷ [], []) ≡ ok f → f.0 ≡ [] → P
  not_read f e n = cc (ap (λ g. g.0) (ok-injective e), n)

  check_step_sound :
      (prefix : String) (i : ℕ) (seen : List String) (v : Json) (f : Findings RunbookStep)
      → check_step prefix i seen v ≡ ok f
      → f.0 ≡ []
      → StepRead seen v f
  unfolding check_step
  check_step_sound prefix i seen (obj raw) f e nil =
      let (k, read, e') = and_then_ok (risk_of (get "risk" raw)) _ f e in
      let same = ok-injective e' in
      let (s, one_read, sound, new, fresh) =
        judge_step_sound (step_label prefix i) seen (get "risk" raw)
          (matching name_re (get "name" raw)) (filled (get "action" raw)) k
          (dry_run_of (get "dry_run_capable" raw))
          (ap (λ (g : Findings RunbookStep). g.0) same ∙ nil)
          (λ n q. (if_match-some name_re (as_text (get "name" raw)) n q).1)
          (λ t q. (unless_blank-some (as_text (get "action" raw)) t q).1)
          (λ t q. risk_of-IsRisk (get "risk" raw) t (read ∙ ap ok q)) in
      (
        s,
        sym (ap (λ (g : Findings RunbookStep). g.1) same) ∙ one_read,
        sound,
        new,
        ap (with_name seen) fresh,
      )
  check_step_sound prefix i seen null f e n = not_read f e n
  check_step_sound prefix i seen (bool b) f e n = not_read f e n
  check_step_sound prefix i seen (num k) f e n = not_read f e n
  check_step_sound prefix i seen (neg k) f e n = not_read f e n
  check_step_sound prefix i seen (float b k) f e n = not_read f e n
  check_step_sound prefix i seen (non_finite s) f e n = not_read f e n
  check_step_sound prefix i seen (str s) f e n = not_read f e n
  check_step_sound prefix i seen (arr vs) f e n = not_read f e n

  StepsRead : List String → List Json → List RunbookStep → Type 0
  StepsRead seen vs ss =
      (length ss ≡ length vs) × All IsSoundStep ss × AreNew seen ss × IsDistinct ss

  check_steps_sound :
      (prefix : String) (i : ℕ) (seen : List String) (vs : List Json) (f : Findings RunbookStep)
      → check_steps prefix i seen vs ≡ ok f
      → f.0 ≡ []
      → StepsRead seen vs f.1
  unfolding check_steps StepsRead
  check_steps_sound prefix i seen [] f e nil =
      subst (λ (g : Findings RunbookStep). StepsRead seen [] g.1) (ok-injective e)
        (refl, tt, tt, tt)
  check_steps_sound prefix i seen (v ∷ vs) f e nil =
      let (a, qa, e') = and_then_ok (check_step prefix i seen v) _ f e in
      let (b, qb, e'') = and_then_ok (check_steps prefix (suc i) (seen_after seen v) vs) _ f e' in
      let same = ok-injective e'' in
      let (na, nb) = append_nil_iff a.0 b.0 (ap (λ (g : Findings RunbookStep). g.0) same ∙ nil) in
      let (s, first, sound, new, after) = check_step_sound prefix i seen v a qa na in
      let (size, sounds, news, apart) =
        check_steps_sound prefix (suc i) (seen_after seen v) vs b qb nb in
      let (old, differ) = unseen_rest s.name seen b.1 (subst (λ w. AreNew w b.1) after news) in
      subst (λ (g : Findings RunbookStep). StepsRead seen (v ∷ vs) g.1) same
        (subst (λ ss. StepsRead seen (v ∷ vs) (ss ++ b.1)) (sym first)
          (ap suc size, (sound, sounds), (new, old), (differ, apart)))

  pub check_all_steps_sound :
      (prefix : String) (v : Option Json) (f : Findings RunbookStep)
      → check_all_steps prefix v ≡ ok f
      → f.0 ≡ []
      → (1 ≤ length f.1) × All IsSoundStep f.1 × IsDistinct f.1
  unfolding check_all_steps StepsRead
  check_all_steps_sound prefix (some (arr vs)) f e nil = go (elements vs) e
    where
      go :
          (ws : List Json)
          → check_some prefix ws ≡ ok f
          → (1 ≤ length f.1) × All IsSoundStep f.1 × IsDistinct f.1
      go [] e = not_read f e nil
      go (w ∷ ws) e =
          let (size, sounds, _, apart) = check_steps_sound prefix 0 [] (w ∷ ws) f e nil in
          (omega arith, sounds, apart)
  check_all_steps_sound prefix none f e n = not_read f e n
  check_all_steps_sound prefix (some null) f e n = not_read f e n
  check_all_steps_sound prefix (some (bool b)) f e n = not_read f e n
  check_all_steps_sound prefix (some (num k)) f e n = not_read f e n
  check_all_steps_sound prefix (some (neg k)) f e n = not_read f e n
  check_all_steps_sound prefix (some (float b k)) f e n = not_read f e n
  check_all_steps_sound prefix (some (non_finite s)) f e n = not_read f e n
  check_all_steps_sound prefix (some (str s)) f e n = not_read f e n
  check_all_steps_sound prefix (some (obj fs)) f e n = not_read f e n
