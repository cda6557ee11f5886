-- ===== src/Brain/Triage/Proper.antt =====
-- brain/triage.py: what an outcome of the pipeline may be.
use ai_oncall.Prelude.{
  ℕ, ◌≤◌, String, ◌≡◌, ◌≢◌, ◌<>◌, ◌∙◌, refl, sym, subst, Bool, true, false, not, ◌&&◌, Option, none,
  some, List, [], ◌∷◌, map, Bool-cases, eq_iff, ◌||◌, inl, inr, arith, literal_ne, if◌then◌else◌,
}
use ai_oncall.Python.Exec.{Exn, Exec, ok, is_value_error, is_budget_exceeded, and_then_ok, gets}
use ai_oncall.Python.Ensures.{
  Ensures, Ensures-pure, Ensures-if, Ensures-catch, Ensures-bind, Ensures-bind_of, Ensures-attempt,
  Ensures-any,
}
use ai_oncall.Python.Host.{Host}
use ai_oncall.Python.Texts.{Texts}
use ai_oncall.Store.Schema.{Incident}
use ai_oncall.Store.Incidents.{get_incident}
use ai_oncall.Executor.Report.{TriageReport}
use ai_oncall.Brain.Validator.{extract_json_object}
use ai_oncall.Brain.Validator.Sound.{IsWellFormed}
use ai_oncall.Brain.Validator.Contract.{validate_report_sound}
use ai_oncall.Brain.Providers.Chain.{CompletionResult}
use ai_oncall.Brain.Triage.{
  PipelineInput, PipelineOutcome, PipelineConfig, Pipeline, is_empty, build_prompt, account,
  note_degraded, note_aborted, note_completed, save_report, read_report, repair_prompt,
  with_missing, report_outcome, degraded_outcome, aborted_outcome, go_on, lift, checkpoint,
  unless_active, is_active, degraded, ask, shadow_if, settle_report, finish_report, conclude_answer,
  repair, judge_first, triage, guarded_triage, run,
}

module _ ⦃x : Texts⦄ where
  -- A report that is of this incident, keeps its contract, and names what is missing where sources were.
  pub record IsReportOf (input : PipelineInput) (r : TriageReport) : Type 0 where
    pub well_formed : IsWellFormed r
    pub of_incident : r.incident_id ≡ input.incident_id
    pub honest : (is_empty input.degraded_sources || not (is_empty r.missing_context)) ≡ true

  pub data IsProper (input : PipelineInput) (o : PipelineOutcome) : Type 0 where
    reported :
        (r : TriageReport)
        → o.status ≡ "report"
        → o.report ≡ some r
        → IsReportOf input r
        → o.repair_attempts ≤ 1
        → IsProper input o
    withheld : o.status ≢ "report" → o.report ≡ none → o.repair_attempts ≤ 1 → IsProper input o

  with_missing-IsWellFormed :
      (ss : List String) (r : TriageReport) → IsWellFormed r → IsWellFormed (with_missing ss r)
  with_missing-IsWellFormed ss r w =
      elim (Bool-cases (not (is_empty ss) && is_empty r.missing_context)) [
        | inl e ↦ rw e (record {
          identified = w.identified;
          at_least_one = w.at_least_one;
          at_most_five = w.at_most_five;
          hypotheses = w.hypotheses;
          actions = w.actions;
          versioned = w.versioned;
          checked = w.checked;
        })
        | inr e ↦ rw e w
      ]

  with_missing-id :
      (ss : List String) (r : TriageReport) → (with_missing ss r).incident_id ≡ r.incident_id
  with_missing-id ss r = ground arith

  missing_context-if :
      (ms : List String) (b : Bool) (r : TriageReport)
      → (if b then record r { missing_context = ms } else r).missing_context
        ≡ (if b then ms else r.missing_context)
  missing_context-if ms true r = refl
  missing_context-if ms false r = refl

  filled_in :
      (ss ms : List String) (b : Bool)
      → b ≡ (not (is_empty ss) && is_empty ms)
      → (is_empty ss
          || not (is_empty (if b then map (λ s. "context unavailable: " <> s) ss else ms)))
        ≡ true
  filled_in [] ms b e = refl
  filled_in (s ∷ ss) [] b e = rw e
  filled_in (s ∷ ss) (m ∷ ms) b e = rw e

  with_missing-honest :
      (ss : List String) (r : TriageReport)
      → (is_empty ss || not (is_empty (with_missing ss r).missing_context)) ≡ true
  with_missing-honest ss r =
      let b = not (is_empty ss) && is_empty r.missing_context in
      subst (λ ms. (is_empty ss || not (is_empty ms)) ≡ true)
        (sym (missing_context-if (map (λ s. "context unavailable: " <> s) ss) b r))
        (filled_in ss r.missing_context b refl)

module _ ⦃h : Host⦄ ⦃x : Texts⦄ (c : PipelineConfig) (input : PipelineInput) where
  degraded-IsProper :
      (reason : String) (n : ℕ) → n ≤ 1 → Ensures (IsProper input) (degraded c input reason n)
  unfolding degraded
  degraded-IsProper reason n small = Ensures-bind (note_degraded c input reason n) _ (λ k.
      Ensures-bind (account input.incident_id) _ (λ b.
        Ensures-pure (degraded_outcome reason n b.tokens_used)
          (withheld (literal_ne "degraded" "report" refl) refl small)))

  settled-IsProper :
      (r : TriageReport) (n : ℕ)
      → IsReportOf input r
      → n ≤ 1
      → Ensures (IsProper input) (settle_report c input r n)
  settled-IsProper r n w small = Ensures-bind (save_report c r) _ (λ k.
      Ensures-bind (note_completed c input r n) _ (λ b.
        Ensures-bind (shadow_if c c.shadow r) _
          (λ path. Ensures-pure (report_outcome r n path) (reported r refl refl w small))))

  finished-IsProper :
      (r : TriageReport) (n : ℕ)
      → IsWellFormed r
      → r.incident_id ≡ input.incident_id
      → n ≤ 1
      → Ensures (IsProper input) (finish_report c input r n)
  unfolding finish_report
  finished-IsProper r n w same small =
      settled-IsProper (with_missing input.degraded_sources r) n
        (record {
          well_formed = with_missing-IsWellFormed input.degraded_sources r w;
          of_incident = with_missing-id input.degraded_sources r ∙ same;
          honest = with_missing-honest input.degraded_sources r;
        })
        small

  IsChecked : TriageReport → Type 0
  IsChecked r = IsWellFormed r × (r.incident_id ≡ input.incident_id)

  IsChecked-report : (a : CompletionResult) → Ensures IsChecked (lift (read_report c input a))
  unfolding IsChecked
  IsChecked-report a = record {
    at = λ s r e.
        let (fs, q, e') = and_then_ok (extract_json_object a.text) _ r e in
        let (w, same) = validate_report_sound fs (some input.incident_id) r e' in
        (w, (eq_iff r.incident_id input.incident_id).0 same);
  }

  concluded-IsProper :
      (n : ℕ) (a : CompletionResult)
      → n ≤ 1
      → Ensures (IsProper input) (conclude_answer c input n a)
  unfolding conclude_answer IsChecked
  concluded-IsProper n a small =
      Ensures-bind_of IsChecked (lift (read_report c input a)) _ (IsChecked-report a)
        (λ r w. finished-IsProper r n w.0 w.1 small)

  repaired-IsProper :
      (prompt : String) (e : Exn) → Ensures (IsProper input) (repair c input prompt e)
  unfolding repair
  repaired-IsProper prompt e =
      Ensures-attempt (λ _. Unit) (ask c input (repair_prompt c prompt (x.message e)))
        is_budget_exceeded _ _ (Ensures-any _) (λ b. degraded-IsProper _ 1 (omega arith))
        (λ second _.
          Ensures-attempt (IsProper input) (conclude_answer c input 1 second) is_value_error _ _
            (concluded-IsProper 1 second (omega arith)) (λ v. degraded-IsProper _ 1 (omega arith))
            (λ o w. Ensures-pure o w))

  none_tried : 0 ≤ 1
  none_tried = omega arith

  abbrev IsStop : Option PipelineOutcome → Type 0
  IsStop none = Unit
  IsStop (some o) = IsProper input o

  go_on-IsProper :
      (stop : Option PipelineOutcome) (m : Exec Pipeline PipelineOutcome)
      → IsStop stop
      → Ensures (IsProper input) m
      → Ensures (IsProper input) (go_on stop m)
  go_on-IsProper none m w p = p
  go_on-IsProper (some o) m w p = Ensures-pure o w

  stopped_proper :
      (note : String) (inc : Option Incident) → Ensures IsStop (unless_active c input note inc)
  stopped_proper note none = Ensures-pure none tt
  stopped_proper note (some inc) =
      Ensures-if (is_active inc.status) _ _ (λ _. Ensures-pure none tt)
        (λ _. Ensures-bind (note_aborted c input note inc) _ (λ k.
          Ensures-bind (account input.incident_id) _ (λ b.
            Ensures-pure (some (aborted_outcome inc.status b.tokens_used))
              (withheld (literal_ne "aborted" "report" refl) refl none_tried))))

  checkpoint_proper : (note : String) → Ensures IsStop (checkpoint c input note)
  unfolding checkpoint
  checkpoint_proper note =
      Ensures-bind (gets (λ p. get_incident input.incident_id p.store)) _ (stopped_proper note)

  judged-IsProper :
      (prompt : String) (first : CompletionResult)
      → Ensures (IsProper input) (judge_first c input prompt first)
  judged-IsProper prompt first =
      Ensures-bind_of IsStop (checkpoint c input "after_first_llm") _
        (checkpoint_proper "after_first_llm")
        (λ stop w. go_on-IsProper stop _ w (
          Ensures-attempt (IsProper input) (conclude_answer c input 0 first) is_value_error _ _
            (concluded-IsProper 0 first (omega arith)) (repaired-IsProper prompt)
            (λ o v. Ensures-pure o v)))

  triage-IsProper : (prompt : String) → Ensures (IsProper input) (triage c input prompt)
  unfolding triage
  triage-IsProper prompt =
      Ensures-attempt (λ _. Unit) (ask c input prompt) is_budget_exceeded _ _ (Ensures-any _)
        (λ e. degraded-IsProper _ 0 (omega arith)) (λ first _. judged-IsProper prompt first)

  pub run-IsProper :
      (p : Pipeline) (o : PipelineOutcome) → (run c input p).0 ≡ ok o → IsProper input o
  unfolding run
  run-IsProper =
      (Ensures-bind_of IsStop (checkpoint c input "before_rag") _ (checkpoint_proper "before_rag")
        (λ stop w. go_on-IsProper stop (guarded_triage c input) w (
          Ensures-bind (account input.incident_id) _ (λ b.
            Ensures-catch (triage c input (build_prompt c input)) _ (triage-IsProper _)
              (λ e. degraded-IsProper ("provider_failure: " <> x.message e) 0 (omega arith)))))).at
