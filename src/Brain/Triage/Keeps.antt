-- ===== src/Brain/Triage/Keeps.antt =====
-- brain/triage.py: what its single steps keep, a whole run keeps, however it ends.
use ai_oncall.Prelude.{ℕ, String, ◌<>◌, Option, none, some, Bool}
use ai_oncall.Python.Exec.{Exn, Exec, is_value_error, is_budget_exceeded, gets}
use ai_oncall.Python.Preserves.{
  Preserves, Preserves-pure, Preserves-gets, Preserves-bind, Preserves-if, Preserves-catch,
  Preserves-attempt,
}
use ai_oncall.Python.Host.{Host}
use ai_oncall.Python.Texts.{Texts}
use ai_oncall.Store.Schema.{Incident}
use ai_oncall.Store.Incidents.{get_incident}
use ai_oncall.Executor.Report.{TriageReport}
use ai_oncall.Brain.Providers.Chain.{CompletionResult}
use ai_oncall.Brain.Triage.{
  PipelineInput, PipelineOutcome, PipelineConfig, Pipeline, build_prompt, account, lift,
  note_degraded, note_aborted, note_completed, save_report, read_report, repair_prompt,
  with_missing, report_outcome, degraded_outcome, aborted_outcome, go_on, checkpoint, unless_active,
  is_active, degraded, ask, shadow_if, settle_report, finish_report, conclude_answer, repair,
  judge_first, triage, guarded_triage, run,
}

-- The steps of a run on one input.
pub record Keeps ⦃h : Host⦄ ⦃x : Texts⦄ (c : PipelineConfig) (input : PipelineInput)
    (P : Pipeline → Type 0) : Type 0 where
  pub accounts : Preserves P (account input.incident_id)
  pub asks : (prompt : String) → Preserves P (ask c input prompt)
  pub aborts : (note : String) (inc : Incident) → Preserves P (note_aborted c input note inc)
  pub degrades : (reason : String) (n : ℕ) → Preserves P (note_degraded c input reason n)
  pub completes : (r : TriageReport) (n : ℕ) → Preserves P (note_completed c input r n)
  pub saves : (r : TriageReport) → Preserves P (save_report c r)
  pub writes : (b : Bool) (r : TriageReport) → Preserves P (shadow_if c b r)

module _ ⦃h : Host⦄ ⦃x : Texts⦄ (c : PipelineConfig) (input : PipelineInput) (P : Pipeline → Type 0)
    (k : Keeps c input P) where
  pub degraded-kept : (reason : String) (n : ℕ) → Preserves P (degraded c input reason n)
  unfolding degraded
  degraded-kept reason n =
      Preserves-bind (note_degraded c input reason n) _ (k.degrades reason n) (λ e.
        Preserves-bind (account input.incident_id) _ k.accounts
          (λ b. Preserves-pure (degraded_outcome reason n b.tokens_used)))

  settled-kept : (r : TriageReport) (n : ℕ) → Preserves P (settle_report c input r n)
  settled-kept r n = Preserves-bind (save_report c r) _ (k.saves r) (λ i.
      Preserves-bind (note_completed c input r n) _ (k.completes r n) (λ e.
        Preserves-bind (shadow_if c c.shadow r) _ (k.writes c.shadow r)
          (λ path. Preserves-pure (report_outcome r n path))))

  concluded-kept : (n : ℕ) (a : CompletionResult) → Preserves P (conclude_answer c input n a)
  unfolding conclude_answer finish_report
  concluded-kept n a =
      Preserves-bind (lift (read_report c input a)) _ (record { at = λ s h. h })
        (λ r. settled-kept (with_missing input.degraded_sources r) n)

  repaired-kept : (prompt : String) (e : Exn) → Preserves P (repair c input prompt e)
  unfolding repair
  repaired-kept prompt e =
      Preserves-attempt (ask c input (repair_prompt c prompt (x.message e))) is_budget_exceeded _ _
        (k.asks _) (λ b. degraded-kept _ 1)
        (λ second.
          Preserves-attempt (conclude_answer c input 1 second) is_value_error _ _
            (concluded-kept 1 second) (λ v. degraded-kept _ 1) Preserves-pure)

  go_on-kept :
      (stop : Option PipelineOutcome) (m : Exec Pipeline PipelineOutcome)
      → Preserves P m
      → Preserves P (go_on stop m)
  go_on-kept none m p = p
  go_on-kept (some o) m p = Preserves-pure o

  stopped-kept :
      (note : String) (inc : Option Incident) → Preserves P (unless_active c input note inc)
  stopped-kept note none = Preserves-pure none
  stopped-kept note (some inc) =
      Preserves-if (is_active inc.status) _ _ (λ _. Preserves-pure none)
        (λ _. Preserves-bind (note_aborted c input note inc) _ (k.aborts note inc) (λ e.
          Preserves-bind (account input.incident_id) _ k.accounts
            (λ b. Preserves-pure (some (aborted_outcome inc.status b.tokens_used)))))

  pub checkpoint-kept : (note : String) → Preserves P (checkpoint c input note)
  unfolding checkpoint
  checkpoint-kept note =
      Preserves-bind (gets (λ p. get_incident input.incident_id p.store)) _ (Preserves-gets _)
        (stopped-kept note)

  judged-kept :
      (prompt : String) (first : CompletionResult) → Preserves P (judge_first c input prompt first)
  judged-kept prompt first =
      Preserves-bind (checkpoint c input "after_first_llm") _ (checkpoint-kept _) (λ stop.
        go_on-kept stop _ (
          Preserves-attempt (conclude_answer c input 0 first) is_value_error _ _
            (concluded-kept 0 first) (repaired-kept prompt) Preserves-pure))

  pub triage-kept : (prompt : String) → Preserves P (triage c input prompt)
  unfolding triage
  triage-kept prompt =
      Preserves-attempt (ask c input prompt) is_budget_exceeded _ _ (k.asks prompt)
        (λ e. degraded-kept _ 0) (judged-kept prompt)

  pub run-kept : Preserves P (run c input)
  unfolding run
  run-kept = Preserves-bind (checkpoint c input "before_rag") _ (checkpoint-kept _) (λ stop.
      go_on-kept stop (guarded_triage c input) (
        Preserves-bind (account input.incident_id) _ k.accounts (λ b.
          Preserves-catch (triage c input (build_prompt c input)) _ (triage-kept _)
            (λ e. degraded-kept ("provider_failure: " <> x.message e) 0))))
