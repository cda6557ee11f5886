-- ===== src/Brain/Triage/Spending.antt =====
-- brain/triage.py against brain/budget.py: no run takes an account past its limit of calls.
use ai_oncall.Prelude.{
  [], ◌∷◌, ℕ, ◌≤◌, String, ◌≡◌, refl, inl, inr, Option, none, some, Bool, true, false, Dict, lookup,
  lookup-insert, All, All-insert, arith, eq_refl, Option-cases,
}
use ai_oncall.Python.Exec.{Exn, Result, ok, err, next, pure, ◌>>=◌, ◌>>◌}
use ai_oncall.Python.Preserves.{Preserves, Preserves-pure}
use ai_oncall.Python.Host.{Host}
use ai_oncall.Python.Texts.{Texts}
use ai_oncall.Executor.Report.{TriageReport}
use ai_oncall.Brain.Budget.{
  TokenBudget, new_budget, BudgetLedger, assert_can_spend, record_usage, budget_for, record_for,
}
use ai_oncall.Brain.Providers.Chain.{CompletionResult, complete}
use ai_oncall.Brain.Triage.{
  PipelineInput, PipelineConfig, Pipeline, ask, call, request_of, written, shadow_if, run,
  write_shadow_report, assert_spend, record_spent,
}
use ai_oncall.Brain.Triage.Keeps.{run-kept}

abbrev IsInLimit : String × TokenBudget → Type 0
IsInLimit e = e.1.calls_used ≤ e.1.max_calls

-- No account of the ledger has more calls than its limit.
abbrev pub IsThrifty : BudgetLedger → Type 0
IsThrifty l = All IsInLimit l.budgets

lookup_in_limit :
    (i : String) (d : Dict TokenBudget) (b : TokenBudget)
    → All IsInLimit d
    → lookup i d ≡ some b
    → b.calls_used ≤ b.max_calls
lookup_in_limit i [] b w e = cc
lookup_in_limit i ((j, a) ∷ d) b w e = ground (arith, lookup_in_limit i d b w.1)

-- `budget_for` finds its own account again.
lookup-budget_for :
    (i : String) (l : BudgetLedger) → lookup i (budget_for i l).1.budgets ≡ some (budget_for i l).0
unfolding budget_for
lookup-budget_for i l = elim (Option-cases (lookup i l.budgets)) [
  | inl e ↦
      rw e (rw (lookup-insert i i (new_budget i l.max_calls l.max_tokens) l.budgets, eq_refl i))
  | inr (b, e) ↦ rw (e, e)
]

budget_for-IsThrifty : (i : String) (l : BudgetLedger) → IsThrifty l → IsThrifty (budget_for i l).1
unfolding budget_for
budget_for-IsThrifty i l w = elim (Option-cases (lookup i l.budgets)) [
  | inl e ↦
      rw e
        (All-insert IsInLimit i (new_budget i l.max_calls l.max_tokens) l.budgets (omega arith) w)
  | inr (b, e) ↦ rw e w
]

spend-IsInLimit :
    (b : TokenBudget) (n : ℕ) → (assert_can_spend 0 b).0 ≡ ok tt → IsInLimit ("", record_usage n b)
unfolding assert_can_spend record_usage
spend-IsInLimit b n e = ground arith

record_for-IsThrifty :
    (i : String) (n : ℕ) (l : BudgetLedger) (b : TokenBudget)
    → lookup i l.budgets ≡ some b
    → IsInLimit (i, record_usage n b)
    → IsThrifty l
    → IsThrifty (record_for i n l)
unfolding record_for budget_for
record_for-IsThrifty i n l b e small w =
    rw e (All-insert IsInLimit i (record_usage n b) l.budgets small w)

module _ ⦃h : Host⦄ ⦃x : Texts⦄ (c : PipelineConfig) (input : PipelineInput) where
  IsThriftyPipeline : Pipeline → Type 0
  IsThriftyPipeline p = IsThrifty p.ledger

  abbrev CanPay : TokenBudget → Pipeline → Type 0
  CanPay b p = lookup input.incident_id p.ledger.budgets ≡ some b

  answered-IsThrifty :
      (r : Result CompletionResult) (p : Pipeline) (b : TokenBudget)
      → CanPay b p
      → ((n : ℕ) → IsInLimit ("", record_usage n b))
      → IsThrifty p.ledger
      → IsThrifty (next r p (λ a. record_spent input.incident_id a.tokens_used >> pure a)).1.ledger
  answered-IsThrifty (ok a) p b q small w =
      record_for-IsThrifty input.incident_id a.tokens_used p.ledger b q (small a.tokens_used) w
  answered-IsThrifty (err e) p b q small w = w

  asserted-IsThrifty :
      (prompt : String) (r : Result (Unit {0})) (p : Pipeline) (b : TokenBudget)
      → CanPay b p
      → (r ≡ ok tt → (n : ℕ) → IsInLimit ("", record_usage n b))
      → IsThrifty p.ledger
      → IsThrifty
          (next r p (λ _.
            call c prompt >>= λ a. record_spent input.incident_id a.tokens_used >> pure a)).1.ledger
  asserted-IsThrifty prompt (ok tt) p b q small w =
      answered-IsThrifty (complete c.outside (request_of prompt) p.chain).0 (call c prompt p).1 b q
        (small refl) w
  asserted-IsThrifty prompt (err e) p b q small w = w

  asked-IsThrifty : (prompt : String) → Preserves IsThriftyPipeline (ask c input prompt)
  unfolding ask IsThriftyPipeline
  asked-IsThrifty prompt = record {
    at = λ p w.
        let b = (budget_for input.incident_id p.ledger).0 in
        asserted-IsThrifty prompt (assert_can_spend 0 b).0 (assert_spend input.incident_id p).1 b
          (lookup-budget_for input.incident_id p.ledger) (λ e n. spend-IsInLimit b n e)
          (budget_for-IsThrifty input.incident_id p.ledger w);
  }

  written-IsThrifty :
      (o : Option Exn) (path text : String) (p : Pipeline)
      → IsThrifty p.ledger
      → IsThrifty ((written o path text >>= λ t. pure (some t)) p).1.ledger
  written-IsThrifty none path text p w = w
  written-IsThrifty (some e) path text p w = w

  shadow-IsThrifty : (b : Bool) (r : TriageReport) → Preserves IsThriftyPipeline (shadow_if c b r)
  unfolding write_shadow_report IsThriftyPipeline
  shadow-IsThrifty true r = record { at = λ p w. written-IsThrifty (c.write_text _ _) _ _ _ w }
  shadow-IsThrifty false r = Preserves-pure none

  -- However the triage of an incident runs and ends, no account of the ledger has more calls than its limit
  -- afterwards, if none had before.
  pub run-IsThrifty : (p : Pipeline) → IsThrifty p.ledger → IsThrifty (run c input p).1.ledger
  unfolding IsThriftyPipeline
  run-IsThrifty =
      (run-kept c input IsThriftyPipeline (record {
        accounts = record { at = λ p w. budget_for-IsThrifty input.incident_id p.ledger w };
        asks = asked-IsThrifty;
        aborts = λ note inc. record { at = λ p w. w };
        degrades = λ reason n. record { at = λ p w. w };
        completes = λ r n. record { at = λ p w. w };
        saves = λ r. record { at = λ p w. w };
        writes = shadow-IsThrifty;
      })).at
