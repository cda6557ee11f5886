-- ===== src/Brain/Budget.antt =====
-- brain/budget.py: how many LLM calls and tokens an incident may use.
pub mod Spending
use ai_oncall.Prelude.{
  ℕ, suc, ◌+◌, ◌-◌, String, Bool, ◌||◌, Option, none, some, List, [], ◌∷◌, Dict, lookup, insert,
  length, filterb, map, leb, ltb, if◌then◌else◌,
}
use ai_oncall.Python.Exec.{Exec, Result, ok, err, budget_exceeded}

abbrev pub default_max_calls : ℕ
default_max_calls = 6

abbrev pub default_max_tokens : ℕ
default_max_tokens = 20000

pub record TokenBudget : Type 0 where
  pub incident_id : String
  pub max_calls : ℕ
  pub max_tokens : ℕ
  pub calls_used : ℕ
  pub tokens_used : ℕ

abbrev pub new_budget : String → ℕ → ℕ → TokenBudget
new_budget incident_id max_calls max_tokens = record {
  incident_id = incident_id;
  max_calls = max_calls;
  max_tokens = max_tokens;
  calls_used = 0;
  tokens_used = 0;
}

unfoldable pub assert_can_spend : ℕ → Exec TokenBudget (Unit {0})
assert_can_spend estimated_tokens b =
    if leb b.max_calls b.calls_used
    then (err (budget_exceeded "call limit"), b)
    else if leb b.max_tokens b.tokens_used
    then (err (budget_exceeded "token limit"), b)
    else if ltb b.max_tokens (b.tokens_used + estimated_tokens)
    then (err (budget_exceeded "token limit"), b)
    else (ok tt, b)

unfoldable pub record_usage : ℕ → TokenBudget → TokenBudget
record_usage tokens b = record b {
  calls_used = b.calls_used + 1;
  tokens_used = b.tokens_used + tokens;
}

unfoldable pub remaining_tokens : TokenBudget → ℕ
remaining_tokens b = b.max_tokens - b.tokens_used

pub record Snapshot : Type 0 where
  pub calls_used : ℕ
  pub max_calls : ℕ
  pub tokens_used : ℕ
  pub max_tokens : ℕ

unfoldable pub snapshot : TokenBudget → Snapshot
snapshot b = record {
  calls_used = b.calls_used;
  max_calls = b.max_calls;
  tokens_used = b.tokens_used;
  max_tokens = b.max_tokens;
}

pub record BudgetLedger : Type 0 where
  pub max_calls : ℕ
  pub max_tokens : ℕ
  pub budgets : Dict TokenBudget

budget_or_new : String → BudgetLedger → Option TokenBudget → TokenBudget × BudgetLedger
budget_or_new i l (some b) = (b, l)
budget_or_new i l none =
    let b = new_budget i l.max_calls l.max_tokens in
    (b, record l { budgets = insert i b l.budgets })

unfoldable pub budget_for : String → BudgetLedger → TokenBudget × BudgetLedger
unfolding budget_or_new
budget_for i l = budget_or_new i l (lookup i l.budgets)

-- `budget.record(…)` on the object that `budget_for` handed out: the entry of the ledger changes.
unfoldable pub record_for : String → ℕ → BudgetLedger → BudgetLedger
record_for i tokens l =
    let (b, l') = budget_for i l in
    record l' { budgets = insert i (record_usage tokens b) l'.budgets }

unfoldable pub sum_of : (TokenBudget → ℕ) → Dict TokenBudget → ℕ
sum_of f [] = 0
sum_of f ((i, b) ∷ bs) = f b + sum_of f bs

abbrev pub is_exhausted : TokenBudget → Bool
is_exhausted b = leb b.max_calls b.calls_used || leb b.max_tokens b.tokens_used

pub record Totals : Type 0 where
  pub incidents_tracked : ℕ
  pub llm_calls_total : ℕ
  pub llm_tokens_total : ℕ
  pub budget_exceeded_count : ℕ

unfoldable pub totals : BudgetLedger → Totals
unfolding sum_of
totals l = record {
  incidents_tracked = length l.budgets;
  llm_calls_total = sum_of (λ b. b.calls_used) l.budgets;
  llm_tokens_total = sum_of (λ b. b.tokens_used) l.budgets;
  budget_exceeded_count = length (filterb (λ p. is_exhausted p.1) l.budgets);
}
