-- ===== src/Brain/Budget/Spending.antt =====
-- What the budget guarantees: guarded calls stay within the limits, and the ledger adds up.
use ai_oncall.Prelude.{
  ℕ, suc, ◌+◌, ◌≤◌, String, ◌≡◌, ◌≢◌, refl, ◌∙◌, inl, inr, none, some, List, [], ◌∷◌, Dict, lookup,
  insert, lookup-insert, length, arith, eq_refl, eq_false, Option-cases, All,
}
use ai_oncall.Python.Exec.{ok, err}
use ai_oncall.Brain.Budget.{
  TokenBudget, new_budget, assert_can_spend, record_usage, BudgetLedger, budget_for, record_for,
  sum_of, totals,
}

-- A guarded call as `TriagePipeline.run` makes it: the check, the call, and its tokens on the account.
-- A refused call costs nothing.
abbrev pub spend : ℕ → ℕ → TokenBudget → TokenBudget
spend estimated used b = elim (assert_can_spend estimated b).0 [
  | ok _ ↦ record_usage used b
  | err _ ↦ b
]

-- A sequence of guarded calls, each with its estimate and the tokens that it then used.
unfoldable pub spend_all : List (ℕ × ℕ) → TokenBudget → TokenBudget
spend_all [] b = b
spend_all ((estimated, used) ∷ rest) b = spend_all rest (spend estimated used b)

spend_calls :
    (estimated used : ℕ) (b : TokenBudget)
    → b.calls_used ≤ b.max_calls
    → ((spend estimated used b).calls_used ≤ b.max_calls)
      × ((spend estimated used b).max_calls ≡ b.max_calls)
      × ((spend estimated used b).max_tokens ≡ b.max_tokens)
unfolding assert_can_spend record_usage
spend_calls estimated used b h = ground arith

spend_tokens :
    (estimated used cap : ℕ) (b : TokenBudget)
    → used ≤ cap
    → b.tokens_used ≤ b.max_tokens + cap
    → (spend estimated used b).tokens_used ≤ b.max_tokens + cap
unfolding assert_can_spend record_usage
spend_tokens estimated used cap b u h = ground arith

-- Within the limits, where no call uses more than `cap` tokens.
abbrev pub IsWithin : ℕ → TokenBudget → Type 0
IsWithin cap b = (b.calls_used ≤ b.max_calls) × (b.tokens_used ≤ b.max_tokens + cap)

-- However many guarded calls are attempted, the calls that are made stay within the limit, and the tokens
-- exceed theirs by at most what one call may use.
pub spend_all-IsWithin :
    (calls : List (ℕ × ℕ)) (cap : ℕ) (b : TokenBudget)
    → All (λ c. c.1 ≤ cap) calls
    → IsWithin cap b
    → IsWithin cap (spend_all calls b)
      × ((spend_all calls b).max_calls ≡ b.max_calls)
      × ((spend_all calls b).max_tokens ≡ b.max_tokens)
unfolding spend_all
spend_all-IsWithin [] cap b small w = (w, refl, refl)
spend_all-IsWithin ((estimated, used) ∷ rest) cap b small w =
    let (calls, mc, mt) = spend_calls estimated used b w.0 in
    let tokens = spend_tokens estimated used cap b small.0 w.1 in
    let (w', mc', mt') =
      spend_all-IsWithin rest cap (spend estimated used b) small.1 (omega arith, omega arith) in
    (w', mc' ∙ mc, mt' ∙ mt)

sum_of-insert_old :
    (f : TokenBudget → ℕ) (i : String) (b old : TokenBudget) (d : Dict TokenBudget)
    → lookup i d ≡ some old
    → (sum_of f (insert i b d) + f old ≡ sum_of f d + f b) × (length (insert i b d) ≡ length d)
unfolding sum_of insert
sum_of-insert_old f i b old [] e = cc
sum_of-insert_old f i b old ((j, x) ∷ d) e = ground (arith, sum_of-insert_old f i b old d)

sum_of-insert_new :
    (f : TokenBudget → ℕ) (i : String) (b : TokenBudget) (d : Dict TokenBudget)
    → lookup i d ≡ none
    → (sum_of f (insert i b d) ≡ sum_of f d + f b) × (length (insert i b d) ≡ suc (length d))
unfolding sum_of insert
sum_of-insert_new f i b [] e = (omega arith, omega arith)
sum_of-insert_new f i b ((j, x) ∷ d) e = ground (arith, sum_of-insert_new f i b d)

record_for_known :
    (i : String) (tokens : ℕ) (l : BudgetLedger) (b : TokenBudget)
    → lookup i l.budgets ≡ some b
    → record_for i tokens l ≡ record l { budgets = insert i (record_usage tokens b) l.budgets }
unfolding record_for budget_for
record_for_known i tokens l b e = rw e

-- The entry that `budget_for` adds, and the one that replaces it.
abbrev first_use : String → ℕ → BudgetLedger → Dict TokenBudget
first_use i tokens l =
    let b = new_budget i l.max_calls l.max_tokens in
    insert i (record_usage tokens b) (insert i b l.budgets)

record_for_new :
    (i : String) (tokens : ℕ) (l : BudgetLedger)
    → lookup i l.budgets ≡ none
    → record_for i tokens l ≡ record l { budgets = first_use i tokens l }
unfolding record_for budget_for
record_for_new i tokens l e = rw e

sum_of-first_use :
    (f : TokenBudget → ℕ) (i : String) (tokens : ℕ) (l : BudgetLedger)
    → lookup i l.budgets ≡ none
    → (sum_of f (first_use i tokens l) + f (new_budget i l.max_calls l.max_tokens)
        ≡ sum_of f l.budgets
          + f (new_budget i l.max_calls l.max_tokens)
          + f (record_usage tokens (new_budget i l.max_calls l.max_tokens)))
      × (length (first_use i tokens l) ≡ suc (length l.budgets))
sum_of-first_use f i tokens l e =
    let b = new_budget i l.max_calls l.max_tokens in
    let d = insert i b l.budgets in
    let (s, n) = sum_of-insert_new f i b l.budgets e in
    let (s', n') =
      sum_of-insert_old f i (record_usage tokens b) b d
        (rw (lookup-insert i i b l.budgets, eq_refl i)) in
    (omega arith, omega arith)

-- Recording a call for an incident, tracked or not, adds one call and its tokens to the totals.
pub totals-record_for :
    (i : String) (tokens : ℕ) (l : BudgetLedger)
    → ((totals (record_for i tokens l)).llm_calls_total ≡ (totals l).llm_calls_total + 1)
      × ((totals (record_for i tokens l)).llm_tokens_total ≡ (totals l).llm_tokens_total + tokens)
      × ((totals (record_for i tokens l)).incidents_tracked ≡ (elim (lookup i l.budgets) [
        | some _ ↦ length l.budgets
        | none ↦ suc (length l.budgets)
      ]))
unfolding totals record_usage
totals-record_for i tokens l = elim (Option-cases (lookup i l.budgets)) [
  | inl e ↦
      let calls = sum_of-first_use (λ b. b.calls_used) i tokens l e in
      let used = sum_of-first_use (λ b. b.tokens_used) i tokens l e in
      rw (record_for_new i tokens l e, e) (omega arith, omega arith, omega arith)
  | inr (b, e) ↦
      let calls = sum_of-insert_old (λ b. b.calls_used) i (record_usage tokens b) b l.budgets e in
      let used = sum_of-insert_old (λ b. b.tokens_used) i (record_usage tokens b) b l.budgets e in
      rw (record_for_known i tokens l b e, e) (omega arith, omega arith, omega arith)
]

-- Spending for one incident leaves the account of every other as it was.
pub lookup-record_for_ne :
    (i j : String) (tokens : ℕ) (l : BudgetLedger)
    → i ≢ j
    → lookup j (record_for i tokens l).budgets ≡ lookup j l.budgets
lookup-record_for_ne i j tokens l n = elim (Option-cases (lookup i l.budgets)) [
  | inl e ↦ rw (record_for_new i tokens l e) (simp (lookup-insert, eq_false i j n))
  | inr (b, e) ↦ rw (record_for_known i tokens l b e) (simp (lookup-insert, eq_false i j n))
]
