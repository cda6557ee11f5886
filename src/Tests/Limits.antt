-- ===== src/Tests/Limits.antt =====
-- The limits on the calls of the providers at concrete inputs.
use ai_oncall.Prelude.{
  ℕ, ◌+◌, ◌≤◌, ◌<◌, String, ◌≡◌, ◌↔◌, ◌<>◌, refl, false, none, some, List, [], ◌∷◌, ◌++◌, nat_eq,
  if◌then◌else◌, arith,
}
use ai_oncall.Python.Exec.{ok, err, provider_error, all_providers_failed}
use ai_oncall.Brain.Budget.{TokenBudget, new_budget, BudgetLedger}
use ai_oncall.Brain.Budget.Spending.{spend_all, IsWithin, spend_all-IsWithin}
use ai_oncall.Brain.Providers.Circuit.{new_breaker, allow_request}
use ai_oncall.Brain.Providers.Circuit.Tripping.{
  Report, success, failure, reports, streak, last_failure, allow_request_iff,
}
use ai_oncall.Brain.Providers.Chain.{
  CompletionRequest, CompletionResult, Reply, answer, late, Outside, GuardedProvider, guard_all,
  guarded_complete, ProviderChain, complete,
}
use ai_oncall.Brain.Providers.Chain.Fallback.{used, complete_first, complete_none}

abbrev calls : List (ℕ × ℕ)
calls = (100, 150) ∷ (30, 20) ∷ (10, 5) ∷ []

abbrev account : TokenBudget
account = new_budget "inc-1" 2 200

spend_all-IsWithin_example :
    IsWithin 150 (spend_all calls account)
    × ((spend_all calls account).max_calls ≡ 2)
    × ((spend_all calls account).max_tokens ≡ 200)
spend_all-IsWithin_example =
    spend_all-IsWithin calls 150 account (omega arith, (omega arith, (omega arith, tt)))
      (omega arith, omega arith)

abbrev ledger : BudgetLedger
ledger = record { max_calls = 2; max_tokens = 200; budgets = ("inc-1", account) ∷ [] }

abbrev history : List Report
history = failure 3 ∷ success ∷ failure 10 ∷ failure 12 ∷ []

allow_request_iff_example :
    (allow_request (reports (new_breaker 2 30) history) 20 ≡ false)
    ↔ ((t : ℕ) × (last_failure none history ≡ some t) × (20 < t + 30) × (2 ≤ streak 0 history))
allow_request_iff_example = allow_request_iff 2 30 history 20 (omega arith)

abbrev request : CompletionRequest
request = record { prompt = "why"; system = ""; max_tokens = 100 }

abbrev reply_text : CompletionResult
reply_text = record {
  text = "because";
  tokens_used = 9;
  provider_name = "second";
  model = "m";
  attempts = [];
}

-- The first attempt is late, the second is answered.
abbrev one_late : ℕ → String → CompletionRequest → Reply
one_late k name r = if nat_eq k 0 then late else answer reply_text

abbrev outside : Outside
outside = record { asked = λ k. 100; failed = λ k. 110; reply = one_late }

abbrev all_late : Outside
all_late = record { asked = λ k. 100; failed = λ k. 110; reply = λ k name r. late }

abbrev guarded : List GuardedProvider
guarded = guard_all 30 ("first" ∷ "second" ∷ [])

abbrev only : String → List GuardedProvider
only name = guard_all 30 (name ∷ [])

abbrev chain : ProviderChain
chain = record { guarded = guarded; attempts_made = 0 }

abbrev guard_of : String → GuardedProvider
guard_of name = record { name = name; breaker = new_breaker 3 30 }

first_late :
    (guarded_complete outside request 0 (guard_of "first")).0
    ≡ err (provider_error "first: timeout")
unfolding guarded_complete allow_request
first_late = refl

second_answers : (guarded_complete outside request 1 (guard_of "second")).0 ≡ ok reply_text
unfolding guarded_complete allow_request
second_answers = refl

complete_first_example :
    ((complete outside request chain).0
      ≡ ok (record reply_text { attempts = "first" ∷ "second" ∷ [] }))
    × ((complete outside request chain).1.guarded
        ≡ used outside request 0 (only "first")
          ++ (guarded_complete outside request 1 (guard_of "second")).1 ∷ [])
    × ((complete outside request chain).1.attempts_made ≡ 2)
complete_first_example =
    complete_first outside request chain (only "first") [] (guard_of "second") reply_text refl
      ((provider_error "first: timeout", first_late, refl), tt) second_answers

late_at :
    (k : ℕ) (name : String)
    → (guarded_complete all_late request k (guard_of name)).0
      ≡ err (provider_error (name <> ": timeout"))
unfolding guarded_complete allow_request
late_at k name = refl

complete_none_example :
    ((complete all_late request chain).0 ≡ err (all_providers_failed ("first" ∷ "second" ∷ [])))
    × ((complete all_late request chain).1.guarded ≡ used all_late request 0 guarded)
    × ((complete all_late request chain).1.attempts_made ≡ 2)
complete_none_example = complete_none all_late request chain (
  (provider_error "first: timeout", late_at 0 "first", refl),
  ((provider_error "second: timeout", late_at 1 "second", refl), tt),
)
