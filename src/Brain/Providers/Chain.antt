-- ===== src/Brain/Providers/Chain.antt =====
-- brain/providers/base.py and chain.py: the providers are tried in order, each behind its breaker, and
-- the first answer is returned. What a provider does on a call is outside the program.
pub mod Fallback
use ai_oncall.Prelude.{
  ℕ, suc, ◌+◌, String, ◌<>◌, Bool, true, false, List, [], ◌∷◌, ◌++◌, map, if◌then◌else◌,
}
use ai_oncall.Python.Exec.{
  Exn, Result, ok, err, value_error, assertion_error, integrity_error, executor_rejected,
  budget_exceeded, provider_error, all_providers_failed, rbac_error, shadow_gate_error,
  runbook_invalid, other_error,
}
use ai_oncall.Brain.Providers.Circuit.{
  CircuitBreaker, State, state, new_breaker, allow_request, record_success, record_failure,
}

pub record CompletionRequest : Type 0 where
  pub prompt : String
  pub system : String
  pub max_tokens : ℕ

pub record CompletionResult : Type 0 where
  pub text : String
  pub tokens_used : ℕ
  pub provider_name : String
  pub model : String
  pub attempts : List String

-- How `future.result(timeout)` ends: an answer, the timeout, or an exception of the provider.
pub data Reply : Type 0 where
  answer : CompletionResult → Reply
  late : Reply
  raised : Exn → Reply

-- The outside of the k-th attempt to use a provider: the clock when its breaker is asked, the clock when
-- a failure is recorded, and the reply of the provider if it is called.
pub record Outside : Type 0 where
  pub asked : ℕ → ℕ
  pub failed : ℕ → ℕ
  pub reply : ℕ → String → CompletionRequest → Reply

pub record GuardedProvider : Type 0 where
  pub name : String
  pub breaker : CircuitBreaker

-- ProviderError, or its subclass AllProvidersFailedError
abbrev pub is_provider_error : Exn → Bool
is_provider_error (provider_error m) = true
is_provider_error (all_providers_failed names) = true
is_provider_error (value_error m) = false
is_provider_error assertion_error = false
is_provider_error integrity_error = false
is_provider_error (executor_rejected m) = false
is_provider_error (budget_exceeded m) = false
is_provider_error (rbac_error m) = false
is_provider_error shadow_gate_error = false
is_provider_error (runbook_invalid errors) = false
is_provider_error (other_error m) = false

abbrev failing : GuardedProvider → ℕ → GuardedProvider
failing g now = record g { breaker = record_failure g.breaker now }

-- What the loop goes on with: the result, the providers, and the number of the next attempt.
abbrev pub Looped : Type 0
Looped = Result CompletionResult × List GuardedProvider × ℕ

abbrev pub keep_first : GuardedProvider → Looped → Looped
keep_first g r = (r.0, g ∷ r.1, r.2)

-- `tried` are the names up to this provider, `gs` the providers after it.
abbrev pub after_attempt :
    List String
    → ℕ
    → GuardedProvider
    → List GuardedProvider
    → Result CompletionResult
    → Looped
    → Looped
after_attempt tried k g gs (ok c) rest = (ok (record c { attempts = tried }), g ∷ gs, suc k)
after_attempt tried k g gs (err e) rest =
    if is_provider_error e then keep_first g rest else (err e, g ∷ gs, suc k)

module _ (outside : Outside) where
  settle : GuardedProvider → ℕ → Reply → Result CompletionResult × GuardedProvider
  settle g k (answer c) = (ok c, record g { breaker = record_success g.breaker })
  settle g k late = (err (provider_error (g.name <> ": timeout")), failing g (outside.failed k))
  settle g k (raised e) = (err e, if is_provider_error e then failing g (outside.failed k) else g)

  -- `_GuardedProvider.complete`, as the k-th attempt.
  unfoldable pub guarded_complete :
      CompletionRequest → ℕ → GuardedProvider → Result CompletionResult × GuardedProvider
  unfolding settle
  guarded_complete request k g =
      if allow_request g.breaker (outside.asked k)
      then settle g k (outside.reply k g.name request)
      else (err (provider_error (g.name <> ": circuit open")), g)

  -- The loop of `ProviderChain.complete` over the providers that are left.
  unfoldable pub complete_from : CompletionRequest → List String → ℕ → List GuardedProvider → Looped
  complete_from request errors k [] = (err (all_providers_failed errors), [], k)
  complete_from request errors k (g ∷ gs) =
      let (r, g') = guarded_complete request k g in
      let tried = errors ++ g.name ∷ [] in
      let rest = complete_from request tried (suc k) gs in after_attempt tried k g' gs r rest

pub record ProviderChain : Type 0 where
  pub guarded : List GuardedProvider
  pub attempts_made : ℕ

abbrev default_threshold : ℕ
default_threshold = 3

-- A new chain; the cooldown is the breaker's default of 30 seconds, in the clock's units.
abbrev pub guard_all : ℕ → List String → List GuardedProvider
guard_all cooldown [] = []
guard_all cooldown (name ∷ names) =
    record { name = name; breaker = new_breaker default_threshold cooldown }
    ∷ guard_all cooldown names

unfoldable pub new_chain : ℕ → List String → Result ProviderChain
new_chain cooldown [] = err (value_error "a ProviderChain needs a provider")
new_chain cooldown (name ∷ names) =
    ok (record { guarded = guard_all cooldown (name ∷ names); attempts_made = 0 })

unfoldable pub complete :
    Outside → CompletionRequest → ProviderChain → Result CompletionResult × ProviderChain
complete outside request c =
    let (r, gs, k) = complete_from outside request [] c.attempts_made c.guarded in
    (r, record { guarded = gs; attempts_made = k })

unfoldable pub provider_states : ProviderChain → ℕ → List (String × State)
provider_states c now = map (λ g. (g.name, state g.breaker now)) c.guarded
