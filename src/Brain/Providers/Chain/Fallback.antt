-- ===== src/Brain/Providers/Chain/Fallback.antt =====
-- Which provider answers, and what becomes of the others.
use ai_oncall.Prelude.{
  ℕ, suc, ◌+◌, String, ◌≡◌, refl, sym, ap, ◌∙◌, true, List, [], ◌∷◌, ◌++◌, map, arith, length,
}
use mathlib.Core.List.{append_assoc, append-nil}
use native.Mathlib.Nat.{add-zero}
use ai_oncall.Python.Exec.{Exn, ok, err, all_providers_failed}
use ai_oncall.Brain.Providers.Chain.{
  CompletionRequest, CompletionResult, Outside, GuardedProvider, is_provider_error,
  guarded_complete, complete_from, keep_first, ProviderChain, complete,
}

abbrev pub names : List GuardedProvider → List String
names = map (λ g. g.name)

module _ (outside : Outside) (request : CompletionRequest) where
  -- Each of the providers, used as attempt k and onwards, fails with a provider error.
  abbrev pub AllFail : ℕ → List GuardedProvider → Type 0
  AllFail k [] = Unit
  AllFail k (g ∷ gs) =
      ((e : Exn) × ((guarded_complete outside request k g).0 ≡ err e)
        × (is_provider_error e ≡ true))
      × AllFail (suc k) gs

  -- The providers as those attempts leave them.
  abbrev pub used : ℕ → List GuardedProvider → List GuardedProvider
  used k [] = []
  used k (g ∷ gs) = (guarded_complete outside request k g).1 ∷ used (suc k) gs

  step_fail :
      (errors : List String) (k : ℕ) (g : GuardedProvider) (gs : List GuardedProvider) (e : Exn)
      → (guarded_complete outside request k g).0 ≡ err e
      → is_provider_error e ≡ true
      → complete_from outside request errors k (g ∷ gs)
        ≡ keep_first
            (guarded_complete outside request k g).1
            (complete_from outside request (errors ++ g.name ∷ []) (suc k) gs)
  unfolding complete_from
  step_fail errors k g gs e r p = rw r (rw p)

  step_ok :
      (errors : List String) (k : ℕ) (g : GuardedProvider) (gs : List GuardedProvider)
      (c : CompletionResult)
      → (guarded_complete outside request k g).0 ≡ ok c
      → complete_from outside request errors k (g ∷ gs) ≡ (
        ok (record c { attempts = errors ++ g.name ∷ [] }),
        (guarded_complete outside request k g).1 ∷ gs,
        suc k,
      )
  unfolding complete_from
  step_ok errors k g gs c r = rw r

  -- Past providers that all fail, the loop goes on with the rest, and keeps what the attempts made of them.
  pub complete_from-AllFail :
      (before : List GuardedProvider) (errors : List String) (k : ℕ) (gs : List GuardedProvider)
      → AllFail k before
      → complete_from outside request errors k (before ++ gs) ≡ (
          let r = complete_from outside request (errors ++ names before) (k + length before) gs in
          (r.0, used k before ++ r.1, r.2))
  complete_from-AllFail [] errors k gs f = rw (append-nil errors, add-zero)
  complete_from-AllFail (g ∷ before) errors k gs f =
      let (e, r, p) = f.0 in
      step_fail errors k g (before ++ gs) e r p
      ∙ ap (keep_first (guarded_complete outside request k g).1) (
          complete_from-AllFail before (errors ++ g.name ∷ []) (suc k) gs f.1
          ∙ rw (append_assoc errors (g.name ∷ []) (names before), shifted))
    where
      shifted : suc k + length before ≡ k + suc (length before)
      shifted = omega arith

  complete_from_none :
      (k : ℕ) (gs : List GuardedProvider)
      → AllFail k gs
      → complete_from outside request [] k gs
        ≡ (err (all_providers_failed (names gs)), used k gs, k + length gs)
  unfolding complete_from
  complete_from_none k gs fail =
      ap (complete_from outside request [] k) (sym (append-nil gs))
      ∙ complete_from-AllFail gs [] k [] fail
      ∙ ap (λ u. (err (all_providers_failed (names gs)), u, k + length gs)) (append-nil (used k gs))

module _ (outside : Outside) (request : CompletionRequest) (c : ProviderChain) where
  -- The first provider that answers gives the result, with the names of those tried before it and its own
  -- as the attempts; no provider behind it is used.
  pub complete_first :
      (before after : List GuardedProvider) (g : GuardedProvider) (answer : CompletionResult)
      → c.guarded ≡ before ++ g ∷ after
      → AllFail outside request c.attempts_made before
      → (guarded_complete outside request (c.attempts_made + length before) g).0 ≡ ok answer
      → let k = c.attempts_made + length before in
        ((complete outside request c).0
          ≡ ok (record answer { attempts = names before ++ g.name ∷ [] }))
        × ((complete outside request c).1.guarded
            ≡ used outside request c.attempts_made before
              ++ (guarded_complete outside request k g).1 ∷ after)
        × ((complete outside request c).1.attempts_made ≡ suc k)
  unfolding complete
  complete_first before after g answer split fail answered =
      rw
        (
          split,
          complete_from-AllFail outside request before [] c.attempts_made (g ∷ after) fail,
          step_ok outside request (names before) (c.attempts_made + length before) g after answer
              answered,
        )
        (refl, refl, refl)

  -- Where every provider fails, the chain raises AllProvidersFailedError with all their names in order,
  -- after one attempt each.
  pub complete_none :
      AllFail outside request c.attempts_made c.guarded
      → ((complete outside request c).0 ≡ err (all_providers_failed (names c.guarded)))
        × ((complete outside request c).1.guarded ≡ used outside request c.attempts_made c.guarded)
        × ((complete outside request c).1.attempts_made ≡ c.attempts_made + length c.guarded)
  unfolding complete
  complete_none fail =
      rw (complete_from_none outside request c.attempts_made c.guarded fail) (refl, refl, refl)
