-- ===== src/Shadow/Scores.antt =====
-- What a score adds to the statistics of the gate.
use ai_oncall.Prelude.{
  ℕ, suc, ◌+◌, find, Option, none, some, String, ◌==◌, ◌≡◌, refl, Bool, List, [], ◌∷◌, any, length,
  arith, if◌then◌else◌,
}
use ai_oncall.Python.Host.{Host}
use ai_oncall.Store.Schema.{ShadowScore}
use ai_oncall.Store.Records.{record_shadow_score, upsert_score, all_shadow_scores}
use ai_oncall.Shadow.{ShadowController, count_true, stats, record_score}

abbrev pub is_scored : String → List ShadowScore → Bool
is_scored i xs = any (λ x. x.incident_id == i) xs

length-upsert_score :
    (new : ShadowScore) (xs : List ShadowScore)
    → length (upsert_score new xs)
      ≡ (if is_scored new.incident_id xs then length xs else suc (length xs))
unfolding upsert_score
length-upsert_score new [] = refl
length-upsert_score new (x ∷ xs) = ground (arith, length-upsert_score new xs)

abbrev pub one_if : Bool → ℕ
one_if b = if b then 1 else 0

-- What the row of an incident counts for a flag, which is nothing without a row.
abbrev pub counted_of : (ShadowScore → Bool) → Option ShadowScore → ℕ
counted_of f none = 0
counted_of f (some x) = one_if (f x)

abbrev pub score_of : String → List ShadowScore → Option ShadowScore
score_of i xs = find (λ x. x.incident_id == i) xs

cause_correct-upsert_score :
    (new : ShadowScore) (xs : List ShadowScore)
    → count_true (λ x. x.cause_correct) (upsert_score new xs)
        + counted_of (λ x. x.cause_correct) (score_of new.incident_id xs)
      ≡ count_true (λ x. x.cause_correct) xs + one_if new.cause_correct
unfolding upsert_score count_true
cause_correct-upsert_score new [] = omega arith
cause_correct-upsert_score new (x ∷ xs) = ground (arith, cause_correct-upsert_score new xs)

action_usable-upsert_score :
    (new : ShadowScore) (xs : List ShadowScore)
    → count_true (λ x. x.action_usable) (upsert_score new xs)
        + counted_of (λ x. x.action_usable) (score_of new.incident_id xs)
      ≡ count_true (λ x. x.action_usable) xs + one_if new.action_usable
unfolding upsert_score count_true
action_usable-upsert_score new [] = omega arith
action_usable-upsert_score new (x ∷ xs) = ground (arith, action_usable-upsert_score new xs)

module _ ⦃h : Host⦄ where
  -- A score of an incident takes the place of the one that it had: the number of scored reports grows by one
  -- if it had none and stays otherwise, and the numbers of right causes and of usable actions each
  -- count the new flag, and the flag of the former score no longer.
  pub stats-record_score :
      (i reviewer : String) (cause usable : Bool) (c : ShadowController)
      → let before = stats c in
        let after = stats (record_score i cause usable reviewer c).1 in
        let former = score_of i c.store.shadow_scores in
        (after.scored
          ≡ (if is_scored i c.store.shadow_scores then before.scored else suc before.scored))
        × (after.cause_correct + counted_of (λ x. x.cause_correct) former
            ≡ before.cause_correct + one_if cause)
        × (after.action_usable + counted_of (λ x. x.action_usable) former
            ≡ before.action_usable + one_if usable)
  unfolding record_score record_shadow_score stats all_shadow_scores
  stats-record_score i reviewer cause usable c = (
    length-upsert_score _ c.store.shadow_scores,
    cause_correct-upsert_score _ c.store.shadow_scores,
    action_usable-upsert_score _ c.store.shadow_scores,
  )
