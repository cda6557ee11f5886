-- ===== src/Brain/Providers/Circuit/Tripping.antt =====
-- When the breaker trips, and when it lets requests pass again.
use ai_oncall.Prelude.{
  ℕ, suc, ◌+◌, ◌≤◌, ◌<◌, ◌≡◌, ◌↔◌, ◌∙◌, refl, false, Option, none, some, List, [], ◌∷◌, arith, leb,
  if◌then◌else◌,
}
use ai_oncall.Brain.Providers.Circuit.{
  CircuitBreaker, new_breaker, allow_request, record_success, record_failure,
}

-- What is reported to a breaker: the time of each failure, or a success.
pub data Report : Type 0 where
  success : Report
  failure : ℕ → Report

abbrev pub report : CircuitBreaker → Report → CircuitBreaker
report b success = record_success b
report b (failure now) = record_failure b now

unfoldable pub reports : CircuitBreaker → List Report → CircuitBreaker
reports b [] = b
reports b (r ∷ rs) = reports (report b r) rs

-- The failures at the end of a history, counted on top of n, and the time of the last one.
abbrev pub streak : ℕ → List Report → ℕ
streak n [] = n
streak n (success ∷ rs) = streak 0 rs
streak n (failure now ∷ rs) = streak (suc n) rs

abbrev pub last_failure : Option ℕ → List Report → Option ℕ
last_failure t [] = t
last_failure t (success ∷ rs) = last_failure none rs
last_failure t (failure now ∷ rs) = last_failure (some now) rs

-- The breaker is open since a failure exactly if its count reached the threshold.
pub record IsConsistent (b : CircuitBreaker) (n : ℕ) (t : Option ℕ) : Type 0 where
  pub counted : b.consecutive_failures ≡ n
  pub tripped : b.opened_at ≡ (if leb b.threshold n then t else none)

failure-IsConsistent :
    (b : CircuitBreaker) (n : ℕ) (t : Option ℕ) (now : ℕ)
    → 0 < b.threshold
    → IsConsistent b n t
    → IsConsistent (record_failure b now) (suc n) (some now)
unfolding record_failure
failure-IsConsistent b n t now p c = ground arith

-- A failure changes no setting of the breaker.
settings :
    (b : CircuitBreaker) (now : ℕ)
    → ((record_failure b now).threshold ≡ b.threshold)
      × ((record_failure b now).cooldown ≡ b.cooldown)
unfolding record_failure
settings b now = ground arith

reports-IsConsistent :
    (rs : List Report) (b : CircuitBreaker) (n : ℕ) (t : Option ℕ)
    → 0 < b.threshold
    → IsConsistent b n t
    → IsConsistent (reports b rs) (streak n rs) (last_failure t rs)
      × ((reports b rs).threshold ≡ b.threshold)
      × ((reports b rs).cooldown ≡ b.cooldown)
unfolding reports record_success
reports-IsConsistent [] b n t p c = (c, refl, refl)
reports-IsConsistent (success ∷ rs) b n t p c =
    reports-IsConsistent rs (record_success b) 0 none p
      (record { counted = refl; tripped = ground arith })
reports-IsConsistent (failure now ∷ rs) b n t p c =
    let kept = settings b now in
    let (c', th, cd) =
      reports-IsConsistent rs (record_failure b now) (suc n) (some now) (omega arith)
        (failure-IsConsistent b n t now p c) in
    (c', th ∙ kept.0, cd ∙ kept.1)

refused_gives :
    (b : CircuitBreaker) (now n : ℕ) (last : Option ℕ) (threshold cooldown : ℕ)
    → IsConsistent b n last
    → b.threshold ≡ threshold
    → b.cooldown ≡ cooldown
    → allow_request b now ≡ false
    → (t : ℕ) × (last ≡ some t) × (now < t + cooldown) × (threshold ≤ n)
unfolding allow_request
refused_gives b now n none threshold cooldown c th cd e = absurd (ground arith)
refused_gives b now n (some t) threshold cooldown c th cd e = (t, refl, ground arith, ground arith)

gives_refused :
    (b : CircuitBreaker) (now n : ℕ) (last : Option ℕ) (threshold cooldown t : ℕ)
    → IsConsistent b n last
    → b.threshold ≡ threshold
    → b.cooldown ≡ cooldown
    → last ≡ some t
    → now < t + cooldown
    → threshold ≤ n
    → allow_request b now ≡ false
unfolding allow_request
gives_refused b now n last threshold cooldown t c th cd l early enough = ground arith

-- A new breaker with a positive threshold, after any history of reports, refuses a request exactly if
-- the history ends in `threshold` failures or more in a row, the last of them less than the cooldown ago. So from
-- the end of the cooldown to the next report no request is refused, where the comment on HALF_OPEN allows
-- a single probe.
pub allow_request_iff :
    (threshold cooldown : ℕ) (rs : List Report) (now : ℕ)
    → 0 < threshold
    → (allow_request (reports (new_breaker threshold cooldown) rs) now ≡ false) ↔ (
        (t : ℕ) × (last_failure none rs ≡ some t)
        × (now < t + cooldown)
        × (threshold ≤ streak 0 rs))
allow_request_iff threshold cooldown rs now p =
    let b = reports (new_breaker threshold cooldown) rs in
    let (c, th, cd) =
      reports-IsConsistent rs (new_breaker threshold cooldown) 0 none p
        (record { counted = refl; tripped = ground arith }) in
    (
      λ e. refused_gives b now (streak 0 rs) (last_failure none rs) threshold cooldown c th cd e,
      λ r.
          gives_refused b now (streak 0 rs) (last_failure none rs) threshold cooldown r.0 c th cd
            r.1 r.2 r.3,
    )
