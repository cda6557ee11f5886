-- ===== src/Brain/Providers/Circuit.antt =====
-- brain/providers/circuit.py: after `threshold` failures in a row no request passes for a cooldown.
-- The clock is an argument of each method.
pub mod Tripping
use ai_oncall.Prelude.{ℕ, ◌+◌, Bool, true, false, Option, none, some, leb, if◌then◌else◌}

pub data State : Type 0 where
  closed opened half_open : State

pub record CircuitBreaker : Type 0 where
  pub threshold : ℕ
  pub cooldown : ℕ
  pub consecutive_failures : ℕ
  pub opened_at : Option ℕ

abbrev pub new_breaker : ℕ → ℕ → CircuitBreaker
new_breaker threshold cooldown = record {
  threshold = threshold;
  cooldown = cooldown;
  consecutive_failures = 0;
  opened_at = none;
}

-- `now - opened_at >= cooldown`
abbrev pub state_since : ℕ → ℕ → Option ℕ → State
state_since now cooldown none = closed
state_since now cooldown (some t) = if leb (t + cooldown) now then half_open else opened

unfoldable pub state : CircuitBreaker → ℕ → State
state b now = state_since now b.cooldown b.opened_at

abbrev pub is_allowed : State → Bool
is_allowed closed = true
is_allowed half_open = true
is_allowed opened = false

unfoldable pub allow_request : CircuitBreaker → ℕ → Bool
unfolding state
allow_request b now = is_allowed (state b now)

unfoldable pub record_success : CircuitBreaker → CircuitBreaker
record_success b = record b { consecutive_failures = 0; opened_at = none }

unfoldable pub record_failure : CircuitBreaker → ℕ → CircuitBreaker
record_failure b now =
    let failures = b.consecutive_failures + 1 in
    if leb b.threshold failures
    then record b { consecutive_failures = failures; opened_at = some now }
    else record b { consecutive_failures = failures }
