-- ===== src/Shadow.antt =====
-- core/src/oncall_core/shadow: the flag of the shadow mode, and the gate that must be passed to turn it
-- off. A required accuracy is a fraction, and an accuracy is compared with it exactly.
pub mod Scores
use ai_oncall.Prelude.{
  ℕ, ◌+◌, ◌*◌, String, Bool, true, false, ◌&&◌, List, [], ◌∷◌, length, leb, nat_eq, if◌then◌else◌,
}
use ai_oncall.Python.Exec.{Exec, Result, ok, err, shadow_gate_error, pure, gets, ◌>>=◌, ◌>>◌}
use ai_oncall.Python.Host.{Host}
use ai_oncall.Store.Schema.{ShadowScore, Store}
use ai_oncall.Store.Records.{record_shadow_score, all_shadow_scores}

pub record Fraction : Type 0 where
  pub top : ℕ
  pub bottom : ℕ

abbrev pub default_min_scored_reports : ℕ
default_min_scored_reports = 30

abbrev pub default_min_cause_accuracy : Fraction
default_min_cause_accuracy = record { top = 8; bottom = 10 }

abbrev pub default_min_action_usability : Fraction
default_min_action_usability = record { top = 7; bottom = 10 }

pub record ShadowStats : Type 0 where
  pub scored : ℕ
  pub required_reports : ℕ
  -- `sum(…) / n`, and 0 for no rows
  pub cause_correct : ℕ
  pub action_usable : ℕ

pub record ShadowController : Type 0 where
  pub store : Store
  pub enabled : Bool
  pub required_reports : ℕ
  pub required_cause_accuracy : Fraction
  pub required_action_usability : Fraction

unfoldable pub count_true : (ShadowScore → Bool) → List ShadowScore → ℕ
count_true f [] = 0
count_true f (x ∷ xs) = (if f x then 1 else 0) + count_true f xs

unfoldable pub stats : ShadowController → ShadowStats
unfolding count_true
stats c =
    let rows = all_shadow_scores c.store in
    record {
      scored = length rows;
      required_reports = c.required_reports;
      cause_correct = count_true (λ r. r.cause_correct) rows;
      action_usable = count_true (λ r. r.action_usable) rows;
    }

-- `total / n >= top / bottom`, where no rows count as 0
abbrev pub reaches : ℕ → ℕ → Fraction → Bool
reaches total n f = if nat_eq n 0 then leb f.top 0 else leb (f.top * n) (total * f.bottom)

unfoldable pub can_disable : ShadowController → Bool
unfolding stats
can_disable c =
    let s = stats c in
    leb s.required_reports s.scored
    && (reaches s.cause_correct s.scored c.required_cause_accuracy
        && reaches s.action_usable s.scored c.required_action_usability)

unfoldable pub disable : Exec ShadowController (Unit {0})
disable c =
    if can_disable c then (ok tt, record c { enabled = false }) else (err shadow_gate_error, c)

module _ ⦃h : Host⦄ where
  unfoldable pub record_score : String → Bool → Bool → String → Exec ShadowController (Unit {0})
  record_score incident_id cause_correct action_usable reviewer c =
      let r = record_shadow_score incident_id cause_correct action_usable reviewer c.store in
      (r.0, record c { store = r.1 })
