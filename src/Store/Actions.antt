-- ===== src/Store/Actions.antt =====
-- store.py: the statements on the table `executed_actions`.
use ai_oncall.Prelude.{
  ℕ, String, ◌==◌, Bool, true, false, ◌&&◌, none, some, List, [], ◌∷◌, ◌++◌, any, if◌then◌else◌,
}
use ai_oncall.Python.Exec.{Exec, ok, ◌>>=◌}
use ai_oncall.Python.Host.{Host}
use ai_oncall.Store.Schema.{ExecutedAction, Store, time}

abbrev pub has_key : String → ExecutedAction → Bool
has_key k a = a.action_key == k

abbrev pub is_done : ExecutedAction → Bool
is_done a = elim a.done_at [ none ↦ false | some _ ↦ true ]

unfoldable pub has_executed_action : String → Store → Bool
has_executed_action k s = any (λ a. has_key k a && is_done a) s.executed_actions

-- UPDATE executed_actions SET done_at = ? WHERE action_key = ?
unfoldable pub set_done : String → ℕ → List ExecutedAction → List ExecutedAction
set_done k now [] = []
set_done k now (a ∷ as') =
    let rest = set_done k now as' in
    (if has_key k a then record a { done_at = some now } else a) ∷ rest

module _ ⦃h : Host⦄ where
  -- INSERT OR IGNORE
  unfoldable pub record_action_started : String → Exec Store (Unit {0})
  record_action_started k = do
    now ← time
    λ s. if any (has_key k) s.executed_actions then (ok tt, s) else (
      ok tt,
      record s {
        executed_actions =
            s.executed_actions ++ record { action_key = k; started_at = now; done_at = none } ∷ [];
      },
    )

  unfoldable pub mark_action_done : String → Exec Store (Unit {0})
  mark_action_done k = do
    now ← time
    λ s. (ok tt, record s { executed_actions = set_done k now s.executed_actions })
