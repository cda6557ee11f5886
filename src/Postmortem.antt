-- ===== src/Postmortem.antt =====
-- postmortem/writer.py: the action items of a postmortem. The methods that only pass a query of the store
-- on are that query; the draft's text is left out.
pub mod Reminders
use ai_oncall.Prelude.{
  ℕ, zero, suc, String, ◌<>◌, ◌==◌, Bool, true, false, ◌||◌, Option, none, some, List, [], ◌∷◌,
  ◌++◌, any, map, if◌then◌else◌,
}
use ai_oncall.Incident.HashChain.{append}
use ai_oncall.Memory.Indexer.{EmbeddingProvider, Metadata, index_postmortem}
use ai_oncall.Memory.Redact.{Patterns}
use ai_oncall.Python.Json.{str, dict}
use ai_oncall.Python.Exec.{Exec, Result, ok, err, integrity_error, pure, gets, ◌>>=◌}
use ai_oncall.Python.Host.{Host}
use ai_oncall.Store.Schema.{ActionItem, Store, time, uuid_hex}
use ai_oncall.Store.Records.{overdue_action_items}

-- The arguments of `update_action_item`: what is None stays.
pub record Changes : Type 0 where
  pub status : Option String
  pub owner : Option String
  pub due_ts : Option ℕ

abbrev pub or_else {ℓ} : {A : Type ℓ} → Option A → A → A
or_else none a = a
or_else (some b) a = b

abbrev pub or_none : Option ℕ → Option ℕ → Option ℕ
or_none none t = t
or_none (some n) t = some n

-- `if not sets`
abbrev pub is_no_change : Option String → Option String → Option ℕ → Bool
is_no_change none none none = true
is_no_change _ _ _ = false

-- SET status = ?, owner = ?, due_ts = ?
abbrev pub changed : Changes → ActionItem → ActionItem
changed c a = record a {
  status = or_else c.status a.status;
  owner = or_else c.owner a.owner;
  due_ts = or_none c.due_ts a.due_ts;
}

abbrev pub has_item_id : String → ActionItem → Bool
has_item_id i a = a.id == i

-- UPDATE action_items … WHERE id = ?
abbrev pub change_if : String → Changes → ActionItem → ActionItem
change_if i c a = if has_item_id i a then changed c a else a

unfoldable pub update_action_item : String → Changes → Exec Store Bool
update_action_item i c s = if is_no_change c.status c.owner c.due_ts then (ok false, s) else (
  ok (any (has_item_id i) s.action_items),
  record s { action_items = map (change_if i c) s.action_items },
)

-- INSERT INTO action_items
abbrev pub insert_item : ActionItem → Exec Store String
insert_item item s =
    if any (has_item_id item.id) s.action_items
    then (err integrity_error, s)
    else (ok item.id, record s { action_items = s.action_items ++ item ∷ [] })

module _ ⦃h : Host⦄ where
  unfoldable pub add_action_item : String → String → String → Option ℕ → Exec Store String
  add_action_item incident_id description owner due_ts = do
    digits ← uuid_hex 10
    now ← time
    insert_item (record {
      id = "act-" <> digits;
      incident_id = incident_id;
      description = description;
      owner = owner;
      due_ts = due_ts;
      status = "open";
      created_at = now;
    })

  -- `now or time.time()`
  abbrev pub now_or_time : Option ℕ → Exec Store ℕ
  now_or_time none = time
  now_or_time (some zero) = time
  now_or_time (some (suc n)) = pure (suc n)

  unfoldable pub overdue_items : Option ℕ → Exec Store (List ActionItem)
  overdue_items at = do now ← now_or_time at; gets (overdue_action_items now)

  -- The items that `notify` is called with, in order, where there is a `notify`, and the value.
  unfoldable pub remind_overdue : Bool → Exec Store (List ActionItem × List ActionItem)
  remind_overdue notifies = do
    overdue ← overdue_items none
    pure (if notifies then overdue else [], overdue)

-- git in the repository of the incidents: whether the repository and the draft of an incident are there;
-- `git add`; `git commit`, with false where it fails; and `git rev-parse HEAD`.
pub record Repo : Type 0 where
  pub has_draft : String → Bool
  pub add : String → Result (Unit {0})
  pub commit : String → String → Result Bool
  pub head : Result String

module _ (g : Repo) where
  abbrev pub head_if : Bool → Exec Store (Option String)
  head_if false = pure none
  head_if true = do r ← (λ s. (g.head, s)); pure (some r)

  unfoldable pub git_commit : String → Exec Store (Option String)
  git_commit incident_id = do
    _ ← (λ s. (g.add incident_id, s))
    committed ← (λ s. (g.commit incident_id ("postmortem: " <> incident_id), s))
    head_if committed

module _ ⦃h : Host⦄ ⦃p : Patterns⦄ (provider : EmbeddingProvider) (g : Repo) where
  unfoldable pub finalize : String → String → Metadata → Exec Store (Option String)
  finalize incident_id conclusion meta = do
    chunk ← index_postmortem provider incident_id conclusion meta
    _ ← append incident_id "postmortem_finalized" (dict (("ref", str chunk.id) ∷ []))
    if g.has_draft incident_id then git_commit g incident_id else pure none
