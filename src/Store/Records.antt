-- ===== src/Store/Records.antt =====
-- store.py: the statements on predictions, knowledge chunks, action items and shadow scores, and the
-- count of the incidents by status. A filter that is None, or a list of sources that is empty, is left out.
pub mod Counting
use ai_oncall.Prelude.{
  ℕ, suc, String, ◌<>◌, ◌==◌, Bool, true, false, not, ◌&&◌, Option, none, some, List, [], ◌∷◌, ◌++◌,
  Dict, lookup, insert, filterb, find, any, sort_by, length, ltb, leb, if◌then◌else◌,
}
use ai_oncall.Python.Exec.{Exec, ok, err, integrity_error, pure, ◌>>=◌, ◌>>◌}
use ai_oncall.Python.Json.{Json}
use ai_oncall.Python.Host.{Host}
use ai_oncall.Store.Schema.{
  Incident, Prediction, KnowledgeChunk, ActionItem, ShadowScore, Store, time, uuid_hex,
}
use ai_oncall.Store.Incidents.{has_id}

abbrev pub or_zero : Option ℕ → ℕ
or_zero none = 0
or_zero (some n) = n

-- SELECT status, COUNT(*) … GROUP BY status
unfoldable pub tally : List Incident → Dict ℕ
tally [] = []
tally (inc ∷ incs) =
    let rest = tally incs in insert inc.status (suc (or_zero (lookup inc.status rest))) rest

unfoldable pub count_incidents_by_status : Store → Dict ℕ
unfolding tally
count_incidents_by_status s = tally s.incidents

-- The first row of a result, if there is one.
abbrev pub first_row {ℓ} : {A : Type ℓ} → List A → Option A
first_row [] = none
first_row (x ∷ xs) = some x

unfoldable pub latest_prediction : String → Store → Option Prediction
latest_prediction i s = first_row (
    sort_by (λ y x. ltb x.created_at y.created_at)
      (filterb (λ p. p.incident_id == i) s.predictions))

-- `column = ?`, which does not hold of a NULL column
abbrev pub equals : Option String → Option String → Bool
equals none column = true
equals (some v) none = false
equals (some v) (some w) = w == v

abbrev pub in_range : Option (ℕ × ℕ) → ℕ → Bool
in_range none t = true
in_range (some (start, end)) t = leb start t && leb t end

abbrev pub in_sources : List String → String → Bool
in_sources [] source = true
in_sources (x ∷ xs) source = any (λ y. y == source) (x ∷ xs)

unfoldable pub query_knowledge_chunks :
    Option String
    → Option String
    → Option String
    → Option (ℕ × ℕ)
    → List String
    → Store
    → List KnowledgeChunk
query_knowledge_chunks service cluster severity time_range sources s =
    sort_by (λ y x. ltb x.created_at y.created_at)
      (filterb
        (λ k.
          equals service k.service
          && (equals cluster k.cluster
              && (equals severity k.severity
                  && (in_range time_range k.created_at && in_sources sources k.source))))
        s.knowledge_chunks)

abbrev pub is_of_ref : String → String → KnowledgeChunk → Bool
is_of_ref source ref_id k =
    k.source == source && elim k.ref_id [ none ↦ false | some r ↦ r == ref_id ]

unfoldable pub delete_knowledge_by_ref : String → String → Exec Store ℕ
delete_knowledge_by_ref source ref_id s = (
  ok (length (filterb (is_of_ref source ref_id) s.knowledge_chunks)),
  record s { knowledge_chunks = filterb (λ k. not (is_of_ref source ref_id k)) s.knowledge_chunks },
)

unfoldable pub count_knowledge_chunks : Store → ℕ
count_knowledge_chunks s = length s.knowledge_chunks

unfoldable pub get_action_item : String → Store → Option ActionItem
get_action_item i s = find (λ a. a.id == i) s.action_items

abbrev pub is_item_of : Option String → ActionItem → Bool
is_item_of none a = true
is_item_of (some i) a = if i == "" then true else a.incident_id == i

unfoldable pub list_action_items : Option String → Store → List ActionItem
list_action_items i s =
    sort_by (λ y x. ltb y.created_at x.created_at) (filterb (is_item_of i) s.action_items)

abbrev pub is_due_before : ℕ → Option ℕ → Bool
is_due_before now none = false
is_due_before now (some t) = ltb t now

unfoldable pub overdue_action_items : ℕ → Store → List ActionItem
overdue_action_items now s =
    filterb (λ a. a.status == "open" && is_due_before now a.due_ts) s.action_items

-- INSERT … ON CONFLICT(incident_id) DO UPDATE: the time of the first score stays.
unfoldable pub upsert_score : ShadowScore → List ShadowScore → List ShadowScore
upsert_score new [] = new ∷ []
upsert_score new (x ∷ xs) =
    let rest = upsert_score new xs in
    if x.incident_id == new.incident_id
    then record x {
      cause_correct = new.cause_correct;
      action_usable = new.action_usable;
      reviewer = new.reviewer;
    }
      ∷ xs
    else x ∷ rest

unfoldable pub all_shadow_scores : Store → List ShadowScore
all_shadow_scores s = s.shadow_scores

module _ ⦃h : Host⦄ where
  unfoldable pub save_prediction : String → String → Json → Json → Json → ℕ → Exec Store String
  save_prediction incident_id prompt_version hypotheses actions missing_context tokens_used = do
    digits ← uuid_hex 12
    now ← time
    let new : Prediction = record {
      id = "pred-" <> digits;
      incident_id = incident_id;
      prompt_version = prompt_version;
      hypotheses_json = h.dumps hypotheses;
      actions_json = h.dumps actions;
      missing_context_json = h.dumps_ascii missing_context;
      tokens_used = tokens_used;
      created_at = now;
    }
    λ s.
        if any (has_id incident_id) s.incidents && not (any (λ p. p.id == new.id) s.predictions)
        then (ok new.id, record s { predictions = s.predictions ++ new ∷ [] })
        else (err integrity_error, s)

  unfoldable pub record_shadow_score : String → Bool → Bool → String → Exec Store (Unit {0})
  record_shadow_score incident_id cause_correct action_usable reviewer = do
    now ← time
    λ s. (
      ok tt,
      record s {
        shadow_scores =
            upsert_score
              (record {
                incident_id = incident_id;
                cause_correct = cause_correct;
                action_usable = action_usable;
                reviewer = reviewer;
                created_at = now;
              })
              s.shadow_scores;
      },
    )
