-- ===== src/Store/Records/Counting.antt =====
-- The counts of the store against its rows.
use ai_oncall.Prelude.{
  ℕ, suc, ◌+◌, String, ◌==◌, ◌≡◌, ◌≢◌, refl, ◌∙◌, ap, inl, inr, Bool, false, not, some, List, [],
  ◌∷◌, lookup, lookup-insert, filterb, length, arith, eq_false, String-cases,
}
use ai_oncall.Python.Exec.{ok}
use ai_oncall.Store.Schema.{Incident, Store}
use ai_oncall.Store.Incidents.{count_incidents, matches_status}
use ai_oncall.Store.Records.{
  or_zero, tally, count_incidents_by_status, is_of_ref, delete_knowledge_by_ref,
  count_knowledge_chunks,
}

count_tally :
    (st : String) (incs : List Incident)
    → (st == "") ≡ false
    → or_zero (lookup st (tally incs)) ≡ length (filterb (matches_status (some st)) incs)
unfolding tally matches_status
count_tally st [] n = refl
count_tally st (inc ∷ incs) n =
    let ih = count_tally st incs n in
    ap or_zero
      (lookup-insert inc.status st (suc (or_zero (lookup inc.status (tally incs)))) (tally incs))
    ∙ elim (String-cases inc.status st) [
      | inl (e, same) ↦ rw (n, e) (ap suc (ap (λ k. or_zero (lookup k (tally incs))) same ∙ ih))
      | inr (e, other) ↦ rw (n, e) ih
    ]

-- The count of a status in the grouped counts, or 0 where the group is missing, is the number of incidents
-- that `count_incidents` gives for that status, unless the status is the empty text.
pub count_by_status-count :
    (st : String) (s : Store)
    → st ≢ ""
    → or_zero (lookup st (count_incidents_by_status s)) ≡ count_incidents (some st) s
unfolding count_incidents_by_status count_incidents
count_by_status-count st s n = count_tally st s.incidents (eq_false st "" n)

split_length {ℓ} :
    {A : Type ℓ} (p : A → Bool) (xs : List A)
    → length (filterb (λ x. not (p x)) xs) + length (filterb p xs) ≡ length xs
split_length p [] = refl
split_length p (x ∷ xs) = ground (arith, split_length p xs)

none_left {ℓ} :
    {A : Type ℓ} (p : A → Bool) (xs : List A) → filterb p (filterb (λ x. not (p x)) xs) ≡ []
none_left p [] = refl
none_left p (x ∷ xs) = ground (arith, none_left p xs)

-- Deleting the chunks of a reference answers with the number of chunks that are gone, and a second
-- deletion finds none.
pub delete_by_ref-count :
    (source ref_id : String) (s : Store)
    → (n : ℕ) × ((delete_knowledge_by_ref source ref_id s).0 ≡ ok n)
      × (count_knowledge_chunks (delete_knowledge_by_ref source ref_id s).1 + n
          ≡ count_knowledge_chunks s)
      × ((delete_knowledge_by_ref source ref_id (delete_knowledge_by_ref source ref_id s).1).0
          ≡ ok 0)
unfolding delete_knowledge_by_ref count_knowledge_chunks
delete_by_ref-count source ref_id s = (
  length (filterb (is_of_ref source ref_id) s.knowledge_chunks),
  refl,
  split_length (is_of_ref source ref_id) s.knowledge_chunks,
  ap (λ xs. ok (length xs)) (none_left (is_of_ref source ref_id) s.knowledge_chunks),
)
