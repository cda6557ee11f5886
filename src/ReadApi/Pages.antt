-- ===== src/ReadApi/Pages.antt =====
-- readapi/__init__.py: the pages of the incidents, one after the other.
use ai_oncall.Prelude.{
  ℕ, zero, suc, ◌+◌, ◌-◌, ◌*◌, ◌≤◌, String, ◌≡◌, ap, ◌∙◌, Option, List, [], ◌++◌, length, filterb,
  sort_by, take, drop, length-take, take-drop, take_all, length-sort_by, arith,
}
use ai_oncall.Store.Schema.{Incident, Store}
use ai_oncall.Store.Incidents.{precedes, order_of, matches_status, list_incidents, count_incidents}
use ai_oncall.ReadApi.{page_of}

-- The incidents that a filter selects, in the order of the query.
abbrev pub selected : Option String → String → Store → List Incident
selected status order s =
    sort_by (precedes (order_of order)) (filterb (matches_status status) s.incidents)

-- The items of the pages 1 to n, one after the other.
unfoldable pub pages : Option String → ℕ → String → ℕ → Store → List Incident
pages status page_size order zero s = []
pages status page_size order (suc n) s =
    pages status page_size order n s ++ (page_of status (suc n) page_size order s).items

-- A page holds what stands after the pages before it.
page_items :
    (status : Option String) (k : ℕ) (order : String) (n : ℕ) (s : Store)
    → (page_of status (suc n) k order s).items ≡ take k (drop (n * k) (selected status order s))
unfolding page_of list_incidents
page_items status k order n s =
    let e : suc n - 1 ≡ n = omega arith in
    ap (λ m. take k (drop (m * k) (selected status order s))) e

pages_taken :
    (status : Option String) (k : ℕ) (order : String) (n : ℕ) (s : Store)
    → pages status k order n s ≡ take (n * k) (selected status order s)
unfolding pages
pages_taken status k order zero s =
    let e : 0 ≡ 0 * k = omega arith in ap (λ m. take m (selected status order s)) e
pages_taken status k order (suc n) s =
    let e : n * k + k ≡ suc n * k = omega arith in
    ap (λ xs. xs ++ (page_of status (suc n) k order s).items) (pages_taken status k order n s)
    ∙ ap (λ ys. take (n * k) (selected status order s) ++ ys) (page_items status k order n s)
    ∙ take-drop (n * k) k (selected status order s)
    ∙ ap (λ m. take m (selected status order s)) e

-- Where n pages of one size hold as many incidents as the answer's total says, the pages 1 to n, one
-- after the other, are all the incidents that the filter selects, each once and in the order of the
-- query; and no page is longer than its size.
pub pages-selected :
    (status : Option String) (k : ℕ) (order : String) (n : ℕ) (s : Store)
    → (page_of status n k order s).total ≤ n * k
    → (pages status k order n s ≡ selected status order s)
      × ((i : ℕ) → length (page_of status i k order s).items ≤ k)
unfolding page_of count_incidents list_incidents
pages-selected status k order n s h =
    let all = filterb (matches_status status) s.incidents in
    (
      pages_taken status k order n s
          ∙ take_all (n * k) (selected status order s)
              (omega (arith, length-sort_by (precedes (order_of order)) all)),
      λ i. length-take k (drop ((i - 1) * k) (selected status order s)),
    )
