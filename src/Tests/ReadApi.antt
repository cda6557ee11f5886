-- ===== src/Tests/ReadApi.antt =====
-- The read API on a store of two incidents.
use ai_oncall.Prelude.{
  ℕ, ◌≤◌, ◌≡◌, refl, String, ◌==◌, Option, none, some, [], ◌∷◌, length, arith, if◌then◌else◌,
}
use ai_oncall.Python.Exec.{Result, ok, err, value_error}
use ai_oncall.Store.Incidents.{count_incidents, matches_status}
use ai_oncall.ReadApi.{Requests, Query, page_of, do_get, route}
use ai_oncall.ReadApi.Pages.{pages, selected, pages-selected}
use ai_oncall.ReadApi.ReadOnly.{tables_of, outcome_of, do_get-Untouched}
use ai_oncall.Tests.Fixture.{shop, test_host}
use ai_oncall.Tests.Reports.{test_texts}

abbrev int_of : String → Option ℕ
int_of t =
    if t == "1" then some 1 else if t == "2" then some 2 else if t == "20" then some 20 else none

abbrev second_page : Query
second_page = ("page", "2" ∷ []) ∷ ("page_size", "1" ∷ []) ∷ []

abbrev parsed : String → Result (String × Query)
parsed text =
    if text == "/api/incidents/?page=2&page_size=1"
    then ok ("/api/incidents", second_page)
    else err (value_error "Invalid IPv6 URL")

abbrev requests : Requests
requests = record {
  parsed = parsed;
  int_of = int_of;
  incident_path = λ p. none;
  first_500 = λ t. t;
}

two_counted : (page_of none 2 1 "created_at ASC" shop).total ≡ 2
unfolding page_of count_incidents matches_status
two_counted = refl

pages-selected_example :
    (pages none 1 "created_at ASC" 2 shop ≡ selected none "created_at ASC" shop)
    × ((i : ℕ) → length (page_of none i 1 "created_at ASC" shop).items ≤ 1)
pages-selected_example = pages-selected none 1 "created_at ASC" 2 shop (omega (arith, two_counted))

abbrev request : String
request = "/api/incidents/?page=2&page_size=1"

do_get-Untouched_example :
    ((do_get ⦃h = test_host⦄ ⦃x = test_texts⦄ requests request shop).0
      ≡ outcome_of
          (parsed request)
          (λ path qs. (route ⦃h = test_host⦄ ⦃x = test_texts⦄ requests path qs shop).0))
    × (tables_of (do_get ⦃h = test_host⦄ ⦃x = test_texts⦄ requests request shop).1 ≡ tables_of shop)
do_get-Untouched_example = do_get-Untouched ⦃h = test_host⦄ ⦃x = test_texts⦄ requests request shop
