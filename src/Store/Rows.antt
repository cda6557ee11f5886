-- ===== src/Store/Rows.antt =====
-- What the statements on `incidents` leave in the table.
use ai_oncall.Prelude.{
  ℕ, String, ◌==◌, ◌≡◌, ◌≢◌, refl, Option, none, some, List, [], ◌∷◌, map, find, any, arith, eq_iff,
  if◌then◌else◌,
}
use ai_oncall.Store.Schema.{Incident}
use ai_oncall.Store.Incidents.{has_id, set_status, set_updated}

abbrev pub with_status : String → ℕ → Incident → Incident
with_status status now inc = record inc { status = status; updated_at = now }

abbrev pub touched : ℕ → Incident → Incident
touched now inc = record inc { updated_at = now }

abbrev pub map_option {ℓ κ} : {A : Type ℓ} {B : Type κ} → (A → B) → Option A → Option B
map_option f none = none
map_option f (some a) = some (f a)

pub find-set_status_self :
    (i status : String) (now : ℕ) (incs : List Incident)
    → find (has_id i) (set_status i status now incs)
      ≡ map_option (with_status status now) (find (has_id i) incs)
unfolding set_status
find-set_status_self i status now [] = refl
find-set_status_self i status now (x ∷ xs) = ground (arith, find-set_status_self i status now xs)

pub find-set_status_ne :
    (i j status : String) (now : ℕ) (incs : List Incident)
    → i ≢ j
    → find (has_id j) (set_status i status now incs) ≡ find (has_id j) incs
unfolding set_status
find-set_status_ne i j status now [] n = refl
find-set_status_ne i j status now (x ∷ xs) n =
    ground (arith, find-set_status_ne i j status now xs n, eq_iff x.id i, eq_iff x.id j)

pub find-set_updated :
    (i j : String) (now : ℕ) (incs : List Incident)
    → find (has_id j) (set_updated i now incs)
      ≡ map_option (λ inc. if inc.id == i then touched now inc else inc) (find (has_id j) incs)
unfolding set_updated
find-set_updated i j now [] = refl
find-set_updated i j now (x ∷ xs) = ground (arith, find-set_updated i j now xs)

-- The ids and the statuses of the incidents, in order.
abbrev pub statuses : List Incident → List (String × String)
statuses = map (λ inc. (inc.id, inc.status))

pub statuses-set_updated :
    (i : String) (now : ℕ) (incs : List Incident)
    → statuses (set_updated i now incs) ≡ statuses incs
unfolding set_updated
statuses-set_updated i now [] = refl
statuses-set_updated i now (x ∷ xs) = ground (arith, statuses-set_updated i now xs)

pub any-set_status :
    (i j status : String) (now : ℕ) (incs : List Incident)
    → any (has_id j) (set_status i status now incs) ≡ any (has_id j) incs
unfolding set_status
any-set_status i j status now [] = refl
any-set_status i j status now (x ∷ xs) = ground (arith, any-set_status i j status now xs)
