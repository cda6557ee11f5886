-- ===== src/Prelude/Lists.antt =====
-- Lists measured by native numbers, filtered by Boolean tests, and association lists.
use Prim.Native.Nat.{ℕ, zero, suc, ◌+◌, ◌≤◌}
use Prim.Native.String.{String}
use mathlib.Core.Path.{◌≡◌, refl, sym, ap, ◌∙◌}
use mathlib.Core.Logic.{inl, inr}
use mathlib.Core.Bool.{Bool, true, false, ◌&&◌, ◌||◌}
use mathlib.Core.List.{List, [], ◌∷◌, ◌++◌}
use mathlib.Core.Option.{Option, none, some}
use native.Mathlib.Omega.{arith}
use text.Mathlib.Text.{◌==◌}
use text.Mathlib.TextEquality.{eq_iff}
use ai_oncall.Prelude.Tests.{if◌then◌else◌, Bool-cases, some_inj}

module _ {ℓ} {A : Type ℓ} where
  abbrev pub length : List A → ℕ
  length [] = 0
  length (x ∷ xs) = suc (length xs)

  abbrev pub take : ℕ → List A → List A
  take zero xs = []
  take (suc n) [] = []
  take (suc n) (x ∷ xs) = x ∷ take n xs

  abbrev pub drop : ℕ → List A → List A
  drop zero xs = xs
  drop (suc n) [] = []
  drop (suc n) (x ∷ xs) = drop n xs

  -- The comprehension `[x for x in xs if p(x)]`.
  abbrev pub filterb : (A → Bool) → List A → List A
  filterb p [] = []
  filterb p (x ∷ xs) = let rest = filterb p xs in if p x then x ∷ rest else rest

  abbrev pub any : (A → Bool) → List A → Bool
  any p [] = false
  any p (x ∷ xs) = p x || any p xs

  abbrev pub all : (A → Bool) → List A → Bool
  all p [] = true
  all p (x ∷ xs) = p x && all p xs

  -- The first element that passes, as `fetchone()` gives it.
  abbrev pub find : (A → Bool) → List A → Option A
  find p [] = none
  find p (x ∷ xs) = let rest = find p xs in if p x then some x else rest

  abbrev pub All {κ} : (A → Type κ) → List A → Type κ
  All P [] = Unit
  All P (x ∷ xs) = P x × All P xs

  -- A stable insertion sort; `before y x` says that `y` comes strictly before `x`.
  pub insert_by : (A → A → Bool) → A → List A → List A
  insert_by before x [] = x ∷ []
  insert_by before x (y ∷ ys) =
      let rest = insert_by before x ys in if before y x then y ∷ rest else x ∷ y ∷ ys

  unfoldable pub sort_by : (A → A → Bool) → List A → List A
  unfolding insert_by
  sort_by before [] = []
  sort_by before (x ∷ xs) = insert_by before x (sort_by before xs)

  pub length-append : (xs ys : List A) → length (xs ++ ys) ≡ length xs + length ys
  length-append [] ys = omega arith
  length-append (x ∷ xs) ys = omega (arith, length-append xs ys)

  pub All-append {κ} : (P : A → Type κ) (xs ys : List A) → All P xs → All P ys → All P (xs ++ ys)
  All-append P [] ys h k = k
  All-append P (x ∷ xs) ys h k = (h.0, All-append P xs ys h.1 k)

  pub filterb-append :
      (p : A → Bool) (xs ys : List A) → filterb p (xs ++ ys) ≡ filterb p xs ++ filterb p ys
  filterb-append p [] ys = refl
  filterb-append p (x ∷ xs) ys = ground (arith, filterb-append p xs ys)

  pub any_of_find : (p : A → Bool) (xs : List A) (x : A) → find p xs ≡ some x → any p xs ≡ true
  any_of_find p [] x e = cc
  any_of_find p (y ∷ ys) x e = ground (arith, any_of_find p ys x)

  pub not_any_of_find : (p : A → Bool) (xs : List A) → find p xs ≡ none → any p xs ≡ false
  not_any_of_find p [] e = refl
  not_any_of_find p (y ∷ ys) e = ground (arith, not_any_of_find p ys)

  -- What `find` gives passes the test.
  pub find_passes : (p : A → Bool) (xs : List A) {x : A} → find p xs ≡ some x → p x ≡ true
  find_passes p [] e = cc
  find_passes p (y ∷ ys) {x} e = elim (Bool-cases (p y)) [
    | inl t ↦ ground arith
    | inr f ↦ find_passes p ys (ground arith)
  ]

  pub find_of_any : (p : A → Bool) (xs : List A) → any p xs ≡ true → (x : A) × (find p xs ≡ some x)
  find_of_any p [] e = cc
  find_of_any p (y ∷ ys) e = elim (Bool-cases (p y)) [
    | inl t ↦ (y, ground arith)
    | inr f ↦ let (x, found) = find_of_any p ys (ground arith) in (x, ground arith)
  ]

  -- What passes one test, and was found by another, is somewhere in the list.
  pub any_found :
      (p q : A → Bool) (xs : List A) (x : A) → find p xs ≡ some x → q x ≡ true → any q xs ≡ true
  any_found p q [] x e h = cc
  any_found p q (y ∷ ys) x e h = elim (Bool-cases (p y)) [
    | inl t ↦ let same : y ≡ x = some_inj (sym (ground arith) ∙ e) in ground arith
    | inr f ↦ ground (arith, any_found p q ys x)
  ]

  length-insert_by :
      (b : A → A → Bool) (x : A) (ys : List A) → length (insert_by b x ys) ≡ suc (length ys)
  unfolding insert_by
  length-insert_by b x [] = refl
  length-insert_by b x (y ∷ ys) = ground (arith, length-insert_by b x ys)

  pub length-sort_by : (b : A → A → Bool) (xs : List A) → length (sort_by b xs) ≡ length xs
  unfolding sort_by
  length-sort_by b [] = refl
  length-sort_by b (x ∷ xs) = length-insert_by b x (sort_by b xs) ∙ ap suc (length-sort_by b xs)

  pub length-take : (n : ℕ) (xs : List A) → length (take n xs) ≤ n
  length-take zero xs = omega arith
  length-take (suc n) [] = omega arith
  length-take (suc n) (x ∷ xs) = omega (arith, length-take n xs)

  -- What is taken, and what is taken after it.
  pub take-drop : (m n : ℕ) (xs : List A) → take m xs ++ take n (drop m xs) ≡ take (m + n) xs
  take-drop zero n xs = ap (λ k. take k xs) (omega arith)
  take-drop (suc m) zero [] = let e : suc (m + 0) ≡ suc m + 0 = omega arith in ap (λ k. take k []) e
  take-drop (suc m) (suc n) [] =
      let e : suc (m + suc n) ≡ suc m + suc n = omega arith in ap (λ k. take k []) e
  take-drop (suc m) n (x ∷ xs) =
      let e : suc (m + n) ≡ suc m + n = omega arith in
      ap (λ ys. x ∷ ys) (take-drop m n xs) ∙ ap (λ k. take k (x ∷ xs)) e

  pub take_all : (n : ℕ) (xs : List A) → length xs ≤ n → take n xs ≡ xs
  take_all zero [] h = refl
  take_all (suc n) [] h = refl
  take_all zero (x ∷ xs) h = absurd (omega arith)
  take_all (suc n) (x ∷ xs) h = ap (λ ys. x ∷ ys) (take_all n xs (omega arith))

  any-insert_by :
      (b : A → A → Bool) (q : A → Bool) (x : A) (ys : List A)
      → any q (insert_by b x ys) ≡ (q x || any q ys)
  unfolding insert_by
  any-insert_by b q x [] = refl
  any-insert_by b q x (y ∷ ys) = ground (arith, any-insert_by b q x ys)

  pub any-sort_by :
      (b : A → A → Bool) (q : A → Bool) (xs : List A) → any q (sort_by b xs) ≡ any q xs
  unfolding sort_by
  any-sort_by b q [] = refl
  any-sort_by b q (x ∷ xs) =
      any-insert_by b q x (sort_by b xs) ∙ ap (◌||◌ (q x)) (any-sort_by b q xs)

  pub any-filterb : (p q : A → Bool) (xs : List A) → any q (filterb p xs) ≡ true → any q xs ≡ true
  any-filterb p q [] e = e
  any-filterb p q (x ∷ xs) e = ground (arith, any-filterb p q xs)

-- A dict with string keys, as the list of its items in order of insertion.
abbrev pub Dict {ℓ} : Type ℓ → Type ℓ
Dict V = List (String × V)

module _ {ℓ} {V : Type ℓ} where
  -- d.get(k)
  abbrev pub lookup : String → Dict V → Option V
  lookup k [] = none
  lookup k ((j, v) ∷ d) = let rest = lookup k d in if j == k then some v else rest

  -- d[k] = v
  unfoldable pub insert : String → V → Dict V → Dict V
  insert k v [] = (k, v) ∷ []
  insert k v ((j, w) ∷ d) = let rest = insert k v d in if j == k then (j, v) ∷ d else (j, w) ∷ rest

  -- del d[k]
  unfoldable pub remove : String → Dict V → Dict V
  remove k [] = []
  remove k ((j, v) ∷ d) = let rest = remove k d in if j == k then rest else (j, v) ∷ rest

  pub lookup-insert :
      (k j : String) (v : V) (d : Dict V)
      → lookup j (insert k v d) ≡ (if k == j then some v else lookup j d)
  unfolding insert
  lookup-insert k j v [] = refl
  lookup-insert k j v ((i, w) ∷ d) =
      ground (arith, eq_iff k j, eq_iff i k, eq_iff i j, lookup-insert k j v d)

  pub lookup-remove :
      (k j : String) (d : Dict V) → lookup j (remove k d) ≡ (if k == j then none else lookup j d)
  unfolding remove
  lookup-remove k j [] = ground arith
  lookup-remove k j ((i, w) ∷ d) =
      ground (arith, eq_iff k j, eq_iff i k, eq_iff i j, lookup-remove k j d)

  pub All-insert {κ} :
      (P : String × V → Type κ) (k : String) (v : V) (d : Dict V)
      → P (k, v)
      → All P d
      → All P (insert k v d)
  unfolding insert
  All-insert P k v [] h a = (h, tt)
  All-insert P k v ((j, w) ∷ d) h a = ground (arith, All-insert P k v d h a.1, eq_iff j k)

  pub All-remove {κ} :
      (P : String × V → Type κ) (k : String) (d : Dict V) → All P d → All P (remove k d)
  unfolding remove
  All-remove P k [] a = a
  All-remove P k ((j, w) ∷ d) a = ground (arith, All-remove P k d a.1)

pub ruleset dict_laws = (lookup-insert, lookup-remove)
