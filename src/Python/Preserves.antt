-- ===== src/Python/Preserves.antt =====
-- Predicates on the state that an action preserves, whether it returns or raises: one rule for each
-- way to build an action.
use ai_oncall.Prelude.{◌≡◌, refl, Bool, true, false, if◌then◌else◌}
use ai_oncall.Python.Exec.{
  Exn, Exec, Result, ok, err, next, pure, raise, gets, ◌>>=◌, ◌>>◌, when, catch, handle, attempt,
  attempted,
}

pub record Preserves {ℓ κ} {S A : Type ℓ} (P : S → Type κ) (m : Exec S A) : Type (ℓ ⊔ κ) where
  pub at : (s : S) → P s → P (m s).1

module _ {ℓ κ} {S A : Type ℓ} {P : S → Type κ} where
  pub Preserves-pure : (a : A) → Preserves P (pure a)
  Preserves-pure a = record { at = λ s h. h }

  pub Preserves-raise : (e : Exn) → Preserves P (raise {A = A} e)
  Preserves-raise e = record { at = λ s h. h }

  pub Preserves-gets : (f : S → A) → Preserves P (gets f)
  Preserves-gets f = record { at = λ s h. h }

  pub Preserves-if :
      (b : Bool) (m n : Exec S A)
      → (b ≡ true → Preserves P m)
      → (b ≡ false → Preserves P n)
      → Preserves P (if b then m else n)
  Preserves-if true m n p q = p refl
  Preserves-if false m n p q = q refl

  pub Preserves-catch :
      (m : Exec S A) (f : Exn → Exec S A)
      → Preserves P m
      → ((e : Exn) → Preserves P (f e))
      → Preserves P (catch m f)
  Preserves-catch m f p q = record { at = λ s h. go (m s).0 (m s).1 (p.at s h) }
    where
      go : (r : Result A) (s : S) → P s → P (handle r s f).1
      go (ok a) s h = h
      go (err e) s h = (q e).at s h

module _ {ℓ κ} {S A B : Type ℓ} {P : S → Type κ} where
  pub next-P :
      (r : Result A) (s : S) (f : A → Exec S B)
      → P s
      → ((a : A) → Preserves P (f a))
      → P (next r s f).1
  next-P (ok a) s f h p = (p a).at s h
  next-P (err e) s f h p = h

  pub Preserves-bind :
      (m : Exec S A) (f : A → Exec S B)
      → Preserves P m
      → ((a : A) → Preserves P (f a))
      → Preserves P (m >>= f)
  Preserves-bind m f p q = record { at = λ s h. next-P (m s).0 (m s).1 f (p.at s h) q }

  pub Preserves-then :
      (m : Exec S A) (n : Exec S B) → Preserves P m → Preserves P n → Preserves P (m >> n)
  Preserves-then m n p q = Preserves-bind m (λ _. n) p (λ _. q)

module _ {ℓ κ} {S A B : Type ℓ} {P : S → Type κ} where
  pub Preserves-attempt :
      (m : Exec S A) (catches : Exn → Bool) (f : Exn → Exec S B) (k : A → Exec S B)
      → Preserves P m
      → ((e : Exn) → Preserves P (f e))
      → ((a : A) → Preserves P (k a))
      → Preserves P (attempt m catches f k)
  Preserves-attempt m catches f k p q r = record { at = λ s h. go (m s).0 (m s).1 (p.at s h) }
    where
      go : (a : Result A) (s : S) → P s → P (attempted a s catches f k).1
      go (ok a) s h = (r a).at s h
      go (err e) s h =
          (Preserves-if (catches e) (f e) (raise e) (λ _. q e) (λ _. Preserves-raise e)).at s h

pub Preserves-when {ℓ κ} :
    {S : Type ℓ} {P : S → Type κ} (b : Bool) (m : Exec S (Unit {ℓ}))
    → Preserves P m
    → Preserves P (when b m)
Preserves-when true m p = p
Preserves-when false m p = Preserves-pure tt

pub ruleset preserves_rules = (
  Preserves-pure, Preserves-raise, Preserves-gets, Preserves-bind, Preserves-then, Preserves-when,
)
