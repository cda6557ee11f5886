-- ===== src/Python/Ensures.antt =====
-- What holds of the value that an action returns, whatever state it starts in: one rule for each way to
-- build an action.
use ai_oncall.Prelude.{◌≡◌, refl, subst, Bool, true, false, if◌then◌else◌}
use ai_oncall.Python.Exec.{
  Exn, Exec, Result, ok, err, next_ok, pure, raise, ◌>>=◌, catch, handle, attempt, attempted,
  ok-injective,
}

pub record Ensures {ℓ κ} {S A : Type ℓ} (P : A → Type κ) (m : Exec S A) : Type (ℓ ⊔ κ) where
  pub at : (s : S) (a : A) → (m s).0 ≡ ok a → P a

module _ {ℓ κ} {S A : Type ℓ} {P : A → Type κ} where
  pub Ensures-pure : (a : A) → P a → Ensures P (pure {S = S} a)
  Ensures-pure a h = record { at = λ s b e. subst P (ok-injective e) h }

  pub Ensures-raise : (e : Exn) → Ensures P (raise {S = S} {A = A} e)
  Ensures-raise x = record { at = λ s b e. cc }

  pub Ensures-if :
      (b : Bool) (m n : Exec S A)
      → (b ≡ true → Ensures P m)
      → (b ≡ false → Ensures P n)
      → Ensures P (if b then m else n)
  Ensures-if true m n p q = p refl
  Ensures-if false m n p q = q refl

  pub Ensures-catch :
      (m : Exec S A) (f : Exn → Exec S A)
      → Ensures P m
      → ((e : Exn) → Ensures P (f e))
      → Ensures P (catch m f)
  Ensures-catch m f p q = record { at = λ s a e. go (m s).0 (m s).1 a (p.at s) e }
    where
      go :
          (r : Result A) (s : S) (a : A)
          → ((b : A) → r ≡ ok b → P b)
          → (handle r s f).0 ≡ ok a
          → P a
      go (ok b) s a h e = h a e
      go (err x) s a h e = (q x).at s a e

module _ {ℓ κ} {S A B : Type ℓ} {P : B → Type κ} where
  pub Ensures-bind :
      (m : Exec S A) (f : A → Exec S B) → ((a : A) → Ensures P (f a)) → Ensures P (m >>= f)
  Ensures-bind m f q = record {
    at = λ s b e. let (a, r, e') = next_ok (m s).0 (m s).1 f b e in (q a).at (m s).1 b e';
  }

  -- What the first step returns is known where that step is.
  pub Ensures-bind_of {μ} :
      (Q : A → Type μ) (m : Exec S A) (f : A → Exec S B)
      → Ensures Q m
      → ((a : A) → Q a → Ensures P (f a))
      → Ensures P (m >>= f)
  Ensures-bind_of Q m f p q = record {
    at = λ s b e.
        let (a, r, e') = next_ok (m s).0 (m s).1 f b e in (q a (p.at s a r)).at (m s).1 b e';
  }

  pub Ensures-attempt {μ} :
      (Q : A → Type μ) (m : Exec S A) (catches : Exn → Bool) (f : Exn → Exec S B) (k : A → Exec S B)
      → Ensures Q m
      → ((e : Exn) → Ensures P (f e))
      → ((a : A) → Q a → Ensures P (k a))
      → Ensures P (attempt m catches f k)
  Ensures-attempt Q m catches f k p q r = record { at = λ s b e. go (m s).0 (m s).1 b (p.at s) e }
    where
      go :
          (a : Result A) (t : S) (b : B)
          → ((c : A) → a ≡ ok c → Q c)
          → (attempted a t catches f k).0 ≡ ok b
          → P b
      go (ok c) t b h e = (r c (h c refl)).at t b e
      go (err x) t b h e =
          (Ensures-if (catches x) (f x) (raise x) (λ _. q x) (λ _. Ensures-raise x)).at t b e

-- Nothing is known of the value.
pub Ensures-any {ℓ} : {S A : Type ℓ} (m : Exec S A) → Ensures (λ _. Unit {ℓ}) m
Ensures-any m = record { at = λ s a e. tt }
