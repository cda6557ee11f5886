-- ===== src/Python/Exec.antt =====
-- Methods that change an object and may raise. What was written before a raise stays written, so
-- the state comes back beside the exception too.
use ai_oncall.Prelude.{
  String, ◌≡◌, refl, ap, Bool, true, false, Option, none, some, List, if◌then◌else◌,
}

-- The exceptions that the program's code raises or catches.
pub data Exn : Type 0 where
  value_error : String → Exn
  assertion_error : Exn
  -- sqlite3.IntegrityError
  integrity_error : Exn
  executor_rejected : String → Exn
  budget_exceeded : String → Exn
  provider_error : String → Exn
  all_providers_failed : List String → Exn
  rbac_error : String → Exn
  shadow_gate_error : Exn
  -- RunbookValidationError, with its errors
  runbook_invalid : List String → Exn
  -- any other exception, with its message
  other_error : String → Exn

pub data Result {ℓ} (A : Type ℓ) : Type ℓ where
  ok : A → Result A
  err : Exn → Result A

pub ok-injective {ℓ} : {A : Type ℓ} {a b : A} → ok a ≡ ok b → a ≡ b
ok-injective p = cc

abbrev pub Exec {ℓ} : Type ℓ → Type ℓ → Type ℓ
Exec S A = S → Result A × S

module _ {ℓ} {S A : Type ℓ} where
  abbrev pub pure : A → Exec S A
  pure a s = (ok a, s)

  abbrev pub raise : Exn → Exec S A
  raise e s = (err e, s)

  -- A read that changes nothing.
  abbrev pub gets : (S → A) → Exec S A
  gets f s = (ok (f s), s)

module _ {ℓ} {S A B : Type ℓ} where
  abbrev pub next : Result A → S → (A → Exec S B) → Result B × S
  next (ok a) s f = f a s
  next (err e) s f = (err e, s)

  infixl 5 ◌>>=◌ ◌>>◌
  abbrev pub ◌>>=◌ : Exec S A → (A → Exec S B) → Exec S B
  ◌>>=◌ m f s = let r = m s in next r.0 r.1 f

  abbrev pub ◌>>◌ : Exec S A → Exec S B → Exec S B
  m >> k = m >>= λ _. k

  -- The two ways in which a bind ends.
  pub bind_ok :
      (m : Exec S A) (f : A → Exec S B) (s : S) {a : A} {t : S}
      → m s ≡ (ok a, t)
      → (m >>= f) s ≡ f a t
  bind_ok m f s p = rw p

  pub bind_err :
      (m : Exec S A) (f : A → Exec S B) (s : S) {e : Exn} {t : S}
      → m s ≡ (err e, t)
      → (m >>= f) s ≡ (err e, t)
  bind_err m f s p = rw p

module _ {ℓ} {S A B : Type ℓ} where
  -- A bind that returned comes from a step that returned.
  pub next_ok :
      (r : Result A) (s : S) (f : A → Exec S B) (b : B)
      → (next r s f).0 ≡ ok b
      → (a : A) × (r ≡ ok a) × ((f a s).0 ≡ ok b)
  next_ok (ok a) s f b e = (a, refl, e)
  next_ok (err x) s f b e = cc

  -- With the state that the first step left.
  pub bind_inv :
      (m : Exec S A) (f : A → Exec S B) (s : S) (b : B)
      → ((m >>= f) s).0 ≡ ok b
      → (a : A) × (t : S) × (m s ≡ (ok a, t)) × ((m >>= f) s ≡ f a t) × ((f a t).0 ≡ ok b)
  bind_inv m f s b e =
      let (a, q, e') = next_ok (m s).0 (m s).1 f b e in
      (a, (m s).1, ap (λ r. (r, (m s).1)) q, ap (λ r. next r (m s).1 f) q, e')

module _ {ℓ} {S A : Type ℓ} where
  -- `try: m except Exception as exc: f(exc)`
  abbrev pub handle : Result A → S → (Exn → Exec S A) → Result A × S
  handle (ok a) s f = (ok a, s)
  handle (err e) s f = f e s

  abbrev pub catch : Exec S A → (Exn → Exec S A) → Exec S A
  catch m f s = let r = m s in handle r.0 r.1 f

  -- `assert x is not None`
  abbrev pub assert_some : Option A → Exec S A
  assert_some none = raise assertion_error
  assert_some (some a) = pure a

-- `if b: m`
abbrev pub when {ℓ} : {S : Type ℓ} → Bool → Exec S (Unit {ℓ}) → Exec S (Unit {ℓ})
when true m = m
when false m = pure tt

-- The same chain for functions that touch no object.
abbrev pub and_then {ℓ} : {A B : Type ℓ} → Result A → (A → Result B) → Result B
and_then (ok a) f = f a
and_then (err e) f = err e

pub and_then_ok {ℓ} :
    {A B : Type ℓ} (r : Result A) (f : A → Result B) (b : B)
    → and_then r f ≡ ok b
    → (a : A) × (r ≡ ok a) × (f a ≡ ok b)
and_then_ok (ok a) f b e = (a, refl, e)
and_then_ok (err x) f b e = cc

abbrev pub is_value_error : Exn → Bool
is_value_error (value_error message) = true
is_value_error _ = false

abbrev pub is_budget_exceeded : Exn → Bool
is_budget_exceeded (budget_exceeded message) = true
is_budget_exceeded _ = false

module _ {ℓ} {S A B : Type ℓ} where
  abbrev pub attempted :
      Result A → S → (Exn → Bool) → (Exn → Exec S B) → (A → Exec S B) → Result B × S
  attempted (ok a) s catches f k = k a s
  attempted (err e) s catches f k = (if catches e then f e else raise e) s

  -- `try: a = m except E as exc: return f(exc)`, and then `return k(a)`
  abbrev pub attempt : Exec S A → (Exn → Bool) → (Exn → Exec S B) → (A → Exec S B) → Exec S B
  attempt m catches f k s = let r = m s in attempted r.0 r.1 catches f k
