-- ===== src/Incident/HashChain/Verify.antt =====
-- The loop of `verify` against the definition of a chain.
use ai_oncall.Prelude.{
  String, ◌≡◌, ◌↔◌, refl, true, Option, none, some, List, [], ◌∷◌, ◌++◌, arith, eq_iff,
}
use ai_oncall.Python.Host.{Host}
use ai_oncall.Store.Schema.{Event}
use ai_oncall.Store.Timeline.{last_hash}
use ai_oncall.Incident.HashChain.{intact, corrupt, is_text, compute_event_hash, verify_rows}

pub is_text_iff : (o : Option String) (t : String) → (is_text o t ≡ true) ↔ (o ≡ some t)
is_text_iff none t = (λ e. cc, λ e. cc)
is_text_iff (some s) t = (λ e. ground (arith, eq_iff s t), λ e. ground (arith, eq_iff s t))

module _ ⦃h : Host⦄ where
  abbrev pub hash_of : String → Event → String
  hash_of prev e = compute_event_hash prev e.kind e.payload_json

  -- An event is linked to the hash before it.
  abbrev pub IsLinked : String → Event → Type 0
  IsLinked prev e = (e.prev_hash ≡ some prev) × (e.hash ≡ some (hash_of prev e))

  -- Each event is linked to the one before it, the first to the hash given.
  abbrev pub IsChained : String → List Event → Type 0
  IsChained prev [] = Unit
  IsChained prev (e ∷ es) = IsLinked prev e × IsChained (hash_of prev e) es

  -- The hash that the next event will carry.
  abbrev pub chain_end : String → List Event → String
  chain_end prev [] = prev
  chain_end prev (e ∷ es) = chain_end (hash_of prev e) es

  pub verify_rows_sound :
      (p : String) (rows : List Event) → verify_rows p rows ≡ intact → IsChained p rows
  unfolding verify_rows
  verify_rows_sound p [] v = tt
  verify_rows_sound p (e ∷ es) v = ground (
    arith,
    is_text_iff e.prev_hash p,
    is_text_iff e.hash (hash_of p e),
    verify_rows_sound (hash_of p e) es,
  )

  pub verify_rows_complete :
      (p : String) (rows : List Event) → IsChained p rows → verify_rows p rows ≡ intact
  unfolding verify_rows
  verify_rows_complete p [] c = refl
  verify_rows_complete p (e ∷ es) c =
      rw ((is_text_iff e.prev_hash p).1 c.0.0, (is_text_iff e.hash (hash_of p e)).1 c.0.1)
        (verify_rows_complete (hash_of p e) es c.1)

  -- A broken link is reported, whatever follows it.
  pub verify_rows-corrupt :
      (p : String) (before : List Event) (e : Event) (after : List Event)
      → IsChained p before
      → ¬ IsLinked (chain_end p before) e
      → verify_rows p (before ++ e ∷ after) ≡ corrupt e
  unfolding verify_rows
  verify_rows-corrupt p [] e after c n =
      ground (arith, is_text_iff e.prev_hash p, is_text_iff e.hash (hash_of p e))
  verify_rows-corrupt p (x ∷ xs) e after c n =
      rw ((is_text_iff x.prev_hash p).1 c.0.0, (is_text_iff x.hash (hash_of p x)).1 c.0.1)
        (verify_rows-corrupt (hash_of p x) xs e after c.1 n)

  pub IsChained-append :
      (p : String) (xs ys : List Event)
      → IsChained p xs
      → IsChained (chain_end p xs) ys
      → IsChained p (xs ++ ys)
  IsChained-append p [] ys c d = d
  IsChained-append p (x ∷ xs) ys c d = (c.0, IsChained-append (hash_of p x) xs ys c.1 d)

  pub IsChained-left : (p : String) (xs ys : List Event) → IsChained p (xs ++ ys) → IsChained p xs
  IsChained-left p [] ys c = tt
  IsChained-left p (x ∷ xs) ys c = (c.0, IsChained-left (hash_of p x) xs ys c.1)

  pub IsChained-right :
      (p : String) (xs ys : List Event) → IsChained p (xs ++ ys) → IsChained (chain_end p xs) ys
  IsChained-right p [] ys c = c
  IsChained-right p (x ∷ xs) ys c = IsChained-right (hash_of p x) xs ys c.1

  -- In a chain the last stored hash is the one that the next event will carry.
  pub last_hash-chain_end :
      (p : String) (e : Event) (es : List Event)
      → IsChained p (e ∷ es)
      → last_hash (e ∷ es) ≡ some (chain_end p (e ∷ es))
  unfolding last_hash
  last_hash-chain_end p e [] c = c.0.1
  last_hash-chain_end p e (x ∷ xs) c = rw (last_hash-chain_end (hash_of p e) x xs c.1, last_hash)

  -- The loop of `verify` finds no fault exactly if each event carries the hash before it as its
  -- `prev_hash`, and as its `hash` the hash of that one, its kind and its payload.
  pub verify_rows_iff :
      (p : String) (rows : List Event) → (verify_rows p rows ≡ intact) ↔ IsChained p rows
  verify_rows_iff p rows = (verify_rows_sound p rows, verify_rows_complete p rows)
