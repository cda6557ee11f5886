-- ===== src/Incident/Machine/Lifecycle.antt =====
-- Any sequence of attempted transitions, on any incidents: a status only moves forward.
use ai_oncall.Prelude.{
  ℕ, ◌≤◌, String, ◌==◌, ◌≡◌, refl, ap, ◌∙◌, sym, inl, inr, ◌⊎◌, ◌||◌, true, false, Option, some,
  List, [], ◌∷◌, arith, eq_iff, String-cases, Bool-cases, Option-cases, if◌then◌else◌, subst,
  some_inj,
}
use ai_oncall.Python.Json.{Json}
use ai_oncall.Python.Host.{Host}
use ai_oncall.Store.Schema.{Incident, Store}
use ai_oncall.Store.Incidents.{get_incident, clashes}
use ai_oncall.Store.Rows.{map_option}
use ai_oncall.Incident.Machine.{can_transition, transition}
use ai_oncall.Incident.Machine.Status.{
  status_of, updated, changed, refused, transition_unknown, transition_illegal, transition_clash,
  transition_legal, get_incident-append, get_incident-updated_self, get_incident-updated_ne,
}

-- How far a status is along the way from `open` to `resolved`.
unfoldable pub rank : String → ℕ
rank st =
    if "open" == st
    then 0
    else if "investigating" == st
    then 1
    else if "mitigated" == st
    then 2
    else 3

only_target : (x b : String) → ((x == b) || false) ≡ true → x ≡ b
only_target x b h = ground (arith, eq_iff x b)

either_target : (x y b : String) → ((x == b) || ((y == b) || false)) ≡ true → (x ≡ b) ⊎ (y ≡ b)
either_target x y b h = ground (arith, eq_iff x b, eq_iff y b)

abbrev Climbs : String → Type 0
Climbs a = (b : String) → can_transition a b ≡ true → rank a ≤ rank b

open-Climbs : Climbs "open"
unfolding can_transition rank
open-Climbs b h = omega arith

investigating-Climbs : Climbs "investigating"
unfolding can_transition rank
investigating-Climbs b h = elim (either_target "mitigated" "investigating" b h) [
  | inl e ↦ subst (λ x. rank "investigating" ≤ rank x) e (omega arith)
  | inr e ↦ subst (λ x. rank "investigating" ≤ rank x) e (omega arith)
]

mitigated-Climbs : Climbs "mitigated"
unfolding can_transition rank
mitigated-Climbs b h =
    subst (λ x. rank "mitigated" ≤ rank x) (only_target "resolved" b h) (omega arith)

-- A status that is no key of the table allows nothing.
unknown-Climbs :
    (a : String)
    → ("open" == a) ≡ false
    → ("investigating" == a) ≡ false
    → ("mitigated" == a) ≡ false
    → Climbs a
unfolding can_transition
unknown-Climbs a o i m b = rw (o, i, m) (λ h. cc)

pub can_transition-rank : (a : String) → Climbs a
can_transition-rank a = elim (String-cases "open" a) [
  | inl (_, e) ↦ subst Climbs e open-Climbs
  | inr (o, _) ↦ elim (String-cases "investigating" a) [
    | inl (_, e) ↦ subst Climbs e investigating-Climbs
    | inr (i, _) ↦ elim (String-cases "mitigated" a) [
      | inl (_, e) ↦ subst Climbs e mitigated-Climbs
      | inr (m, _) ↦ unknown-Climbs a o i m
    ]
  ]
]

pub resolved_stuck : (b : String) → can_transition "resolved" b ≡ false
unfolding can_transition
resolved_stuck b = refl

-- One attempt leaves a status as it was, or moves it along the table.
data Advance (a b : Option String) : Type 0 where
  stays : b ≡ a → Advance a b
  moves : (x y : String) → a ≡ some x → b ≡ some y → can_transition x y ≡ true → Advance a b

module _ ⦃h : Host⦄ where
  legal-Advance :
      (i j target : String) (s : Store) (inc : Incident) (payload : Json)
      → get_incident i s ≡ some inc
      → can_transition inc.status target ≡ true
      → Advance (status_of j s) (status_of j (updated i target s))
  legal-Advance i j target s inc payload e legal = elim (String-cases i j) [
    | inl (_, same) ↦
        moves inc.status target
          (ap (map_option (λ x. x.status)) (ap (λ k. get_incident k s) (sym same) ∙ e))
          (ap (map_option (λ x. x.status)) (
            ap (λ k. get_incident k (updated i target s)) (sym same)
            ∙ get_incident-updated_self i target s inc e))
          legal
    | inr (_, other) ↦
        stays (ap (map_option (λ x. x.status)) (get_incident-updated_ne i j target s other))
  ]

  transition-Advance :
      (i j target : String) (s : Store)
      → Advance (status_of j s) (status_of j (transition i target s).1)
  transition-Advance i j target s = elim (Option-cases (get_incident i s)) [
    | inl e ↦ rw (transition_unknown i target s e) (stays refl)
    | inr (inc, e) ↦ elim (Bool-cases (can_transition inc.status target)) [
      | inl legal ↦ elim (Bool-cases (clashes i target s.incidents)) [
        | inl c ↦ rw (transition_clash i target s inc e legal c) (unfold get_incident in stays refl)
        | inr free ↦
            rw
              (
                transition_legal i target s inc e legal free,
                get_incident-append j i "status_changed" (changed inc.status target)
                    (updated i target s),
              )
              (legal-Advance i j target s inc (changed inc.status target) e legal)
      ]
      | inr illegal ↦
          rw
            (
              transition_illegal i target s inc e illegal,
              get_incident-append j i "illegal_transition_rejected" (refused inc.status target) s,
            )
            (stays refl)
    ]
  ]

  -- A sequence of attempts (incident, target), whatever each of them answers.
  unfoldable pub run : List (String × String) → Store → Store
  run [] s = s
  run ((i, target) ∷ calls) s = run calls (transition i target s).1

  Advance-rank :
      {a b : Option String}
      → Advance a b
      → {x : String} → a ≡ some x
      → (y : String) × (b ≡ some y) × (rank x ≤ rank y)
  Advance-rank (stays same) {x} e = (x, same ∙ e, omega arith)
  Advance-rank (moves u v ea eb legal) {x} e =
      (v, eb, rw (some_inj (sym e ∙ ea)) (can_transition-rank u v legal))

  -- No sequence of attempts, on this or other incidents, takes a status back: what was reached of
  -- open, investigating, mitigated and resolved stays reached.
  pub run-rank :
      (calls : List (String × String)) (j st : String) (s : Store)
      → status_of j s ≡ some st
      → (st' : String) × (status_of j (run calls s) ≡ some st') × (rank st ≤ rank st')
  unfolding run
  run-rank [] j st s e = (st, e, omega arith)
  run-rank ((i, target) ∷ calls) j st s e =
      let (x, ex, le) = Advance-rank (transition-Advance i j target s) e in
      let (y, ey, le') = run-rank calls j x (transition i target s).1 ex in (y, ey, omega arith)

  Advance-resolved : {a b : Option String} → Advance a b → a ≡ some "resolved" → b ≡ some "resolved"
  Advance-resolved (stays same) e = same ∙ e
  Advance-resolved (moves u v ea eb legal) e =
      cc (resolved_stuck v, legal, ap (λ k. can_transition k v) (some_inj (sym ea ∙ e)))

  -- A resolved incident stays resolved under every sequence of attempts.
  pub run-resolved :
      (calls : List (String × String)) (j : String) (s : Store)
      → status_of j s ≡ some "resolved"
      → status_of j (run calls s) ≡ some "resolved"
  unfolding run
  run-resolved [] j s e = e
  run-resolved ((i, target) ∷ calls) j s e =
      run-resolved calls j (transition i target s).1
        (Advance-resolved (transition-Advance i j target s) e)
