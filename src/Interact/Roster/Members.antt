-- ===== src/Interact/Roster/Members.antt =====
-- Who is on the escalation chain.
use ai_oncall.Prelude.{
  String, ◌==◌, ◌≡◌, ◌∙◌, sym, ap, subst, eq_refl, inl, inr, Bool, true, false, ◌||◌, List, [], ◌∷◌,
  ◌++◌, any, arith, Bool-cases, String-cases, if◌then◌else◌,
}
use ai_oncall.Interact.Roster.{Roster, is_new, chain_from, chain}

abbrev pub on : String → List String → Bool
on who xs = any (λ x. x == who) xs

on_snoc : (who x : String) (xs : List String) → on who (xs ++ x ∷ []) ≡ (on who xs || x == who)
on_snoc who x [] = ground arith
on_snoc who x (y ∷ ys) = ground (arith, on_snoc who x ys)

or_true : (b : Bool) → (b || true) ≡ true
or_true b = ground arith

on_self :
    (who : String) (seen : List String)
    → (who == "") ≡ false
    → on who (if is_new who seen then seen ++ who ∷ [] else seen) ≡ true
on_self who seen filled = elim (Bool-cases (on who seen)) [
  | inl there ↦ rw (filled, there) there
  | inr fresh ↦
      rw (filled, fresh)
        (on_snoc who who seen ∙ ap (λ b. on who seen || b) (eq_refl who) ∙ or_true (on who seen))
]

-- One entry is added, unless it is empty or there already.
on_next :
    (who x : String) (seen : List String)
    → (who == "") ≡ false
    → on who (if is_new x seen then seen ++ x ∷ [] else seen) ≡ (on who seen || x == who)
on_next who x seen filled = elim (String-cases x who) [
  | inl (e, same) ↦
      subst (λ y. on who (if is_new y seen then seen ++ y ∷ [] else seen) ≡ true) (sym same)
        (on_self who seen filled)
      ∙ sym (ap (λ b. on who seen || b) e ∙ or_true (on who seen))
  | inr (e, other) ↦ ground (arith, on_snoc who x seen)
]

on-chain_from :
    (who : String) (seen people : List String)
    → (who == "") ≡ false
    → on who (chain_from seen people) ≡ (on who seen || on who people)
unfolding chain_from
on-chain_from who seen [] filled = ground arith
on-chain_from who seen (x ∷ xs) filled =
    on-chain_from who (if is_new x seen then seen ++ x ∷ [] else seen) xs filled
    ∙ ground (arith, on_next who x seen filled)

-- A name that is not empty is on the escalation chain of a roster exactly if it is the primary, the
-- secondary or the manager.
pub on-chain :
    (who : String) (r : Roster)
    → (who == "") ≡ false
    → on who (chain r) ≡ (r.primary == who || (r.secondary == who || r.manager == who))
unfolding chain
on-chain who r filled =
    on-chain_from who [] (r.primary ∷ r.secondary ∷ r.manager ∷ []) filled ∙ ground arith
