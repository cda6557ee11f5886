-- ===== src/Postmortem/Reminders.antt =====
-- postmortem/writer.py: an action item that is closed is not reminded of.
use ai_oncall.Prelude.{
  ℕ, String, ◌==◌, ◌≡◌, refl, sym, ap, ◌∙◌, eq_false, false≢true, Bool, true, false, Bool-cases,
  inl, inr, ◌&&◌, none, some, List, [], ◌∷◌, any, map, filterb, arith, if◌then◌else◌,
}
use ai_oncall.Python.Exec.{ok}
use ai_oncall.Python.Host.{Host}
use ai_oncall.Store.Schema.{ActionItem, Store}
use ai_oncall.Store.Records.{is_due_before, overdue_action_items}
use ai_oncall.Postmortem.{
  Changes, change_if, has_item_id, update_action_item, remind_overdue, overdue_items,
}

abbrev pub to_status : String → Changes
to_status st = record { status = some st; owner = none; due_ts = none }

abbrev overdue : ℕ → ActionItem → Bool
overdue now a = a.status == "open" && is_due_before now a.due_ts

module _ (i st : String) (now : ℕ) (closed : (st == "open") ≡ false) where
  any-overdue :
      (xs : List ActionItem)
      → any (has_item_id i) (filterb (overdue now) (map (change_if i (to_status st)) xs)) ≡ false
  any-overdue [] = refl
  any-overdue (x ∷ xs) = elim (Bool-cases (x.id == i)) [
    | inl e ↦ ground (arith, any-overdue xs)
    | inr e ↦ ground (arith, any-overdue xs)
  ]

  other_id :
      (x : ActionItem) (j : String) → (j == i) ≡ false → (x.id == i) ≡ true → (x.id == j) ≡ false
  other_id x j n e = eq_false x.id j (λ p. false≢true (sym n ∙ ap (λ k. k == i) (sym p) ∙ e))

  any-overdue_other :
      (j : String) (xs : List ActionItem)
      → (j == i) ≡ false
      → any (has_item_id j) (filterb (overdue now) (map (change_if i (to_status st)) xs))
        ≡ any (has_item_id j) (filterb (overdue now) xs)
  any-overdue_other j [] n = refl
  any-overdue_other j (x ∷ xs) n = elim (Bool-cases (x.id == i)) [
    | inl e ↦ ground (arith, any-overdue_other j xs n, other_id x j n e)
    | inr e ↦ ground (arith, any-overdue_other j xs n)
  ]

notified :
    (b : Bool) (q : ActionItem → Bool) (xs : List ActionItem)
    → any q xs ≡ false
    → any q (if b then xs else []) ≡ false
notified true q xs e = e
notified false q xs e = refl

module _ ⦃h : Host⦄ where
  -- After an action item's status is set to another one than `open`, a reminder at any later state with
  -- the same action items names that item neither in the list returned nor among the items notified of;
  -- and at each time, every other item is overdue after the update as it was before it.
  pub remind_overdue-update_action_item :
      (i j st : String) (notifies : Bool) (now : ℕ) (s later : Store)
      → (st == "open") ≡ false
      → (j == i) ≡ false
      → later.action_items ≡ (update_action_item i (to_status st) s).1.action_items
      → ((r : List ActionItem × List ActionItem) × ((remind_overdue notifies later).0 ≡ ok r)
          × (any (has_item_id i) r.0 ≡ false)
          × (any (has_item_id i) r.1 ≡ false))
        × (any (has_item_id j) (overdue_action_items now (update_action_item i (to_status st) s).1)
            ≡ any (has_item_id j) (overdue_action_items now s))
  unfolding update_action_item remind_overdue overdue_items overdue_action_items
  remind_overdue-update_action_item i j st notifies now s later closed other p =
      let due = filterb (overdue (h.clock later.reads)) later.action_items in
      let none_due =
        ap (λ xs. any (has_item_id i) (filterb (overdue (h.clock later.reads)) xs)) p
        ∙ any-overdue i st (h.clock later.reads) closed s.action_items in
      (
        (
          (if notifies then due else [], due),
          refl,
          notified notifies (has_item_id i) due none_due,
          none_due,
        ),
        any-overdue_other i st now closed j s.action_items other,
      )
