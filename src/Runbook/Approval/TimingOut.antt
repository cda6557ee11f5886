-- ===== src/Runbook/Approval/TimingOut.antt =====
-- Timeouts: what the first and the second do, and what is left possible between them.
use ai_oncall.Prelude.{
  ℕ, ◌+◌, String, ◌≡◌, ◌≢◌, ◌↔◌, refl, sym, ap, ◌∙◌, inl, inr, Bool, true, false, ◌||◌, Option,
  none, some, [], ◌∷◌, ◌++◌, Dict, insert, remove, lookup, lookup-insert, eq_refl, arith,
  Bool-cases, nat_eq,
}
use ai_oncall.Python.Exec.{ok, pure, next_ok, ok-injective}
use ai_oncall.Python.Preserves.{Preserves, next-P, Preserves-then, Preserves-pure}
use ai_oncall.Python.Json.{Json, str, num, strings, dict}
use ai_oncall.Python.Host.{Host}
use ai_oncall.Store.Schema.{Incident}
use ai_oncall.Store.Incidents.{get_incident}
use ai_oncall.Memory.Redact.{Patterns}
use ai_oncall.Incident.HashChain.{append}
use ai_oncall.Incident.HashChain.Append.{append_known}
use ai_oncall.Runbook.Approval.{
  pending, escalated, abandoned, PendingApproval, GateOutcome, GateConfig, Gate, on_store, refusal,
  outcome, put, if_pending, is_state_open, on_approve, on_reject, on_timeout, notify, escalate,
  noted, reminder, report_escalated, last_or, target_or, is_some,
}
use ai_oncall.Runbook.Approval.Deciding.{on_approve_refused, on_reject_refused}

counted : (q : PendingApproval) → q.timeout_count ≡ 0 → nat_eq (q.timeout_count + 1) 1 ≡ true
counted q n = ground arith

module _ ⦃h : Host⦄ ⦃p : Patterns⦄ (c : GateConfig) where
  -- The entry that a first timeout leaves: the target stands in it twice.
  abbrev pub noted_twice : PendingApproval → String → PendingApproval
  noted_twice q target = record q {
    state = escalated;
    notified_targets = (q.notified_targets ++ target ∷ []) ++ target ∷ [];
    timeout_count = q.timeout_count + 1;
  }

  abbrev pub escalation_target : PendingApproval → String
  escalation_target q =
      let last = last_or c.initial_target q.notified_targets in target_or last (c.next_target last)

  -- A first timeout: whatever the escalation chain and the notifier do, the entry is escalated.
  first_timeout :
      (r : String) (g : Gate) (q : PendingApproval)
      → lookup r g.requests ≡ some q
      → q.state ≡ pending
      → q.timeout_count ≡ 0
      → on_timeout c r g
        ≡ escalate c r
            (record q { timeout_count = q.timeout_count + 1 })
            (last_or c.initial_target q.notified_targets)
            (escalation_target q)
            g
  unfolding on_timeout
  first_timeout r g q l st n = rw l (rw (ap is_state_open st, counted q n))

  -- `_notify` writes the entry, whether or not the notifier raises.
  requests-notify :
      (q : PendingApproval) (target text : String) (g : Gate)
      → (notify c q target text g).1.requests
        ≡ insert q.request_id
            (record q { notified_targets = q.notified_targets ++ target ∷ [] })
            g.requests
  unfolding notify
  requests-notify q target text g = ground arith

  report-keeps :
      (d : Dict PendingApproval) (r : String) (q : PendingApproval) (last target : String)
      → Preserves (λ (x : Gate). x.requests ≡ d) (report_escalated c r q last target)
  report-keeps d r q last target =
      Preserves-then (on_store (append q.incident_id "approval_escalated" _)) _
        (record { at = λ g e. e }) (Preserves-pure _)

  requests-escalate :
      (r : String) (q : PendingApproval) (last target : String) (g : Gate)
      → (escalate c r q last target g).1.requests
        ≡ insert q.request_id
            (record (noted q target) {
              notified_targets = (noted q target).notified_targets ++ target ∷ [];
            })
            (insert q.request_id (noted q target) g.requests)
  requests-escalate r q last target g =
      let told = notify c (noted q target) target (reminder q target) (put (noted q target) g) in
      next-P
        {P = λ (x : Gate).
          x.requests
          ≡ insert q.request_id
              (record (noted q target) {
                notified_targets = (noted q target).notified_targets ++ target ∷ [];
              })
              (insert q.request_id (noted q target) g.requests)}
        told.0 told.1 (λ _. report_escalated c r (noted q target) last target)
        (requests-notify (noted q target) target (reminder q target) (put (noted q target) g))
        (λ _. report-keeps _ r (noted q target) last target)

  -- The entry of the request after a first timeout.
  entry_after :
      (r : String) (g : Gate) (q : PendingApproval)
      → lookup r g.requests ≡ some q
      → q.request_id ≡ r
      → q.state ≡ pending
      → q.timeout_count ≡ 0
      → lookup r (on_timeout c r g).1.requests ≡ some (noted_twice q (escalation_target q))
  entry_after r g q l key st n = rw (first_timeout r g q l st n) (
      ap (lookup r) (
        requests-escalate r (record q { timeout_count = q.timeout_count + 1 })
          (last_or c.initial_target q.notified_targets) (escalation_target q) g)
      ∙ lookup-insert q.request_id r _ _
      ∙ rw (key, eq_refl r))

  -- After the first timeout of a pending request its approval and its rejection are both refused and
  -- change nothing, though the request is still open; and its entry names the target of the reminder twice.
  pub first_timeout_closes :
      (r by reason : String) (g : Gate) (q : PendingApproval)
      → lookup r g.requests ≡ some q
      → q.request_id ≡ r
      → q.state ≡ pending
      → q.timeout_count ≡ 0
      → let g' = (on_timeout c r g).1 in
        (on_approve c r by g' ≡ (ok refusal, g'))
        × (on_reject c r by reason g' ≡ (ok refusal, g'))
        × (lookup r g'.requests ≡ some (noted_twice q (escalation_target q)))
  first_timeout_closes r by reason g q l key st n =
      let e = entry_after r g q l key st n in
      let g' = (on_timeout c r g).1 in
      (
        on_approve_refused c r by g' (ap if_pending e),
        on_reject_refused c r by reason g' (ap if_pending e),
        e,
      )

  escalate-state :
      (r : String) (q : PendingApproval) (last target : String) (g : Gate) (o : GateOutcome)
      → (escalate c r q last target g).0 ≡ ok o
      → o.state ≡ escalated
  escalate-state r q last target g o e =
      let told = notify c (noted q target) target (reminder q target) (put (noted q target) g) in
      let (_, _, e') =
        next_ok told.0 told.1 (λ _. report_escalated c r (noted q target) last target) o e in
      let (_, _, e'') = next_ok _ _ (λ _. pure _) o e' in
      sym (ap (λ (x : GateOutcome). x.state) (ok-injective e''))

  abbrev pub trail : String → PendingApproval → Json
  trail r q = dict (
      ("request_id", str r)
      ∷ ("step", str q.step.name)
      ∷ ("attempts", strings q.notified_targets)
      ∷ ("timeouts", num (q.timeout_count + 1))
      ∷ ("note", str "incident remains open; trail preserved")
      ∷ [])

  later : (n : ℕ) (o : Option String) → n ≢ 0 → o ≡ none → (nat_eq (n + 1) 1 || is_some o) ≡ false
  later n o m e = ground arith

  not_later :
      (n : ℕ) (o : Option String) → (nat_eq (n + 1) 1 || is_some o) ≡ false → (n ≢ 0) × (o ≡ none)
  not_later n none e = (ground arith, refl)
  not_later n (some t) e = absurd (ground arith)

  abandons :
      (r : String) (g : Gate) (q : PendingApproval) (inc : Incident)
      → lookup r g.requests ≡ some q
      → is_state_open q.state ≡ true
      → get_incident q.incident_id g.store ≡ some inc
      → (nat_eq (q.timeout_count + 1) 1
          || is_some (c.next_target (last_or c.initial_target q.notified_targets)))
        ≡ false
      → on_timeout c r g ≡ (
        ok (outcome abandoned r),
        record g {
          store = (append q.incident_id "approval_abandoned" (trail r q) g.store).1;
          requests = remove r g.requests;
        },
      )
  unfolding on_timeout
  abandons r g q inc l st known done = rw l (
      rw st (
        rw done
          (rw (append_known q.incident_id "approval_abandoned" (trail r q) g.store inc known))))

  -- A timeout abandons an open request exactly if it is not the first one and the escalation chain has
  -- nobody after the last one notified.
  pub on_timeout_abandons_iff :
      (r : String) (g : Gate) (q : PendingApproval) (inc : Incident)
      → lookup r g.requests ≡ some q
      → is_state_open q.state ≡ true
      → get_incident q.incident_id g.store ≡ some inc
      → ((on_timeout c r g).0 ≡ ok (outcome abandoned r)) ↔ (
          (q.timeout_count ≢ 0)
          × (c.next_target (last_or c.initial_target q.notified_targets) ≡ none))
  on_timeout_abandons_iff r g q inc l st known = (
    λ e. elim (Bool-cases again) [
      | inl more ↦ cc (
          escalate-state r q' last target g (outcome abandoned r)
            (sym (ap (λ x. x.0) (goes_on more)) ∙ e))
      | inr done ↦ not_later q.timeout_count following done
    ],
    λ d. ap (λ x. x.0) (abandons r g q inc l st known (later q.timeout_count following d.0 d.1)),
  )
    where
      last : String
      last = last_or c.initial_target q.notified_targets

      following : Option String
      following = c.next_target last

      again : Bool
      again = nat_eq (q.timeout_count + 1) 1 || is_some following

      q' : PendingApproval
      q' = record q { timeout_count = q.timeout_count + 1 }

      target : String
      target = target_or last following

      goes_on : again ≡ true → on_timeout c r g ≡ escalate c r q' last target g
      goes_on more = unfold on_timeout in rw l (rw st (rw more))

  -- An abandoned request is gone from the gate, and its event holds the targets and the timeouts.
  pub on_timeout_abandoned :
      (r : String) (g : Gate) (q : PendingApproval) (inc : Incident)
      → lookup r g.requests ≡ some q
      → is_state_open q.state ≡ true
      → get_incident q.incident_id g.store ≡ some inc
      → q.timeout_count ≢ 0
      → c.next_target (last_or c.initial_target q.notified_targets) ≡ none
      → on_timeout c r g ≡ (
        ok (outcome abandoned r),
        record g {
          store = (append q.incident_id "approval_abandoned" (trail r q) g.store).1;
          requests = remove r g.requests;
        },
      )
  on_timeout_abandoned r g q inc l st known n none_left =
      abandons r g q inc l st known (later q.timeout_count _ n none_left)
