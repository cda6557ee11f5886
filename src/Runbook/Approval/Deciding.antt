-- ===== src/Runbook/Approval/Deciding.antt =====
-- Human decisions: what an approval does, and that a request is decided once.
use ai_oncall.Prelude.{
  String, ◌≡◌, refl, sym, ap, ◌∙◌, inl, inr, none, some, [], ◌∷◌, remove, lookup, lookup-remove,
  eq_refl, Option-cases,
}
use ai_oncall.Python.Exec.{Result, ok, err, next, pure, ok-injective}
use ai_oncall.Python.Json.{Json, str, dict}
use ai_oncall.Python.Host.{Host}
use ai_oncall.Store.Schema.{Incident}
use ai_oncall.Store.Incidents.{get_incident}
use ai_oncall.Memory.Redact.{Patterns}
use ai_oncall.Incident.HashChain.{append}
use ai_oncall.Incident.HashChain.Append.{append_known}
use ai_oncall.Runbook.Approval.{
  pending, approved, PendingApproval, GateOutcome, GateConfig, Gate, refusal, outcome, if_pending,
  on_approve, on_reject, on_timeout, grant,
}

-- The state after an action that is followed by a plain answer.
pub next-pure_state {ℓ} :
    {S A B : Type ℓ} (r : Result A) (s : S) (b : B) → (next r s (λ _. pure b)).1 ≡ s
next-pure_state (ok a) s b = refl
next-pure_state (err e) s b = refl

module _ ⦃h : Host⦄ ⦃p : Patterns⦄ (c : GateConfig) where
  abbrev pub granted_payload : String → String → PendingApproval → Json
  granted_payload r by q =
      dict (("request_id", str r) ∷ ("step", str q.step.name) ∷ ("by", str by) ∷ [])

  -- A pending request of a known incident is approved: it leaves the gate, and one event says so.
  pub on_approve_pending :
      (r by : String) (g : Gate) (q : PendingApproval) (inc : Incident)
      → lookup r g.requests ≡ some q
      → q.state ≡ pending
      → get_incident q.incident_id g.store ≡ some inc
      → on_approve c r by g ≡ (
        ok (outcome approved r),
        record g {
          store = (append q.incident_id "approval_granted" (granted_payload r by q) g.store).1;
          requests = remove r g.requests;
        },
      )
  unfolding on_approve
  on_approve_pending r by g q inc l st known =
      rw (l, st)
        (rw (
          append_known q.incident_id "approval_granted" (granted_payload r by q) g.store inc known))

  -- Any other request is refused, by the three handlers of a decision alike.
  pub on_approve_refused :
      (r by : String) (g : Gate)
      → if_pending (lookup r g.requests) ≡ none
      → on_approve c r by g ≡ (ok refusal, g)
  unfolding on_approve
  on_approve_refused r by g e = rw e

  pub on_reject_refused :
      (r by reason : String) (g : Gate)
      → if_pending (lookup r g.requests) ≡ none
      → on_reject c r by reason g ≡ (ok refusal, g)
  unfolding on_reject
  on_reject_refused r by reason g e = rw e

  pub on_timeout_unknown :
      (r : String) (g : Gate) → lookup r g.requests ≡ none → on_timeout c r g ≡ (ok refusal, g)
  unfolding on_timeout
  on_timeout_unknown r g e = rw e

  requests-grant :
      (r by : String) (q : PendingApproval) (g : Gate)
      → (grant c r by (some q) g).1.requests ≡ remove r g.requests
  requests-grant r by q g = ap (λ (x : Gate). x.requests) (next-pure_state _ _ (outcome approved r))

  -- An approval that was granted cannot be granted again, refused afterwards or timed out: each of these
  -- answers with a refusal and changes nothing.
  pub on_approve_once :
      (r by by' reason : String) (g : Gate) (o : GateOutcome)
      → (on_approve c r by g).0 ≡ ok o
      → o.state ≡ approved
      → let g' = (on_approve c r by g).1 in
        (on_approve c r by' g' ≡ (ok refusal, g'))
        × (on_reject c r by' reason g' ≡ (ok refusal, g'))
        × (on_timeout c r g' ≡ (ok refusal, g'))
  on_approve_once r by by' reason g o answered st =
      let g' = (on_approve c r by g).1 in
      (
        on_approve_refused r by' g' (ap if_pending gone),
        on_reject_refused r by' reason g' (ap if_pending gone),
        on_timeout_unknown r g' gone,
      )
    where
      gone : lookup r (on_approve c r by g).1.requests ≡ none
      gone = elim (Option-cases (if_pending (lookup r g.requests))) [
        | inl e ↦ cc (
          st,
          ap (λ (x : GateOutcome). x.state)
              (ok-injective (sym (ap (λ x. x.0) (on_approve_refused r by g e)) ∙ answered)),
        )
        | inr (q, e) ↦
            ap (λ d. lookup r d) (taken q e) ∙ lookup-remove r r g.requests ∙ rw (eq_refl r)
      ]
        where
          taken :
              (q : PendingApproval)
              → if_pending (lookup r g.requests) ≡ some q
              → (on_approve c r by g).1.requests ≡ remove r g.requests
          taken q e = unfold on_approve in rw e (requests-grant r by q g)
