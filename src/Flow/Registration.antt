-- ===== src/Flow/Registration.antt =====
-- approval_flow.py: what the registration of a report leaves in the gate and in the store.
use ai_oncall.Prelude.{
  String, ◌<>◌, ◌≡◌, refl, sym, ap, ◌∙◌, subst, false, ◌&&◌, not, some, List, [], ◌∷◌, ◌++◌, any,
  find, insert, lookup, lookup-insert, eq_iff, eq_refl, arith, some_inj,
}
use ai_oncall.Python.Exec.{ok, bind_inv, ◌>>=◌, when}
use ai_oncall.Python.Preserves.{Preserves, Preserves-pure, Preserves-then}
use ai_oncall.Python.Ensures.{Ensures, Ensures-pure, Ensures-bind}
use ai_oncall.Python.Json.{Json}
use ai_oncall.Python.Host.{Host}
use ai_oncall.Store.Schema.{ApprovalRow, uuid_hex}
use ai_oncall.Store.Approvals.{has_request, is_pending}
use ai_oncall.Memory.Redact.{Patterns}
use ai_oncall.Incident.HashChain.{append}
use ai_oncall.Runbook.Model.{Runbook, RunbookStep}
use ai_oncall.Runbook.Approval.{
  pending, PendingApproval, GateOutcome, GateConfig, Gate, on_store, put, notify, new_request,
  request_text, note_requested, register, note_no_dry_run, ask_approval, outcome,
}
use ai_oncall.Flow.Orchestrator.{submitted}

-- The gate holds a pending request of this incident.
pub record Holds (r i : String) (g : Gate) : Type 0 where
  pub entry : PendingApproval
  pub found : lookup r g.requests ≡ some entry
  pub is_pending : entry.state ≡ pending
  pub of_incident : entry.incident_id ≡ i

pub same_Holds :
    (r i : String) (g g' : Gate) → g'.requests ≡ g.requests → Holds r i g → Holds r i g'
same_Holds r i g g' e w = record {
  entry = w.entry;
  found = ap (lookup r) e ∙ w.found;
  is_pending = w.is_pending;
  of_incident = w.of_incident;
}

module _ ⦃h : Host⦄ ⦃p : Patterns⦄ (c : GateConfig) where
  put-Holds :
      (q : PendingApproval) (g : Gate)
      → q.state ≡ pending
      → Holds q.request_id q.incident_id (put q g)
  put-Holds q g st = record {
    entry = q;
    found = lookup-insert q.request_id q.request_id q g.requests ∙ rw (eq_refl q.request_id);
    is_pending = st;
    of_incident = refl;
  }

  notify-requests :
      (q : PendingApproval) (target text : String) (g : Gate)
      → (notify c q target text g).1.requests
        ≡ insert q.request_id
            (record q { notified_targets = q.notified_targets ++ target ∷ [] })
            g.requests
  unfolding notify
  notify-requests q target text g = ground arith

  notify-Holds :
      (q : PendingApproval) (target text : String)
      → q.state ≡ pending
      → Preserves (Holds q.request_id q.incident_id) (notify c q target text)
  notify-Holds q target text st = record {
    at = λ g w.
        let q' : PendingApproval = record q {
          notified_targets = q.notified_targets ++ target ∷ [];
        } in
        same_Holds q.request_id q.incident_id (put q' g) (notify c q target text g).1
          (notify-requests q target text g) (put-Holds q' g st);
  }

  requests-append :
      (i kind : String) (payload : Json) (g : Gate)
      → (on_store (append i kind payload) g).1.requests ≡ g.requests
  requests-append i kind payload g = refl

  register-Holds :
      (i : String) (rb : Runbook) (st : RunbookStep) (r : String) (g : Gate)
      → Holds r i (register c i rb st r g).1
  register-Holds i rb st r g =
      let new = new_request c i rb st r in
      (Preserves-then (notify c new c.initial_target (request_text c rb st)) _
          (notify-Holds new c.initial_target (request_text c rb st) refl)
          (Preserves-then (note_requested c i st r) _
            (record { at = λ k w. same_Holds r i k (note_requested c i st r k).1 refl w })
            (Preserves-pure (outcome pending r)))).at
        (put new g) (put-Holds new g refl)

  registered_outcome :
      (i : String) (rb : Runbook) (st : RunbookStep) (r : String)
      → Ensures (λ o. outcome pending r ≡ o) (register c i rb st r)
  registered_outcome i rb st r =
      Ensures-bind (λ g. (ok tt, put (new_request c i rb st r) g)) _
        (λ _.
          Ensures-bind (notify c (new_request c i rb st r) c.initial_target (request_text c rb st))
            _
            (λ _.
              Ensures-bind (note_requested c i st r) _
                (λ _. Ensures-pure (outcome pending r) refl)))

  pub asked-Holds :
      (i : String) (rb : Runbook) (st : RunbookStep) (r : String) (g : Gate) (o : GateOutcome)
      → (ask_approval c i rb st g).0 ≡ ok o
      → submitted o ≡ some r
      → Holds r i (ask_approval c i rb st g).1
  asked-Holds i rb st r g o e sub =
      let (u, g1, _, same, e1) =
        bind_inv (when (not st.dry_run_capable) (note_no_dry_run c i st))
          (λ _. on_store (uuid_hex 10) >>= λ d. register c i rb st ("appr-" <> d)) g o e in
      let d = h.hex g1.store.draws 10 in
      let named : "appr-" <> d ≡ r = some_inj (
        ap submitted
          ((registered_outcome i rb st ("appr-" <> d)).at (on_store (uuid_hex 10) g1).1 o e1)
        ∙ sub) in
      subst (λ t. Holds r i t.1) (sym same)
        (subst (λ n. Holds n i (register c i rb st ("appr-" <> d) (on_store (uuid_hex 10) g1).1).1)
          named (register-Holds i rb st ("appr-" <> d) (on_store (uuid_hex 10) g1).1))

-- The rows with a request recorded, and what is found of it.
pub recorded_report :
    (r text : String) (rows : List ApprovalRow) (row : ApprovalRow)
    → any (has_request r) rows ≡ false
    → row.request_id ≡ r
    → row.state ≡ "pending"
    → find (λ a. has_request r a && is_pending a) (rows ++ row ∷ []) ≡ some row
recorded_report r text [] row n same st =
    ground (arith, (eq_iff row.request_id r).1 same, (eq_iff row.state "pending").1 st)
recorded_report r text (a ∷ as') row n same st =
    ground (arith, recorded_report r text as' row (ground arith) same st)
