-- ===== src/Flow/Submitting.antt =====
-- runbook/approval.py: what a submission keeps of the store, where its events and its random digits do.
use ai_oncall.Prelude.{
  ℕ, String, ◌<>◌, ◌==◌, ◌≡◌, sym, ◌∙◌, subst, not, List, inl, inr, Option-cases, arith,
}
use ai_oncall.Python.Exec.{ok, when}
use ai_oncall.Python.Preserves.{
  Preserves, Preserves-pure, Preserves-bind, Preserves-then, Preserves-when, Preserves-if,
}
use ai_oncall.Python.Json.{Json}
use ai_oncall.Python.Host.{Host}
use ai_oncall.Store.Schema.{Store, Incident, ApprovalRow, uuid_hex}
use ai_oncall.Store.Incidents.{get_incident}
use ai_oncall.Memory.Redact.{Patterns}
use ai_oncall.Incident.HashChain.{append}
use ai_oncall.Incident.HashChain.Append.{append_known, append_unknown, incidents-append}
use ai_oncall.Runbook.Model.{Runbook, RunbookStep}
use ai_oncall.Runbook.Approval.{
  pending, PendingApproval, GateConfig, Gate, on_store, put, new_request, request_text,
  note_requested, notify, register, note_no_dry_run, ask_approval, auto_approve, auto_outcome,
  submit, outcome,
}

-- What an event and random digits leave as it is.
pub record Survives ⦃h : Host⦄ (Q : Store → Type 0) : Type 0 where
  pub events : (i kind : String) (payload : Json) (s : Store) → Q s → Q (append i kind payload s).1
  pub digits : (k : ℕ) (s : Store) → Q s → Q (uuid_hex k s).1

module _ ⦃h : Host⦄ where
  approval_requests-append :
      (i kind : String) (payload : Json) (s : Store)
      → (append i kind payload s).1.approval_requests ≡ s.approval_requests
  approval_requests-append i kind payload s = elim (Option-cases (get_incident i s)) [
    | inl e ↦ rw (append_unknown i kind payload s e)
    | inr (inc, e) ↦ rw (append_known i kind payload s inc e)
  ]

  pub rows_survive : (rows : List ApprovalRow) → Survives (λ s. s.approval_requests ≡ rows)
  rows_survive rows = record {
    events = λ i kind payload s e. approval_requests-append i kind payload s ∙ e;
    digits = λ k s e. e;
  }

  pub incidents_survive : (incs : List Incident) → Survives (λ s. s.incidents ≡ incs)
  incidents_survive incs = record {
    events = λ i kind payload s e. incidents-append i kind payload s ∙ e;
    digits = λ k s e. e;
  }

module _ ⦃h : Host⦄ ⦃p : Patterns⦄ (c : GateConfig) (Q : Store → Type 0) (k : Survives Q) where
  abbrev pub KeptStore : Gate → Type 0
  KeptStore g = Q g.store

  append-KeptStore :
      (i kind : String) (payload : Json) → Preserves KeptStore (on_store (append i kind payload))
  append-KeptStore i kind payload = record { at = λ g e. k.events i kind payload g.store e }

  notify-store :
      (q : PendingApproval) (target text : String) (g : Gate)
      → (notify c q target text g).1.store ≡ g.store
  unfolding notify
  notify-store q target text g = ground arith

  notify-KeptStore :
      (q : PendingApproval) (target text : String) → Preserves KeptStore (notify c q target text)
  notify-KeptStore q target text = record {
    at = λ g e. subst Q (sym (notify-store q target text g)) e;
  }

  register-KeptStore :
      (i : String) (rb : Runbook) (st : RunbookStep) (r : String)
      → Preserves KeptStore (register c i rb st r)
  register-KeptStore i rb st r =
      Preserves-then (λ g. (ok tt, put (new_request c i rb st r) g)) _ (record { at = λ g e. e })
        (Preserves-then (notify c (new_request c i rb st r) c.initial_target (request_text c rb st))
          _ (notify-KeptStore _ _ _)
          (Preserves-then (note_requested c i st r) _ (append-KeptStore i "approval_requested" _)
            (Preserves-pure (outcome pending r))))

  auto-KeptStore : (i : String) (st : RunbookStep) → Preserves KeptStore (auto_approve c i st)
  auto-KeptStore i st =
      Preserves-then (on_store (append i "approval_auto_approved" _)) _
        (append-KeptStore i "approval_auto_approved" _) (Preserves-pure auto_outcome)

  note-KeptStore : (i : String) (st : RunbookStep) → Preserves KeptStore (note_no_dry_run c i st)
  note-KeptStore i st =
      Preserves-then (on_store (append i "approval_dry_run_unavailable" _)) _
        (append-KeptStore i "approval_dry_run_unavailable" _) (Preserves-pure tt)

  pub submit-KeptStore :
      (i : String) (rb : Runbook) (st : RunbookStep) → Preserves KeptStore (submit c i rb st)
  unfolding submit
  submit-KeptStore i rb st =
      Preserves-if (st.risk == "read-only") (auto_approve c i st) (ask_approval c i rb st)
        (λ _. auto-KeptStore i st)
        (λ _.
          Preserves-then (when (not st.dry_run_capable) (note_no_dry_run c i st)) _
            (Preserves-when (not st.dry_run_capable) (note_no_dry_run c i st) (note-KeptStore i st))
            (Preserves-bind (on_store (uuid_hex 10)) _
              (record { at = λ g e. k.digits 10 g.store e })
              (λ d. register-KeptStore i rb st ("appr-" <> d))))
