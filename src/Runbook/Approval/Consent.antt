-- ===== src/Runbook/Approval/Consent.antt =====
-- Nothing but `on_approve` writes the event `approval_granted`.
use ai_oncall.Prelude.{
  any, literal_ne, ◌<>◌, String, ◌==◌, ◌≡◌, ◌≢◌, refl, ◌∙◌, Bool, true, false, not, Option, none,
  some, List, [], ◌∷◌, lookup, arith, nat_eq, ◌||◌, ◌+◌,
}
use ai_oncall.Python.Exec.{ok, Exec, pure, when}
use ai_oncall.Python.Preserves.{
  Preserves, Preserves-pure, Preserves-bind, Preserves-then, Preserves-when, Preserves-if,
}
use ai_oncall.Python.Json.{Json}
use ai_oncall.Python.Host.{Host}
use ai_oncall.Store.Schema.{uuid_hex}
use ai_oncall.Store.Timeline.{has_timeline_kind}
use ai_oncall.Memory.Redact.{Patterns}
use ai_oncall.Memory.Indexer.{index_override, no_metadata}
use ai_oncall.Incident.HashChain.{append}
use ai_oncall.Incident.HashChain.Append.{has_timeline_kind-append_ne}
use ai_oncall.Runbook.Model.{Runbook, RunbookStep}
use ai_oncall.Runbook.Approval.{
  abandoned, rejected, PendingApproval, GateOutcome, GateConfig, Gate, on_store, notify, submit,
  auto_approve, ask_approval, register, note_no_dry_run, on_approve, on_reject, refuse, on_timeout,
  time_out_entry, time_out, escalate, abandon, report_escalated, noted, reminder, if_pending,
  is_state_open, put, take_out, last_or, target_or, is_some, outcome, refusal,
}

-- The calls of the gate.
pub data Call : Type 0 where
  submits : String → Runbook → RunbookStep → Call
  approves : String → String → Call
  rejects : String → String → String → Call
  times_out : String → Call

abbrev pub is_approval : Call → Bool
is_approval (approves r by) = true
is_approval (submits i rb st) = false
is_approval (rejects r by reason) = false
is_approval (times_out r) = false

module _ (i : String) (b : Bool) where
  -- Whether the incident has an approval on record.
  abbrev pub Granted : Gate → Type 0
  Granted g = has_timeline_kind i "approval_granted" g.store ≡ b

  notify-Granted :
      (c : GateConfig) (q : PendingApproval) (target text : String)
      → Preserves Granted (notify c q target text)
  unfolding notify
  notify-Granted c q target text = record { at = λ g e. ground arith }

  module _ ⦃h : Host⦄ where
    append-Granted :
        (j kind : String) (payload : Json)
        → kind ≢ "approval_granted"
        → Preserves Granted (on_store (append j kind payload))
    append-Granted j kind payload n = record {
      at = λ g e. has_timeline_kind-append_ne i "approval_granted" j kind payload g.store n ∙ e;
    }

    uuid-Granted : Preserves Granted (on_store (uuid_hex 10))
    unfolding has_timeline_kind
    uuid-Granted = record { at = λ g e. e }

    module _ ⦃p : Patterns⦄ (c : GateConfig) where
      index-Granted :
          (j reason : String)
          → Preserves Granted (on_store (index_override c.provider j reason no_metadata))
      unfolding has_timeline_kind index_override
      index-Granted j reason = record { at = λ g e. e }

      auto-Granted : (j : String) (st : RunbookStep) → Preserves Granted (auto_approve c j st)
      auto-Granted j st =
          Preserves-then (on_store (append j "approval_auto_approved" _)) _
            (append-Granted j "approval_auto_approved" _ (literal_ne _ _ refl)) (Preserves-pure _)

      register-Granted :
          (j : String) (rb : Runbook) (st : RunbookStep) (r : String)
          → Preserves Granted (register c j rb st r)
      register-Granted j rb st r =
          Preserves-then (λ g. (ok tt, put _ g)) _ (record { at = λ g e. e })
            (Preserves-then (notify c _ _ _) _ (notify-Granted c _ _ _) (
              Preserves-then (on_store (append j "approval_requested" _)) _
                (append-Granted j "approval_requested" _ (literal_ne _ _ refl)) (Preserves-pure _)))

      note-Granted : (j : String) (st : RunbookStep) → Preserves Granted (note_no_dry_run c j st)
      note-Granted j st =
          Preserves-then (on_store (append j "approval_dry_run_unavailable" _)) _
            (append-Granted j "approval_dry_run_unavailable" _ (literal_ne _ _ refl))
            (Preserves-pure _)

      submit-Granted :
          (j : String) (rb : Runbook) (st : RunbookStep) → Preserves Granted (submit c j rb st)
      unfolding submit
      submit-Granted j rb st =
          Preserves-if (st.risk == "read-only") (auto_approve c j st) (ask_approval c j rb st)
            (λ _. auto-Granted j st)
            (λ _.
              Preserves-then (when (not st.dry_run_capable) (note_no_dry_run c j st)) _
                (Preserves-when _ _ (note-Granted j st))
                (Preserves-bind (on_store (uuid_hex 10)) _ uuid-Granted
                  (λ d. register-Granted j rb st ("appr-" <> d))))

      refuse-Granted :
          (r by reason : String) (o : Option PendingApproval)
          → Preserves Granted (refuse c r by reason o)
      refuse-Granted r by reason none = record { at = λ g e. e }
      refuse-Granted r by reason (some q) = record {
        at = λ g e.
            (Preserves-then (on_store (append q.incident_id "approval_rejected" _)) _
                (append-Granted q.incident_id "approval_rejected" _ (literal_ne _ _ refl))
                (Preserves-then
                  (on_store (index_override c.provider q.incident_id reason no_metadata)) _
                  (index-Granted q.incident_id reason)
                  (Preserves-then (on_store (append q.incident_id "override_indexed_to_rag" _)) _
                    (append-Granted q.incident_id "override_indexed_to_rag" _ (literal_ne _ _ refl))
                    (Preserves-pure (outcome rejected r))))).at
              (take_out r g) e;
      }

      reject-Granted : (r by reason : String) → Preserves Granted (on_reject c r by reason)
      unfolding on_reject
      reject-Granted r by reason = record {
        at = λ g e. (refuse-Granted r by reason (if_pending (lookup r g.requests))).at g e;
      }

      escalate-Granted :
          (r : String) (q : PendingApproval) (last target : String)
          → Preserves Granted (escalate c r q last target)
      escalate-Granted r q last target = record {
        at = λ g e.
            (Preserves-then (notify c (noted q target) target (reminder q target))
                (report_escalated c r (noted q target) last target)
                (notify-Granted c (noted q target) target (reminder q target))
                (Preserves-then (on_store (append q.incident_id "approval_escalated" _)) _
                  (append-Granted q.incident_id "approval_escalated" _ (literal_ne _ _ refl))
                  (Preserves-pure _))).at
              (put (noted q target) g) e;
      }

      abandon-Granted : (r : String) (q : PendingApproval) → Preserves Granted (abandon c r q)
      abandon-Granted r q = record {
        at = λ g e.
            (Preserves-then (on_store (append q.incident_id "approval_abandoned" _)) _
                (append-Granted q.incident_id "approval_abandoned" _ (literal_ne _ _ refl))
                (Preserves-pure (outcome abandoned r))).at
              (take_out r g) e;
      }

      entry-Granted :
          (r : String) (o : Option PendingApproval) → Preserves Granted (time_out_entry c r o)
      entry-Granted r none = Preserves-pure refusal
      entry-Granted r (some q) =
          Preserves-if (is_state_open q.state) (time_out c r q') (pure refusal)
            (λ _.
              Preserves-if (nat_eq q'.timeout_count 1 || is_some (c.next_target last))
                (escalate c r q' last (target_or last (c.next_target last))) (abandon c r q')
                (λ _. escalate-Granted r q' last (target_or last (c.next_target last)))
                (λ _. abandon-Granted r q'))
            (λ _. Preserves-pure refusal)
        where
          q' : PendingApproval
          q' = record q { timeout_count = q.timeout_count + 1 }

          last : String
          last = last_or c.initial_target q.notified_targets

      timeout-Granted : (r : String) → Preserves Granted (on_timeout c r)
      unfolding on_timeout
      timeout-Granted r = record { at = λ g e. (entry-Granted r (lookup r g.requests)).at g e }

module _ ⦃h : Host⦄ ⦃p : Patterns⦄ (c : GateConfig) where
  unfoldable pub perform : Call → Exec Gate GateOutcome
  perform (submits i rb st) = submit c i rb st
  perform (approves r by) = on_approve c r by
  perform (rejects r by reason) = on_reject c r by reason
  perform (times_out r) = on_timeout c r

  -- A history of calls, each from the state that the one before it left, also where that one raised.
  unfoldable pub run : List Call → Gate → Gate
  run [] g = g
  run (call ∷ calls) g = run calls (perform call g).1

  perform-Granted :
      (i : String) (b : Bool) (call : Call)
      → is_approval call ≡ false
      → Preserves (Granted i b) (perform call)
  unfolding perform
  perform-Granted i b (submits j rb st) n = submit-Granted i b c j rb st
  perform-Granted i b (approves r by) n = cc
  perform-Granted i b (rejects r by reason) n = reject-Granted i b c r by reason
  perform-Granted i b (times_out r) n = timeout-Granted i b c r

  -- No history of submissions, rejections and timeouts puts an approval on the record of an incident
  -- that had none: only a call of `on_approve` does.
  pub run-no_consent :
      (i : String) (calls : List Call) (g : Gate)
      → any is_approval calls ≡ false
      → has_timeline_kind i "approval_granted" g.store ≡ false
      → has_timeline_kind i "approval_granted" (run calls g).store ≡ false
  unfolding run
  run-no_consent i [] g n e = e
  run-no_consent i (call ∷ calls) g n e =
      run-no_consent i calls (perform call g).1 (ground arith)
        ((perform-Granted i false call (ground arith)).at g e)
