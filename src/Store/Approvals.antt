-- ===== src/Store/Approvals.antt =====
-- store.py: the statements on the table `approval_requests`.
use ai_oncall.Prelude.{
  String, ◌==◌, Bool, ◌&&◌, Option, none, some, List, [], ◌∷◌, ◌++◌, find, filterb, any, sort_by,
  ltb, if◌then◌else◌,
}
use ai_oncall.Python.Exec.{Exec, ok, ◌>>=◌}
use ai_oncall.Python.Host.{Host}
use ai_oncall.Store.Schema.{ApprovalRow, Store, time}

abbrev pub has_request : String → ApprovalRow → Bool
has_request r a = a.request_id == r

abbrev pub is_pending : ApprovalRow → Bool
is_pending a = a.state == "pending"

unfoldable pub get_pending_report : String → Store → Option String
get_pending_report r s = elim (find (λ a. has_request r a && is_pending a) s.approval_requests) [
  | none ↦ none
  | some a ↦ some a.report_json
]

-- UPDATE approval_requests SET state = ? WHERE request_id = ?
unfoldable pub set_state : String → String → List ApprovalRow → List ApprovalRow
set_state r state [] = []
set_state r state (a ∷ as') =
    let rest = set_state r state as' in
    (if has_request r a then record a { state = state } else a) ∷ rest

unfoldable pub mark_approval_done : String → String → Exec Store (Unit {0})
mark_approval_done r state s =
    (ok tt, record s { approval_requests = set_state r state s.approval_requests })

unfoldable pub list_pending_approvals : Store → List ApprovalRow
list_pending_approvals s =
    sort_by (λ y x. ltb y.created_at x.created_at) (filterb is_pending s.approval_requests)

module _ ⦃h : Host⦄ where
  -- INSERT OR IGNORE
  unfoldable pub record_pending_approval : String → String → String → Exec Store (Unit {0})
  record_pending_approval request_id incident_id report_json = do
    now ← time
    λ s. if any (has_request request_id) s.approval_requests then (ok tt, s) else (
      ok tt,
      record s {
        approval_requests =
            s.approval_requests
            ++ record {
              request_id = request_id;
              incident_id = incident_id;
              report_json = report_json;
              state = "pending";
              created_at = now;
            }
              ∷ [];
      },
    )
