-- ===== src/Incident/Correlate.antt =====
-- incident/correlate.py: an alert is merged into a recent unresolved incident that shares two of the
-- three labels, and opens a new incident otherwise.
pub mod Outcome
use ai_oncall.Prelude.{
  ℕ, suc, ◌+◌, ◌*◌, String, ◌==◌, Bool, true, false, not, ◌&&◌, Option, none, some, List, [], ◌∷◌,
  map, Dict, lookup, find, leb, if◌then◌else◌,
}
use ai_oncall.Python.Exec.{Exec, pure, ◌>>=◌, ◌>>◌}
use ai_oncall.Python.Json.{Json, str, dict}
use ai_oncall.Python.Host.{Host}
use ai_oncall.Store.Schema.{Incident, Store}
use ai_oncall.Store.Incidents.{create_incident, recent_unresolved_incidents, touch_incident}
use ai_oncall.Incident.HashChain.{append}

abbrev pub correlation_labels : List String
correlation_labels = "cluster" ∷ "service" ∷ "severity" ∷ []

abbrev pub window_minutes : ℕ
window_minutes = 5

pub data CorrelateAction : Type 0 where
  created merged recorded : CorrelateAction

pub record CorrelateResult : Type 0 where
  pub incident : Incident
  pub action : CorrelateAction

-- `va and vb and va == vb`
abbrev pub same_label : Option String → Option String → Bool
same_label (some va) (some vb) = not (va == "") && (not (vb == "") && va == vb)
same_label _ _ = false

unfoldable pub count_hits : List String → Dict String → Dict String → ℕ
count_hits [] a b = 0
count_hits (key ∷ keys) a b =
    let rest = count_hits keys a b in
    if same_label (lookup key a) (lookup key b) then suc rest else rest

unfoldable pub label_intersection : Dict String → Dict String → ℕ
unfolding count_hits
label_intersection a b = count_hits correlation_labels a b

-- `labels.get(k, "")`
abbrev or_blank : Option String → String
or_blank none = ""
or_blank (some v) = v

abbrev pub shares_labels : Dict String → Incident → Bool
shares_labels labels candidate = leb 2 (label_intersection candidate.labels labels)

abbrev pub merge_action : Incident → CorrelateAction
merge_action candidate = if candidate.status == "mitigated" then recorded else merged

abbrev pub matched_labels : Dict String → Json
matched_labels labels = dict (map (λ k. (k, str (or_blank (lookup k labels)))) correlation_labels)

module _ ⦃h : Host⦄ where
  unfoldable pub merge : Incident → String → String → Dict String → Exec Store CorrelateResult
  merge candidate fingerprint summary labels = do
    append candidate.id "alert_merged" (
        dict (
          ("fingerprint", str fingerprint)
          ∷ ("summary", str summary)
          ∷ ("matched_labels", matched_labels labels)
          ∷ []))
    touch_incident candidate.id
    pure (record { incident = candidate; action = merge_action candidate })

  abbrev pub create_result : Incident × Bool → CorrelateResult
  create_result (incident, true) = record { incident = incident; action = created }
  create_result (incident, false) = record { incident = incident; action = merged }

  abbrev pub merge_or_create :
      String → Dict String → String → ℕ → Option Incident → Exec Store CorrelateResult
  merge_or_create fingerprint labels summary severity (some candidate) =
      merge candidate fingerprint summary labels
  merge_or_create fingerprint labels summary severity none = do
    r ← create_incident fingerprint severity summary labels
    pure (create_result r)

  unfoldable pub ingest_alert : String → Dict String → String → ℕ → Exec Store CorrelateResult
  ingest_alert fingerprint labels summary severity = do
    candidates ← recent_unresolved_incidents (window_minutes * 60 * h.second)
    merge_or_create fingerprint labels summary severity (find (shares_labels labels) candidates)
