-- ===== src/Incident/Machine.antt =====
-- incident/machine.py: the table of legal transitions, and the attempt of one.
pub mod Status
pub mod Lifecycle
use ai_oncall.Prelude.{
  String, ◌==◌, Bool, true, false, Option, none, some, List, [], ◌∷◌, Dict, lookup, any,
  if◌then◌else◌,
}
use ai_oncall.Python.Exec.{Exec, pure, gets, ◌>>=◌, ◌>>◌}
use ai_oncall.Python.Json.{str, dict}
use ai_oncall.Python.Host.{Host}
use ai_oncall.Store.Schema.{Incident, Store}
use ai_oncall.Store.Incidents.{get_incident, update_status}
use ai_oncall.Incident.HashChain.{append}

unfoldable pub transitions : Dict (List String)
transitions =
    ("open", "investigating" ∷ [])
    ∷ ("investigating", "mitigated" ∷ "investigating" ∷ [])
    ∷ ("mitigated", "resolved" ∷ [])
    ∷ []

abbrev pub or_empty : Option (List String) → List String
or_empty none = []
or_empty (some targets) = targets

unfoldable pub can_transition : String → String → Bool
unfolding transitions
can_transition current target = any (λ t. t == target) (or_empty (lookup current transitions))

module _ ⦃h : Host⦄ where
  abbrev pub reject_illegal : String → String → String → Exec Store Bool
  reject_illegal incident_id current target = do
    append incident_id "illegal_transition_rejected"
        (dict (("current", str current) ∷ ("target", str target) ∷ []))
    pure false

  abbrev pub record_change : String → String → String → Bool → Exec Store Bool
  record_change incident_id current target false = pure false
  record_change incident_id current target true = do
    append incident_id "status_changed" (dict (("from", str current) ∷ ("to", str target) ∷ []))
    pure true

  abbrev pub perform : String → String → String → Exec Store Bool
  perform incident_id current target = do
    updated ← update_status incident_id target
    record_change incident_id current target updated

  abbrev pub attempt : String → String → Option Incident → Exec Store Bool
  attempt incident_id target none = pure false
  attempt incident_id target (some incident) =
      if can_transition incident.status target
      then perform incident_id incident.status target
      else reject_illegal incident_id incident.status target

  unfoldable pub transition : String → String → Exec Store Bool
  transition incident_id target = do
    incident ← gets (get_incident incident_id)
    attempt incident_id target incident
