-- ===== src/Flow/Report.antt =====
-- approval_flow.py: a report as the dict that is stored with its request.
use ai_oncall.Prelude.{false, [], ◌∷◌, map}
use ai_oncall.Python.Json.{Json, Fields, float, str, str_or_null, strings, array, dict, fields}
use ai_oncall.Executor.Report.{Hypothesis, SuggestedAction, TriageReport}

abbrev pub hypothesis_dict : Hypothesis → Json
hypothesis_dict h = dict (
    ("cause", str h.cause)
    ∷ ("confidence", float false h.confidence)
    ∷ ("evidence", strings h.evidence)
    ∷ [])

abbrev pub action_dict : SuggestedAction → Json
action_dict a = dict (
    ("action", str a.action)
    ∷ ("risk", str a.risk)
    ∷ ("runbook_ref", str_or_null a.runbook_ref)
    ∷ [])

unfoldable pub report_to_dict : TriageReport → Fields
report_to_dict r = fields (
    ("incident_id", str r.incident_id)
    ∷ ("hypotheses", array (map hypothesis_dict r.hypotheses))
    ∷ ("suggested_actions", array (map action_dict r.suggested_actions))
    ∷ ("missing_context", strings r.missing_context)
    ∷ ("prompt_version", str r.prompt_version)
    ∷ [])
