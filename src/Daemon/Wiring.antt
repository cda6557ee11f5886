-- ===== src/Daemon/Wiring.antt =====
-- __main__.py: the triage of a new incident, and the registration of what it suggests. The arguments of
-- the command line, the environment variables and the servers are left out.
use ai_oncall.Prelude.{String, Option, none, some, [], ◌∷◌, Dict}
use ai_oncall.Python.Exec.{Exec, Result, ok, err, value_error, and_then, pure, gets, ◌>>=◌, ◌>>◌}
use ai_oncall.Python.Json.{Json, Fields, str, dict, fields}
use ai_oncall.Python.Host.{Host}
use ai_oncall.Python.Texts.{Texts}
use ai_oncall.Store.Schema.{Incident, Prediction}
use ai_oncall.Store.Incidents.{get_incident}
use ai_oncall.Store.Records.{latest_prediction}
use ai_oncall.Memory.Redact.{Patterns}
use ai_oncall.Executor.Report.{TriageReport}
use ai_oncall.Brain.Validator.{validate_report}
use ai_oncall.Brain.Triage.{PipelineInput, PipelineConfig, run}
use ai_oncall.Flow.Orchestrator.{FlowConfig, register_from_report}
use ai_oncall.Daemon.Core.{Core, store_of, on_flow, on_pipeline}
use ai_oncall.Daemon.Servicer.{labels_json}

pub record DaemonConfig : Type 0 where
  pub pipeline : PipelineConfig
  pub flow : FlowConfig

abbrev pub title_of : Option Incident → String
title_of none = ""
title_of (some inc) = inc.title

abbrev pub labels_of : Option Incident → Dict String
labels_of none = []
labels_of (some inc) = inc.labels

-- `_pipeline_input`
unfoldable pub input_for : String → Option Incident → PipelineInput
input_for i inc = record {
  incident_id = i;
  context_summary =
      dict (("title", str (title_of inc)) ∷ ("labels", labels_json (labels_of inc)) ∷ []);
  degraded_sources = [];
  rag_hits = [];
}

module _ ⦃x : Texts⦄ where
  abbrev pub decoded : Option Json → Result Json
  decoded none = err (value_error "invalid JSON")
  decoded (some v) = ok v

  abbrev pub prediction_dict : String → Prediction → Result Fields
  prediction_dict i pred = and_then (decoded (x.loads pred.hypotheses_json)) (λ hypotheses.
      and_then (decoded (x.loads pred.actions_json)) (λ actions.
        and_then (decoded (x.loads pred.missing_context_json)) (λ missing_context. ok (
          fields (
            ("incident_id", str i)
            ∷ ("hypotheses", hypotheses)
            ∷ ("suggested_actions", actions)
            ∷ ("missing_context", missing_context)
            ∷ ("prompt_version", str pred.prompt_version)
            ∷ [])))))

  unfoldable pub prediction_report : String → Prediction → Result TriageReport
  prediction_report i pred = and_then (prediction_dict i pred) (λ fs. validate_report fs none)

module _ ⦃h : Host⦄ ⦃p : Patterns⦄ ⦃x : Texts⦄ (c : DaemonConfig) where
  abbrev pub register : String → TriageReport → Exec Core (Unit {0})
  register i report = do on_flow (register_from_report c.flow i report); pure tt

  -- `_report_from_prediction` is None where anything was raised.
  abbrev pub register_if_read : String → Result TriageReport → Exec Core (Unit {0})
  register_if_read i (ok report) = register i report
  register_if_read i (err e) = pure tt

  abbrev pub register_prediction : String → Option Prediction → Exec Core (Unit {0})
  register_prediction i none = pure tt
  register_prediction i (some pred) = register_if_read i (prediction_report i pred)

  -- `run_triage` of `main`
  unfoldable pub triage_incident : String → Exec Core (Unit {0})
  triage_incident i = do
    incident ← gets (λ s. get_incident i (store_of s))
    on_pipeline (run c.pipeline (input_for i incident))
    pred ← gets (λ s. latest_prediction i (store_of s))
    register_prediction i pred

  -- Here an exception is not caught.
  abbrev pub register_again : String → Option Prediction → Exec Core (Unit {0})
  register_again i none = pure tt
  register_again i (some pred) = do report ← (λ s. (prediction_report i pred, s)); register i report

  -- `orchestrator_wrapped(store, run_triage, orchestrator)`
  unfoldable pub wrapped_triage : String → Exec Core (Unit {0})
  wrapped_triage i = do
    triage_incident i
    pred ← gets (λ s. latest_prediction i (store_of s))
    register_again i pred
