-- ===== src/Daemon/Core.antt =====
-- The objects that __main__.py makes: the store, the gate and the executor of the flow, and the pipeline.
use ai_oncall.Prelude.{String, List}
use ai_oncall.Python.Exec.{Exec}
use ai_oncall.Store.Schema.{Store}
use ai_oncall.Brain.Budget.{BudgetLedger}
use ai_oncall.Brain.Providers.Chain.{ProviderChain}
use ai_oncall.Brain.Triage.{Pipeline}
use ai_oncall.Flow.Orchestrator.{Flow}

pub record Core : Type 0 where
  pub flow : Flow
  pub chain : ProviderChain
  pub ledger : BudgetLedger
  pub files : List (String × String)

-- The store, which all of them share.
abbrev pub store_of : Core → Store
store_of c = c.flow.gate.store

abbrev pub with_store : Store → Core → Core
with_store s c = record c { flow = record c.flow { gate = record c.flow.gate { store = s } } }

abbrev pub on_core_store : {A : Type 0} → Exec Store A → Exec Core A
on_core_store m c = let r = m (store_of c) in (r.0, with_store r.1 c)

abbrev pub on_flow : {A : Type 0} → Exec Flow A → Exec Core A
on_flow m c = let r = m c.flow in (r.0, record c { flow = r.1 })

abbrev pub pipeline_of : Core → Pipeline
pipeline_of c = record { store = store_of c; chain = c.chain; ledger = c.ledger; files = c.files }

abbrev pub with_pipeline : Pipeline → Core → Core
with_pipeline p c = record (with_store p.store c) {
  chain = p.chain;
  ledger = p.ledger;
  files = p.files;
}

abbrev pub on_pipeline : {A : Type 0} → Exec Pipeline A → Exec Core A
on_pipeline m c = let r = m (pipeline_of c) in (r.0, with_pipeline r.1 c)
