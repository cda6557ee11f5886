-- ===== src/Lib.antt =====
-- The core of ai-oncall: an alert becomes an incident, the incident is triaged by a language model, a
-- mutating action that the triage suggests waits for a human approval, and the executor runs it. Every
-- step leaves an event in the incident's timeline, whose events are linked by hashes.
--
-- The files, and the code that each models (paths from core/src/oncall_core):
-- - Store (Schema, Incidents, Timeline, Actions, Approvals, Records): store.py. The database is a record of
--   tables, a table a list of rows in the order of insertion; each method of the class Store is the
--   function of its name. The unique indexes and the foreign key of `timeline` are checks that raise
--   IntegrityError. Rows and Creation hold lemmas.
-- - Incident.HashChain: incident/hashchain.py, with `append` and `verify` as there.
-- - Incident.Machine: incident/machine.py; Incident.Correlate: incident/correlate.py.
-- - Brain.Budget: brain/budget.py; Brain.Providers.Circuit: brain/providers/circuit.py;
--   Brain.Providers.Chain: brain/providers/base.py and chain.py.
-- - Memory.Redact: redact.py; Memory.Indexer: memory/indexer.py.
-- - Runbook.Model, Runbook.Parse: runbook/parse.py; Runbook.Approval: runbook/approval.py.
-- - Brain.Validator: brain/schema_validator.py, with `validate_report` and `extract_json_object` as there;
--   its children Sound and Contract are about a report that is accepted. Brain.Triage:
--   brain/triage.py, where the state of the pipeline is the store, the chain of providers, the ledger of
--   the budgets and the files written; Triage.Shadow is the text of a shadow report.
-- - Flow.Orchestrator, Flow.Report: approval_flow.py, where the state is that of the gate with the commands
--   run and the messages delivered; the other files of Flow hold the theorems on it.
-- - Evalkit: evalkit/__init__.py. Daemon.Servicer: grpc_servicer.py; Daemon.Wiring: the triage of a new
--   incident in __main__.py, on the objects of Daemon.Core. ReadApi: readapi/__init__.py, `do_GET` with
--   its routes, to what the body is made of. Postmortem: postmortem/writer.py, where
--   git is the record Repo.
-- - Executor.Report: the dataclasses of brain/schema_validator.py; Executor.Redact: executor/redact.py;
--   Executor.Runner: executor/runner.py.
-- - Interact.Roster: schedule/__init__.py; Interact.Router: interact/__init__.py; Shadow:
--   shadow/__init__.py.
-- - Prelude, Python: lists, dicts, texts, JSON values, exceptions, and methods that change an object and
--   may raise: `Exec S A` takes the object and gives a result or an exception, with the object after it.
--   Preserves and Ensures say what such a method keeps of its object and what its value satisfies.
-- - Tests: the theorems at concrete inputs.
--
-- How they interact: the correlation, the state machine, the gate and the executor all write to the store
-- by `HashChain.append`; the gate's on_approve writes the event `approval_granted`, and the executor looks
-- for that event before it runs a mutating action. The servicer creates an incident for
-- a new alert and starts its triage. The pipeline asks the providers within the budget, checks
-- the answer and saves the report; the orchestrator registers a report at the gate, keeps its JSON text in
-- the store, and hands the report that it reads back to the executor when the request is approved.
--
-- Outside of the program, and parameters of the definitions: the clock, the random digits, SHA-256 and
-- the JSON encoder (Python.Host), the methods of
-- `str`, the numbers' formats, `re.match` and `json.loads` (Python.Texts), the regular expressions (Memory.Redact.Patterns), the embedding
-- provider, the replies of the language model (Brain.Providers.Chain.Outside), the notifier and the
-- escalation chain of the gate (GateConfig), the writing of a file (PipelineConfig), git (Postmortem.Repo), the parsing of
-- an HTTP request (ReadApi.Requests) and the command runner (Executor.Runner.Production).
--
-- Choices: a time is a whole number of the clock's smallest units, and the readings of the clock are
-- numbered in the order in which they are taken; those of the circuit breaker are arguments instead. A
-- finite float is its sign and its size in units of 2 ^ -1074, of which every double is a multiple. The
-- message of an exception is shortened where it only repeats numbers or names. Rows that SQL may return in
-- any order, where the sort key is equal, are in the order of insertion. Every loop runs over a list and
-- is structural recursion, so that no fuel is needed. Log lines are left out, since nothing reads them.
--
-- Not modelled: threads and locks (each method is one step), the audit files of the executor, the gRPC
-- and HTTP servers (of the read API, the routes are modelled), the web pages, the draft of a postmortem,
-- the embeddings' arithmetic and the parsers of YAML and ICS.
pub mod Prelude
pub mod Python
pub mod Store
pub mod Incident
pub mod Brain
pub mod Memory
pub mod Runbook
pub mod Executor
pub mod Flow
pub mod Evalkit
pub mod Daemon
pub mod ReadApi
pub mod Postmortem
pub mod Interact
pub mod Shadow
pub mod Tests
