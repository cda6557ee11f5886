-- ===== src/Flow.antt =====
-- approval_flow.py: from a report to an approval request, and from the decision to the execution.
pub mod Report
pub mod Orchestrator
pub mod Commands
pub mod Execution
pub mod Submitting
pub mod Registration
pub mod Registered
pub mod RoundTrip
