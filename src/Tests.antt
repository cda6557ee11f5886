-- ===== src/Tests.antt =====
-- The theorems at concrete inputs.
mod Fixture
mod Chain
mod Lifecycle
mod Alerts
mod Limits
mod Approvals
mod Execution
mod Records
mod Decisions
mod Reports
mod Triage
mod Daemon
mod ReadApi
