-- ===== src/Executor.antt =====
-- core/src/oncall_core/executor: the one component that touches production.
pub mod Report
pub mod Redact
pub mod Runner
