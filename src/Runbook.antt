-- ===== src/Runbook.antt =====
-- core/src/oncall_core/runbook: runbooks and the approval of their steps.
pub mod Model
pub mod Parse
pub mod Approval
