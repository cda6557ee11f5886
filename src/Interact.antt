-- ===== src/Interact.antt =====
-- core/src/oncall_core/interact and schedule: who may decide, and whom the gate escalates to.
pub mod Roster
pub mod Router
