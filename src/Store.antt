-- ===== src/Store.antt =====
-- core/src/oncall_core/store.py: the SQLite store. The tables are lists of rows in the order of
-- their insertion; a statement that violates a constraint raises and changes nothing.
pub mod Schema
pub mod Rows
pub mod Records
pub mod Creation
pub mod Incidents
pub mod Timeline
pub mod Actions
pub mod Approvals
