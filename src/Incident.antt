-- ===== src/Incident.antt =====
-- core/src/oncall_core/incident: the hash chain over the timeline, the status machine and the
-- aggregation of alerts.
pub mod HashChain
pub mod Machine
pub mod Correlate
