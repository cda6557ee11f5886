-- ===== src/Memory.antt =====
-- core/src/oncall_core/redact.py and memory: secrets are masked, and texts go to the knowledge base.
pub mod Redact
pub mod Indexer
