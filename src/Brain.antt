-- ===== src/Brain.antt =====
-- core/src/oncall_core/brain: the budget of an incident, the circuit breaker and the fallback chain of
-- the LLM providers.
pub mod Budget
pub mod Providers
pub mod Triage
pub mod Validator
