-- ===== src/Brain/Providers.antt =====
-- brain/providers: the circuit breaker and the chain of providers that stand in for one another.
pub mod Circuit
pub mod Chain
