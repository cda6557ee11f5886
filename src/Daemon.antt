-- ===== src/Daemon.antt =====
-- The process: the gRPC servicer, and the wiring of the pipeline, the gate and the executor.
pub mod Core
pub mod Servicer
pub mod Wiring
pub mod Again
pub mod Filed
