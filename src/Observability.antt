-- ===== src/Observability.antt =====
-- src/observability: the trace context that a request carries.
pub mod Trace
