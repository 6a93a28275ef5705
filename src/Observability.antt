-- ===== src/Observability.antt =====
-- observability: the counters of signing requests and their endpoint, and the tracing of requests.
pub mod Registry
pub mod Metrics
pub mod Tracing
pub mod Endpoint
