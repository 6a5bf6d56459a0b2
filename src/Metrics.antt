-- ===== src/Metrics.antt =====
-- metrics: the states that GET /metrics shows, their text, and the counters of requests.
pub mod Models
pub mod Service
pub mod Escape
pub mod Gauges
pub mod Exporter
pub mod Fallback
pub mod Requests
