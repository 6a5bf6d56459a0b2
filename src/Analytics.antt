-- ===== src/Analytics.antt =====
-- query_analytics: deltas between two snapshots, ranking, and the service.
pub mod Models
pub mod Delta
pub mod Window
pub mod Ranking
pub mod Service
