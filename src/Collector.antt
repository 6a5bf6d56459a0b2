-- ===== src/Collector.antt =====
-- collector: models, repository, collection cycles, scheduler and worker.
pub mod Models
pub mod Repository
pub mod Context
pub mod Service
pub mod Jobs
pub mod Scheduler
pub mod Worker
pub mod Provider
