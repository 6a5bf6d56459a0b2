-- ===== src/Storage.antt =====
-- storage: tables, sessions, repositories and the unit of work.
pub mod Orm
pub mod Session
pub mod Uow
pub mod Queries
pub mod Runtime
pub mod Engine
