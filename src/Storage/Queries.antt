-- ===== src/Storage/Queries.antt =====
-- QuerySnapshotRepository of storage/repositories.py: what it writes, the read of one time, and the
-- read of several times at once.
pub mod Write
pub mod Latest
pub mod Grouping
pub mod Bulk
pub mod Boundaries
pub mod Groups
pub mod Times
pub mod Agreement
pub mod Newest
