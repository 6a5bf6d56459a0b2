-- ===== src/Storage/Runtime.antt =====
-- RuntimeSnapshotRepository of storage/repositories.py: writes and reads.
pub mod Upserts
pub mod Write
pub mod Read
