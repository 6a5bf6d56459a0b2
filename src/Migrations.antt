-- ===== src/Migrations.antt =====
-- src/alembic: the revisions of the schema of the storage database.
pub mod Schema
pub mod Revisions
pub mod Names
pub mod Alter
pub mod Undo
pub mod Declared
