-- ===== src/Config.antt =====
-- config: where the settings come from, how they are validated, and how they are loaded.
pub mod Sources
pub mod Settings
pub mod Load
pub mod Start
