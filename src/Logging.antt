-- ===== src/Logging.antt =====
-- The formatter of log entries, logging/structured.py.
pub mod Masking
pub mod Structured
