-- ===== src/Examples.antt =====
-- Runs of the model at concrete data, for the code of each part of the program.
pub mod Data
mod Analytics
mod Storage
mod Collector
mod Logging
mod Metrics
mod Api
mod Config
mod Migrations
