-- ===== src/Tests.antt =====
-- Runs of the models on concrete inputs.
pub mod Data
pub mod Json
pub mod Domain
pub mod Portfolio
pub mod Risk
pub mod Events
pub mod Ingestion
pub mod Prices
pub mod Pool
pub mod Feed
pub mod Ai
pub mod Trigger
