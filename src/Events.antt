-- ===== src/Events.antt =====
-- `internal/events`: the event store, the ordering of events and the apply workers.
pub mod Verdict
pub mod Cursor
pub mod Eligible
pub mod Store
pub mod Worker
pub mod Pool
pub mod RiskTrigger
pub mod PricePool
pub mod PriceWorker
