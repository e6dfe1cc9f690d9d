-- ===== src/Portfolio.antt =====
-- `internal/portfolio`: positions by portfolio, snapshots of them, and the read model.
pub mod Aggregate
pub mod Snapshot
pub mod View
