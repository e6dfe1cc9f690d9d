-- ===== src/Domain.antt =====
-- `internal/domain`: payloads, validation and long-only positions.
pub mod Types
pub mod Validation
pub mod Positions
