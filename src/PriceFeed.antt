-- ===== src/PriceFeed.antt =====
-- internal/ingestion/pricefeed/runner.go and internal/pricesource: quotes are fetched from
-- providers, with retries and failover, and emitted as price events.
pub mod Symbols
pub mod Fetch
pub mod Emit
pub mod Tick
