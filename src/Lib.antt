-- ===== src/Lib.antt =====
-- A real-time portfolio risk engine: trades and prices arrive as events, are stored, applied in
-- order to positions by one worker for each portfolio, and read as views.
--
-- The parts, and the files that model them (paths from the repository's root):
--   Domain      internal/domain: events and payloads with their validators (Domain/Types,
--               Domain/Validation), positions as lots (Domain/Positions). `ApplyTrade` is
--               apply_trade, its two branches apply_buy and apply_sell.
--   Portfolio   internal/portfolio: the aggregate of positions by portfolio key
--               (Portfolio/Aggregate, `ApplyEvent` is apply_event) and the snapshots of a
--               portfolio's positions (Portfolio/Snapshot), and the read model of view.go
--               (Portfolio/View, `AssemblePortfolioView` is assemble_portfolio_view).
--   Scenario    internal/scenario/core.go: shocks on the marks of a view (`Eval` is eval).
--   Risk        internal/risk/engine.go: exposures, weights, concentration and value at risk
--               (`BuildSnapshot` is build_snapshot).
--   Events      internal/events: the order of events (Events/Cursor), the ordering watermark
--               (Events/Eligible), the tables that the workers use, as in postgres.go
--               (Events/Store), and the worker of a partition (Events/Worker), whose loop over a
--               page, `applyEligible`, is apply_eligible. How a worker starts is in
--               Events/Worker/Rebuild. `Append` with its unique keys is Events/Store/Append, the
--               price batch with its daily returns Events/Store/Prices, and the worker of a price
--               partition Events/PriceWorker (`applyPriceEligible` is apply_price_eligible).
--               The pools of workers, by shards, are Events/Pool (`shardTick` is shard_tick) and
--               Events/PricePool, and the hash that chooses a shard or a price partition is Fnv
--               (`PricePartitionForSymbol` of internal/config/config.go is
--               price_partition_for_symbol). The scheduler of risk computations is the step
--               relation of Events/RiskTrigger.
--   Ingestion   internal/ingestion: service.go validates an event and hands it to the store
--               (`Ingest` is ingest).
--   PriceFeed   internal/ingestion/pricefeed and internal/pricesource: the watchlist and symbols
--               (PriceFeed/Symbols), the fetch with retries and failover (PriceFeed/Fetch), the
--               emission of a quote (PriceFeed/Emit, `emitQuote` is emit_quote), and a tick with
--               its tracker (PriceFeed/Tick, `runTick` is run_tick).
--   Ai          internal/ai: the checks of a model's text (Ai/Tickers, Ai/Validator), the metrics
--               that are filled in (Ai/Metrics) and what becomes of a reply (Ai/Explain).
--   Tests       runs on concrete inputs.
-- A worker takes the events after its cursor, at most a page of 200, lets through what the
-- watermark allows, applies each to the aggregate, and writes the changed lots and the new cursor in
-- one transaction; an oversell and a stale event become dead letters.
--
-- How the code is modelled:
--   * Prelude and Clock: a Go string is its list of bytes, a map is an association list, a UUID is a
--     number, and a time is the number of nanoseconds since the least time.Time.
--   * Decimal: the decimal library is a parameter, an instance of `Decimal` with its laws as the
--     hypothesis `IsDecimal`; the integers meet them. `none` from a division is its panic.
--   * Binary floating point, in the risk engine's variance, is the parameter `Float64`, and its
--     decimal constants are the parameter `Constants`.
--   * JSON decoding is a parameter as well (`Codec`, `SnapshotJson`).
--   * The database is the record `Tables`. Each call takes the next of a list of verdicts: it
--     answers, it rolls back, or it commits and the answer is lost; an empty list answers always.
--     A value with too many digits for its NUMERIC column fails the batch of prices; in a batch of
--     trades it is one of the causes for which a call rolls back, so a theorem in which every call
--     answers supposes that the lots fit their columns.
--   * What a JSONB column makes of a text is a parameter, with no law.
--   * A worker is a state, and its methods are actions on it that may fail (Events/Worker/Monad).
--     The clock is a function of the number of readings taken.
--   * A provider of prices is a function of the number of calls made, as are the cancelled sleeps
--     and the UUIDs drawn. The changes of case and the trimming of a text are those of ASCII.
--   * A regular expression is a function that decides its matches.
--   * Loops over a slice are recursion on a list. `pumpAfterCursor` runs on fuel and says when the
--     fuel is out; for a trade partition more rounds than events after the cursor are enough.
--
-- Not modelled: logs and metrics; an empty map entry that reading a lot of an unknown key leaves,
-- which no operation shows; the HTTP layer, the web client, the migrations, and the clients of
-- outside services.
pub mod Prelude
pub mod Decimal
pub mod Clock
pub mod Domain
pub mod Portfolio
pub mod Events
pub mod Fnv
pub mod Tests
pub mod Scenario
pub mod Risk
pub mod Ingestion
pub mod PriceFeed
pub mod Ai
