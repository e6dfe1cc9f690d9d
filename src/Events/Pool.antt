-- ===== src/Events/Pool.antt =====
-- internal/events/trade_worker_pool.go: the shards of the pool of trade workers. Each shard keeps
-- the workers of its portfolios in a map, and a tick goes through the portfolios that have events.
pub mod Owned
pub mod Routed
use real_time_portfolio_risk.Prelude.{
  ℕ, ◌+◌, nat_eq, ◌==◌, not, Bool, true, false, List, [], ◌∷◌, ◌++◌, length, none, some, Option,
  Str, if◌then◌else◌,
}
use real_time_portfolio_risk.Prelude.Dict.{Dict, lookup, insert, erase}
use real_time_portfolio_risk.Clock.{Time, Uuid}
use real_time_portfolio_risk.Decimal.{Decimal}
use real_time_portfolio_risk.Portfolio.Aggregate.{Aggregate}
use real_time_portfolio_risk.Events.Verdict.{Verdict}
use real_time_portfolio_risk.Events.Cursor.{Cursor, zero_cursor}
use real_time_portfolio_risk.Events.Store.{Tables, EventRow}
use real_time_portfolio_risk.Events.Worker.{pump_after_cursor}
use real_time_portfolio_risk.Events.Worker.Monad.{Config, State, Action, Result, ok, err, query}
use real_time_portfolio_risk.Events.Worker.Rebuild.{rebuild}
use real_time_portfolio_risk.Fnv.{worker_shard_for}

abbrev pub has_id : Uuid → List Uuid → Bool
has_id pid [] = false
has_id pid (p ∷ pids) = if p == pid then true else has_id pid pids

-- `SELECT DISTINCT portfolio_id FROM events WHERE NOT (portfolio_id = ANY(exclude))`
abbrev pub distinct_ids : List Uuid → List EventRow → List Uuid
distinct_ids exclude [] = []
distinct_ids exclude (row ∷ rows) =
    let rest = distinct_ids exclude rows in
    if has_id row.partition exclude
    then rest
    else if has_id row.partition rest
    then rest
    else row.partition ∷ rest

-- The fields of a `partitionWorker` that change.
pub record Memory (D : Type 0) : Type 0 where
  pub agg : Aggregate D
  pub cur : Cursor
  pub events_applied_since_snapshot : ℕ
  pub last_snapshot_at : Time

-- The fields of `Worker`. The settings of its workers are those of `base`, each with its own id.
pub record Pool (D : Type 0) : Type 0 where
  pub base : Config D
  pub uuid_text : Uuid → Str
  pub shard_count : ℕ
  pub exclude_price_partitions : List Uuid

-- The map of a shard, with the rest of the world.
pub record Shard (D : Type 0) : Type 0 where
  pub portfolios : Dict Uuid (Memory D)
  pub tables : Tables D
  pub verdicts : List Verdict
  pub clock : ℕ → Time
  pub readings : ℕ
  pub scheduled : List Uuid

module _ {D : Type 0} where
  -- The state of a worker in a shard.
  abbrev pub state_of : Memory D → Shard D → State D
  state_of m sh = record {
    agg = m.agg;
    cur = m.cur;
    events_applied_since_snapshot = m.events_applied_since_snapshot;
    last_snapshot_at = m.last_snapshot_at;
    tables = sh.tables;
    verdicts = sh.verdicts;
    clock = sh.clock;
    readings = sh.readings;
    scheduled = sh.scheduled;
  }

  abbrev pub memory_of : State D → Memory D
  memory_of s = record {
    agg = s.agg;
    cur = s.cur;
    events_applied_since_snapshot = s.events_applied_since_snapshot;
    last_snapshot_at = s.last_snapshot_at;
  }

  -- The shard after a worker's call; the map holds the worker by reference.
  abbrev pub put_back : Uuid → State D → Shard D → Shard D
  put_back pid s sh = record {
    portfolios = insert pid (memory_of s) sh.portfolios;
    tables = s.tables;
    verdicts = s.verdicts;
    clock = sh.clock;
    readings = s.readings;
    scheduled = s.scheduled;
  }

  abbrev pub forget : Uuid → Shard D → Shard D
  forget pid sh = record sh { portfolios = erase pid sh.portfolios }

  -- `newPartitionWorker`
  abbrev pub new_partition_worker : Shard D → Memory D
  new_partition_worker sh = record {
    agg = [];
    cur = zero_cursor;
    events_applied_since_snapshot = 0;
    last_snapshot_at = sh.clock sh.readings;
  }

module _ {D : Type 0} ⦃d : Decimal D⦄ (pool : Pool D) where
  abbrev pub config_of : Uuid → Config D
  config_of pid = record pool.base { pid = pid; pid_str = pool.uuid_text pid }

  -- `ListPortfolioIDsNotIn`
  abbrev pub list_portfolio_ids_not_in : Tables D → List Uuid
  list_portfolio_ids_not_in t = distinct_ids pool.exclude_price_partitions t.events

  -- `processIncremental`, a failure of which is logged.
  unfoldable pub process_incremental : ℕ → Uuid → Memory D → Shard D → Shard D
  process_incremental fuel pid m sh =
      put_back pid (pump_after_cursor (config_of pid) fuel (state_of m sh)).1 sh

  -- A portfolio that the shard has no worker for; a failed rebuild drops the worker.
  unfoldable pub start_worker : ℕ → Uuid → Shard D → Shard D
  start_worker fuel pid sh =
      let m = new_partition_worker sh in
      let out =
        rebuild (config_of pid) fuel (state_of m (record sh { readings = sh.readings + 1 })) in
      let sh' = put_back pid out.1 sh in
      elim out.0 [
        | err e ↦ forget pid sh'
        | ok _ ↦ process_incremental fuel pid (memory_of out.1) sh'
      ]

  unfoldable pub visit : ℕ → ℕ → Uuid → Shard D → Shard D
  visit fuel shard pid sh =
      if not (worker_shard_for pid pool.shard_count == shard)
      then sh
      else elim (lookup pid sh.portfolios) [
        | none ↦ start_worker fuel pid sh
        | some m ↦ process_incremental fuel pid m sh
      ]

  unfoldable pub visit_all : ℕ → ℕ → List Uuid → Shard D → Shard D
  visit_all fuel shard [] sh = sh
  visit_all fuel shard (pid ∷ pids) sh = visit_all fuel shard pids (visit fuel shard pid sh)

  -- `shardTick`, with `fuel` for every call of `pumpAfterCursor`.
  unfoldable pub shard_tick : ℕ → ℕ → Shard D → Shard D
  shard_tick fuel shard sh =
      let out = query list_portfolio_ids_not_in (state_of (new_partition_worker sh) sh) in
      let sh' = record sh { verdicts = out.1.verdicts } in
      elim out.0 [ err e ↦ sh' | ok ids ↦ visit_all fuel shard ids sh' ]
