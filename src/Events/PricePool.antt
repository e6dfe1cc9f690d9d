-- ===== src/Events/PricePool.antt =====
-- internal/events/price_worker_pool.go: the shards of the pool of price workers, over the
-- partitions that are configured. A price worker uses of `Memory` the cursor alone.
use real_time_portfolio_risk.Prelude.{
  ℕ, nat_eq, ◌==◌, not, List, [], ◌∷◌, none, some, Str, if◌then◌else◌,
}
use real_time_portfolio_risk.Prelude.Dict.{lookup}
use real_time_portfolio_risk.Clock.{Uuid}
use real_time_portfolio_risk.Decimal.{Decimal}
use real_time_portfolio_risk.Events.Cursor.{zero_cursor}
use real_time_portfolio_risk.Events.Worker.Monad.{Config, ok, err}
use real_time_portfolio_risk.Events.PriceWorker.{price_pump_after_cursor, price_rebuild}
use real_time_portfolio_risk.Events.Pool.{Memory, Shard, state_of, memory_of, put_back, forget}
use real_time_portfolio_risk.Fnv.{worker_shard_for}

-- The fields of `PricePool`. The settings of its workers are those of `base`, each with its own id.
pub record PricePool (D : Type 0) : Type 0 where
  pub base : Config D
  pub uuid_text : Uuid → Str
  pub worker_count : ℕ
  pub partitions : List Uuid

-- `newPricePartitionWorker`
abbrev pub new_price_partition_worker : {D : Type 0} → Memory D
new_price_partition_worker = record {
  agg = [];
  cur = zero_cursor;
  events_applied_since_snapshot = 0;
  last_snapshot_at = 0;
}

module _ {D : Type 0} ⦃d : Decimal D⦄ (pool : PricePool D) where
  abbrev pub price_config_of : Uuid → Config D
  price_config_of pid = record pool.base { pid = pid; pid_str = pool.uuid_text pid }

  -- A call of `pumpAfterCursor`, a failure of which is logged.
  unfoldable pub pump_partition : ℕ → Uuid → Memory D → Shard D → Shard D
  pump_partition fuel pid m sh =
      put_back pid (price_pump_after_cursor (price_config_of pid) fuel (state_of m sh)).1 sh

  -- A partition without a worker; a failed rebuild drops the worker.
  unfoldable pub start_price_worker : ℕ → Uuid → Shard D → Shard D
  start_price_worker fuel pid sh =
      let out = price_rebuild (price_config_of pid) fuel (state_of new_price_partition_worker sh) in
      let sh' = put_back pid out.1 sh in
      elim out.0 [ err e ↦ forget pid sh' | ok _ ↦ pump_partition fuel pid (memory_of out.1) sh' ]

  unfoldable pub visit_partition : ℕ → ℕ → Uuid → Shard D → Shard D
  visit_partition fuel shard pid sh =
      if not (worker_shard_for pid pool.worker_count == shard)
      then sh
      else elim (lookup pid sh.portfolios) [
        | none ↦ start_price_worker fuel pid sh
        | some m ↦ pump_partition fuel pid m sh
      ]

  unfoldable pub visit_partitions : ℕ → ℕ → List Uuid → Shard D → Shard D
  visit_partitions fuel shard [] sh = sh
  visit_partitions fuel shard (pid ∷ pids) sh =
      visit_partitions fuel shard pids (visit_partition fuel shard pid sh)

  -- `shardTick`, with `fuel` for every call of `pumpAfterCursor`.
  unfoldable pub price_shard_tick : ℕ → ℕ → Shard D → Shard D
  price_shard_tick fuel shard sh = visit_partitions fuel shard pool.partitions sh
