-- ===== src/Tests/Pool.antt =====
-- Two shards over a portfolio with an event, and a price partition.
use real_time_portfolio_risk.Prelude.{
  codes, ◌<◌, nat_eq, ◌==◌, ◌∷◌, [], ◌≡◌, refl, true, false, some, arith,
}
use real_time_portfolio_risk.Prelude.Int.{ℤ}
use real_time_portfolio_risk.Clock.{Uuid}
use real_time_portfolio_risk.Decimal.Integers.{integers}
use real_time_portfolio_risk.Events.Store.Untouched.{IsUntouched}
use real_time_portfolio_risk.Events.Pool.{Pool, Shard, has_id, shard_tick}
use real_time_portfolio_risk.Events.Pool.Owned.{shard_tick-IsUntouched}
use real_time_portfolio_risk.Events.Pool.Routed.{price_partition-IsUntouched}
use real_time_portfolio_risk.Fnv.{worker_shard_for, fnv_from, price_partition_for_symbol}
use real_time_portfolio_risk.Tests.Data.{bought_event, sold_event}
use real_time_portfolio_risk.Tests.Prices.{cfg, no_tables}

abbrev pool : Pool ℤ
pool = record {
  base = cfg;
  uuid_text = λ pid. codes "7";
  shard_count = 2;
  exclude_price_partitions = 9 ∷ [];
}

abbrev shard : Shard ℤ
shard = record {
  portfolios = [];
  tables = record no_tables {
    events =
        record { partition = 7; event = bought_event }
        ∷ record { partition = 8; event = sold_event }
        ∷ [];
  };
  verdicts = [];
  clock = λ n. n;
  readings = 0;
  scheduled = [];
}

away : (worker_shard_for 7 2 == 1) ≡ false
unfolding worker_shard_for fnv_from
away = refl

shard_tick-IsUntouched_example :
    (worker_shard_for 7 2 < 2) × IsUntouched 7 shard.tables (shard_tick pool 5 1 shard).tables
shard_tick-IsUntouched_example = shard_tick-IsUntouched pool 7 5 1 shard (omega arith) away

price_partition-IsUntouched_example :
    (pid : Uuid) × (price_partition_for_symbol (9 ∷ []) (codes "ACME") ≡ some pid)
    × (has_id pid (9 ∷ []) ≡ true)
    × IsUntouched pid shard.tables (shard_tick pool 5 0 shard).tables
price_partition-IsUntouched_example = price_partition-IsUntouched pool (codes "ACME") 5 0 shard refl
