-- ===== src/Fnv.antt =====
-- FNV-1a on 32 bits, as `hash/fnv` computes it in internal/events/trade_worker_pool.go and as
-- internal/config/config.go spells it out, for the choice of a shard and of a price partition.
use Prim.Native.Nat.{bit_xor}
use real_time_portfolio_risk.Prelude.{
  ℕ, suc, zero, ◌*◌, ◌/◌, ◌%◌, ◌^◌, nat_eq, ◌==◌, leb, List, [], ◌∷◌, length, none, some, Option,
  Str, if◌then◌else◌,
}
use real_time_portfolio_risk.Clock.{Uuid}

-- One round of the loop, on `uint32`.
abbrev pub fnv_byte : ℕ → ℕ → ℕ
fnv_byte h b = (bit_xor h b * 16777619) % 2 ^ 32

unfoldable pub fnv_from : ℕ → List ℕ → ℕ
fnv_from h [] = h
fnv_from h (b ∷ bytes) = fnv_from (fnv_byte h b) bytes

abbrev pub fnv : List ℕ → ℕ
fnv bytes = fnv_from 2166136261 bytes

-- The last `n` bytes of a UUID.
abbrev pub bytes_of : ℕ → Uuid → List ℕ
bytes_of zero pid = []
bytes_of (suc n) pid = pid / 256 ^ n % 256 ∷ bytes_of n pid

-- `workerShardFor`
unfoldable pub worker_shard_for : Uuid → ℕ → ℕ
worker_shard_for pid shard_count =
    if leb shard_count 1 then 0 else fnv (bytes_of 16 pid) % shard_count

abbrev pub nth : ℕ → List Uuid → Option Uuid
nth n [] = none
nth zero (pid ∷ pids) = some pid
nth (suc n) (pid ∷ pids) = nth n pids

-- `PricePartitionForSymbol`; `none` is its error.
unfoldable pub price_partition_for_symbol : List Uuid → Str → Option Uuid
price_partition_for_symbol partitions symbol =
    if length partitions == 0 then none else nth (fnv symbol % length partitions) partitions
