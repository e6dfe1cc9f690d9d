-- ===== src/Events/Pool/Routed.antt =====
-- The partition of a price event is one that the pool of trade workers leaves alone.
use native.Mathlib.Nat.{mod-lt}
use real_time_portfolio_risk.Prelude.{
  ℕ, suc, zero, ◌<◌, ◌%◌, nat_eq, ◌==◌, ==_iff, ◌≡◌, refl, true, false, List, [], ◌∷◌, length, some,
  Str, Option-cases, Bool-cases, inl, inr, arith,
}
use mathlib.Core.Path.{subst}
use real_time_portfolio_risk.Events.Verdict.{Verdict-cases}
use real_time_portfolio_risk.Prelude.Dict.{lookup}
use real_time_portfolio_risk.Clock.{Uuid}
use real_time_portfolio_risk.Decimal.{Decimal}
use real_time_portfolio_risk.Events.Store.{EventRow, Tables}
use real_time_portfolio_risk.Events.Store.Untouched.{
  IsUntouched, IsUntouched-refl, IsUntouched-trans,
}
use real_time_portfolio_risk.Events.Worker.Monad.{State, next_verdict, ok, query}
use real_time_portfolio_risk.Events.Pool.{
  Pool, Shard, state_of, new_partition_worker, has_id, distinct_ids, list_portfolio_ids_not_in,
  visit, visit_all, shard_tick,
}
use real_time_portfolio_risk.Events.Pool.Owned.{
  Result-cases, start_worker-IsUntouched, process_incremental-IsUntouched,
}
use real_time_portfolio_risk.Fnv.{fnv, nth, price_partition_for_symbol, worker_shard_for}

nth-has_id :
    (n : ℕ) (pids : List Uuid)
    → n < length pids
    → (pid : Uuid) × (nth n pids ≡ some pid) × (has_id pid pids ≡ true)
nth-has_id n [] h = absurd (omega (arith, h))
nth-has_id zero (p ∷ pids) h = (p, refl, ground (arith, (==_iff p p).1 refl))
nth-has_id (suc n) (p ∷ pids) h =
    let (pid, at, there) = nth-has_id n pids (omega (arith, h)) in (pid, at, ground (arith, there))

-- An excluded id is not listed.
distinct_ids-excluded :
    (j : Uuid) (exclude : List Uuid) (rows : List EventRow)
    → has_id j exclude ≡ true
    → has_id j (distinct_ids exclude rows) ≡ false
distinct_ids-excluded j exclude [] h = refl
distinct_ids-excluded j exclude (row ∷ rows) h =
    ground (arith, distinct_ids-excluded j exclude rows h, ==_iff row.partition j)

answered :
    {D A : Type 0} (f : Tables D → A) (s : State D) (a : A) → (query f s).0 ≡ ok a → f s.tables ≡ a
unfolding query
answered f s a e = elim (Verdict-cases (next_verdict s.verdicts)) [
  | inl v ↦ ground (arith, rw (query, v) at e)
  | inr (inl v) ↦ absurd (ground (arith, rw (query, v) at e))
  | inr (inr v) ↦ absurd (ground (arith, rw (query, v) at e))
]

module _ {D : Type 0} ⦃d : Decimal D⦄ (pool : Pool D) where
  visit-IsUntouched_other :
      (j : Uuid) (fuel shard : ℕ) (pid : Uuid) (sh : Shard D)
      → (pid == j) ≡ false
      → IsUntouched j sh.tables (visit pool fuel shard pid sh).tables
  unfolding visit
  visit-IsUntouched_other j fuel shard pid sh other =
      elim (Bool-cases (worker_shard_for pid pool.shard_count == shard)) [
        | inr not_mine ↦ rw (visit, not_mine) (IsUntouched-refl j sh.tables)
        | inl mine ↦ elim (Option-cases (lookup pid sh.portfolios)) [
          | inl new ↦ rw (visit, mine, new) (start_worker-IsUntouched pool j fuel pid sh other)
          | inr (m, old) ↦
              rw (visit, mine, old) (process_incremental-IsUntouched pool j fuel pid m sh other)
        ]
      ]

  visit_all-IsUntouched_other :
      (j : Uuid) (fuel shard : ℕ) (pids : List Uuid) (sh : Shard D)
      → has_id j pids ≡ false
      → IsUntouched j sh.tables (visit_all pool fuel shard pids sh).tables
  unfolding visit_all
  visit_all-IsUntouched_other j fuel shard [] sh h = IsUntouched-refl j sh.tables
  visit_all-IsUntouched_other j fuel shard (pid ∷ pids) sh h =
      let sh' = visit pool fuel shard pid sh in
      IsUntouched-trans j sh.tables sh'.tables _
        (visit-IsUntouched_other j fuel shard pid sh (ground (arith, h)))
        (visit_all-IsUntouched_other j fuel shard pids sh' (ground (arith, h)))

  -- Where the partitions that a pool of trade workers excludes are those that price events are
  -- routed to, and there is one: every symbol has a partition, one of these, and no tick of any
  -- shard of the pool, whatever the database does, changes what is stored for it.
  pub price_partition-IsUntouched :
      (symbol : Str) (fuel shard : ℕ) (sh : Shard D)
      → (length pool.exclude_price_partitions == 0) ≡ false
      → (pid : Uuid) × (price_partition_for_symbol pool.exclude_price_partitions symbol ≡ some pid)
        × (has_id pid pool.exclude_price_partitions ≡ true)
        × IsUntouched pid sh.tables (shard_tick pool fuel shard sh).tables
  unfolding shard_tick price_partition_for_symbol
  price_partition-IsUntouched symbol fuel shard sh some_there =
      let n = length pool.exclude_price_partitions in
      let (pid, at, there) =
        nth-has_id (fnv symbol % n) pool.exclude_price_partitions
          (mod-lt (fnv symbol) (ground (arith, some_there))) in
      (pid, rw (price_partition_for_symbol, some_there) at, there, ticked pid there)
    where
      asked : State D
      asked = state_of (new_partition_worker sh) sh

      ticked :
          (pid : Uuid)
          → has_id pid pool.exclude_price_partitions ≡ true
          → IsUntouched pid sh.tables (shard_tick pool fuel shard sh).tables
      ticked pid there = elim (Result-cases (query (list_portfolio_ids_not_in pool) asked).0) [
        | inr (f, e) ↦ rw (shard_tick, e) (IsUntouched-refl pid sh.tables)
        | inl (ids, e) ↦
            rw (shard_tick, e)
              (visit_all-IsUntouched_other pid fuel shard ids _ (
                subst (λ l. has_id pid l ≡ false)
                  (answered (list_portfolio_ids_not_in pool) asked ids e)
                  (distinct_ids-excluded pid pool.exclude_price_partitions sh.tables.events there)))
      ]
