-- ===== src/Events/Pool/Owned.antt =====
-- A portfolio is written by one shard of the pool.
use native.Mathlib.Nat.{mod-lt}
use real_time_portfolio_risk.Prelude.{
  ℕ, ◌+◌, ◌<◌, nat_eq, ◌==◌, ==_iff, ◌≡◌, refl, sym, ap, ◌∙◌, leb, true, false, List, [], ◌∷◌, none,
  some, Option, Option-cases, Bool-cases, inl, inr, ◌⊎◌, if◌then◌else◌, arith,
}
use real_time_portfolio_risk.Prelude.Dict.{lookup}
use real_time_portfolio_risk.Clock.{Uuid}
use real_time_portfolio_risk.Decimal.{Decimal}
use real_time_portfolio_risk.Domain.Positions.{Positions}
use real_time_portfolio_risk.Portfolio.Aggregate.{Aggregate, set_portfolio_positions}
use real_time_portfolio_risk.Portfolio.Snapshot.{
  Parsed, parsed, rejected, parse_trade_positions_snapshot,
}
use real_time_portfolio_risk.Events.Cursor.{Cursor, is_zero_cursor, zero_cursor}
use real_time_portfolio_risk.Events.Store.{SnapshotRow, load_projection_cursor, fetch_all, rows_of}
use real_time_portfolio_risk.Events.Store.Untouched.{
  IsUntouched, IsUntouched-refl, IsUntouched-trans,
}
use real_time_portfolio_risk.Events.Worker.{pump_after_cursor, apply_eligible}
use real_time_portfolio_risk.Events.Worker.Monad.{
  Config, State, Result, Failure, ok, err, query, modify, pure, raise, store_failed, ◌>>=◌, ◌>>◌,
}
use real_time_portfolio_risk.Events.Worker.Rebuild.{
  rebuild, found_snapshot, load_latest_portfolio_snapshot, load_portfolio_positions_into_aggregate,
  usable_snapshot, latest_row,
}
use real_time_portfolio_risk.Events.Worker.Spares.{
  Spares, Spares-bind, Spares-query, Spares-same, Spares-if,
}
use real_time_portfolio_risk.Events.Worker.Confined.{
  pump_after_cursor-Spares, apply_eligible-Spares,
}
use real_time_portfolio_risk.Fnv.{worker_shard_for, fnv, bytes_of}
use real_time_portfolio_risk.Events.Pool.{
  Pool, Shard, Memory, state_of, memory_of, put_back, new_partition_worker, config_of,
  list_portfolio_ids_not_in, process_incremental, start_worker, visit, visit_all, shard_tick,
}

pub Result-cases :
    {A : Type 0} (r : Result A) → ((a : A) × (r ≡ ok a)) ⊎ ((e : Failure) × (r ≡ err e))
Result-cases (ok a) = inl (a, refl)
Result-cases (err e) = inr (e, refl)

module _ {D : Type 0} ⦃d : Decimal D⦄ (cfg : Config D) (j : Uuid)
    (other : (cfg.pid == j) ≡ false) where
  parsed-Spares :
      (c : Cursor) (p : Parsed (Positions D))
      → Spares {D = D} {A = Option (Cursor × Aggregate D)} j (elim p [
        | rejected e ↦ raise store_failed
        | parsed p ↦ pure (some (c, set_portfolio_positions cfg.pid_str (some p) []))
      ])
  parsed-Spares c (rejected e) = Spares-same j (raise store_failed) (λ s. refl)
  parsed-Spares c (parsed p) = Spares-same j (pure _) (λ s. refl)

  row-Spares :
      (row : Option SnapshotRow)
      → Spares {D = D} {A = Option (Cursor × Aggregate D)} j (elim row [
        | none ↦ pure none
        | some r ↦ elim (parse_trade_positions_snapshot cfg.json r.snapshot) [
          | rejected e ↦ raise store_failed
          | parsed p ↦ pure (some (r.as_of, set_portfolio_positions cfg.pid_str (some p) []))
        ]
      ])
  row-Spares none = Spares-same j (pure none) (λ s. refl)
  row-Spares (some r) = parsed-Spares r.as_of (parse_trade_positions_snapshot cfg.json r.snapshot)

  load_latest-Spares : Spares j (load_latest_portfolio_snapshot cfg)
  unfolding load_latest_portfolio_snapshot
  load_latest-Spares =
      Spares-bind j (query (λ t. latest_row cfg.pid none t.portfolio_snapshots)) _
        (Spares-query j _) row-Spares

  found_snapshot-Spares : Spares j (found_snapshot cfg)
  unfolding found_snapshot
  found_snapshot-Spares = record {
    spares = λ s. elim (Result-cases (load_latest_portfolio_snapshot cfg s).0) [
      | inl (snap, e) ↦ rw (found_snapshot, e) (load_latest-Spares.spares s)
      | inr (f, e) ↦ rw (found_snapshot, e) (load_latest-Spares.spares s)
    ];
  }

  rebuild_from-Spares :
      (fuel : ℕ) (db_cur : Cursor) (snap : Option (Cursor × Aggregate D))
      → Spares j (elim snap [
        | some (as_of, agg) ↦
            modify (λ s. record s { agg = agg; cur = as_of }) >> pump_after_cursor cfg fuel
        | none ↦
            if is_zero_cursor db_cur
            then (query (fetch_all cfg.pid) >>= apply_eligible cfg)
            else (modify (λ s. record s { cur = db_cur })
                >> (load_portfolio_positions_into_aggregate cfg >> pump_after_cursor cfg fuel))
      ])
  unfolding load_portfolio_positions_into_aggregate
  rebuild_from-Spares fuel db_cur (some (as_of, agg)) =
      Spares-bind j (modify (λ s. record s { agg = agg; cur = as_of }))
        (λ _. pump_after_cursor cfg fuel) (Spares-same j _ (λ s. refl))
        (λ _. pump_after_cursor-Spares cfg j other fuel)
  rebuild_from-Spares fuel db_cur none =
      Spares-if j (is_zero_cursor db_cur) _ _
        (Spares-bind j (query (fetch_all cfg.pid)) (apply_eligible cfg) (Spares-query j _)
          (apply_eligible-Spares cfg j other))
        (Spares-bind j (modify (λ s. record s { cur = db_cur }))
          (λ _. load_portfolio_positions_into_aggregate cfg >> pump_after_cursor cfg fuel)
          (Spares-same j _ (λ s. refl))
          (λ _.
            Spares-bind j (load_portfolio_positions_into_aggregate cfg)
              (λ _. pump_after_cursor cfg fuel)
              (Spares-bind j (query (rows_of cfg.pid)) _ (Spares-query j _)
                (λ rows. Spares-same j _ (λ s. refl)))
              (λ _. pump_after_cursor-Spares cfg j other fuel)))

  rebuild-Spares : (fuel : ℕ) → Spares j (rebuild cfg fuel)
  unfolding rebuild
  rebuild-Spares fuel =
      Spares-bind j (query (load_projection_cursor cfg.pid)) _ (Spares-query j _) (λ db_cur.
        Spares-bind j (found_snapshot cfg) _ found_snapshot-Spares (λ snap.
          Spares-bind j (modify (λ s. record s { agg = []; cur = zero_cursor })) _
            (Spares-same j _ (λ s. refl))
            (λ _. rebuild_from-Spares fuel db_cur (usable_snapshot cfg snap db_cur))))

module _ {D : Type 0} ⦃d : Decimal D⦄ (pool : Pool D) (j : Uuid) where
  pub process_incremental-IsUntouched :
      (fuel : ℕ) (pid : Uuid) (m : Memory D) (sh : Shard D)
      → (pid == j) ≡ false
      → IsUntouched j sh.tables (process_incremental pool fuel pid m sh).tables
  unfolding process_incremental
  process_incremental-IsUntouched fuel pid m sh other =
      (pump_after_cursor-Spares (config_of pool pid) j other fuel).spares (state_of m sh)

  pub start_worker-IsUntouched :
      (fuel : ℕ) (pid : Uuid) (sh : Shard D)
      → (pid == j) ≡ false
      → IsUntouched j sh.tables (start_worker pool fuel pid sh).tables
  unfolding start_worker
  start_worker-IsUntouched fuel pid sh other =
      let sh0 : Shard D = record sh { readings = sh.readings + 1 } in
      let s = state_of (new_partition_worker sh) sh0 in
      let out = rebuild (config_of pool pid) fuel s in
      let h = (rebuild-Spares (config_of pool pid) j other fuel).spares s in
      elim (Result-cases out.0) [
        | inr (f, e) ↦ rw (start_worker, e) h
        | inl (u, e) ↦
            rw (start_worker, e)
              (IsUntouched-trans j sh.tables out.1.tables _ h (
                process_incremental-IsUntouched fuel pid (memory_of out.1) (put_back pid out.1 sh)
                  other))
      ]

  true-false : true ≡ false → ⊥
  true-false e = ground arith

  visit-IsUntouched :
      (fuel shard : ℕ) (pid : Uuid) (sh : Shard D)
      → (worker_shard_for j pool.shard_count == shard) ≡ false
      → IsUntouched j sh.tables (visit pool fuel shard pid sh).tables
  unfolding visit
  visit-IsUntouched fuel shard pid sh away =
      elim (Bool-cases (worker_shard_for pid pool.shard_count == shard)) [
        | inr not_mine ↦ rw (visit, not_mine) (IsUntouched-refl j sh.tables)
        | inl mine ↦
            let other : (pid == j) ≡ false = elim (Bool-cases (pid == j)) [
              | inr e ↦ e
              | inl same ↦ absurd (
                  true-false (
                    sym mine
                    ∙ ap (λ p. worker_shard_for p pool.shard_count == shard) ((==_iff pid j).0 same)
                    ∙ away))
            ] in
            elim (Option-cases (lookup pid sh.portfolios)) [
              | inl new ↦ rw (visit, mine, new) (start_worker-IsUntouched fuel pid sh other)
              | inr (m, old) ↦
                  rw (visit, mine, old) (process_incremental-IsUntouched fuel pid m sh other)
            ]
      ]

  visit_all-IsUntouched :
      (fuel shard : ℕ) (pids : List Uuid) (sh : Shard D)
      → (worker_shard_for j pool.shard_count == shard) ≡ false
      → IsUntouched j sh.tables (visit_all pool fuel shard pids sh).tables
  unfolding visit_all
  visit_all-IsUntouched fuel shard [] sh away = IsUntouched-refl j sh.tables
  visit_all-IsUntouched fuel shard (pid ∷ pids) sh away =
      IsUntouched-trans j sh.tables (visit pool fuel shard pid sh).tables _
        (visit-IsUntouched fuel shard pid sh away)
        (visit_all-IsUntouched fuel shard pids (visit pool fuel shard pid sh) away)

  worker_shard_for-lt : (n : ℕ) → 0 < n → worker_shard_for j n < n
  unfolding worker_shard_for
  worker_shard_for-lt n pos = elim (Bool-cases (leb n 1)) [
    | inl e ↦ rw (worker_shard_for, e) pos
    | inr e ↦ rw (worker_shard_for, e) (mod-lt (fnv (bytes_of 16 j)) pos)
  ]

  -- In a pool with shards, the shard of a portfolio is one of them, and a tick of any other shard,
  -- whatever the database does with its calls and wherever its fuel ends, leaves the positions, the
  -- cursor, the dead letters and the snapshots of the portfolio as they were, and the events too.
  pub shard_tick-IsUntouched :
      (fuel shard : ℕ) (sh : Shard D)
      → 0 < pool.shard_count
      → (worker_shard_for j pool.shard_count == shard) ≡ false
      → (worker_shard_for j pool.shard_count < pool.shard_count)
        × IsUntouched j sh.tables (shard_tick pool fuel shard sh).tables
  unfolding shard_tick
  shard_tick-IsUntouched fuel shard sh pos away = (worker_shard_for-lt pool.shard_count pos, ticked)
    where
      asked : State D
      asked = state_of (new_partition_worker sh) sh

      ticked : IsUntouched j sh.tables (shard_tick pool fuel shard sh).tables
      ticked = elim (Result-cases (query (list_portfolio_ids_not_in pool) asked).0) [
        | inr (f, e) ↦ rw (shard_tick, e) (IsUntouched-refl j sh.tables)
        | inl (ids, e) ↦ rw (shard_tick, e) (visit_all-IsUntouched fuel shard ids _ away)
      ]
