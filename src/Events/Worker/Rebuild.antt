-- ===== src/Events/Worker/Rebuild.antt =====
-- internal/events/trade_portfolio_apply.go: how a worker starts, from the latest snapshot, from the
-- stored positions or from all events. A numeric column gives back the value that it holds.
use real_time_portfolio_risk.Prelude.{
  ℕ, nat_eq, ◌==◌, ◌||◌, List, [], ◌∷◌, none, some, Option, if◌then◌else◌,
}
use Prim.Native.Nat.{lt}
use real_time_portfolio_risk.Clock.{Uuid}
use real_time_portfolio_risk.Decimal.{Decimal}
use real_time_portfolio_risk.Domain.Positions.{positions_from_lots}
use real_time_portfolio_risk.Portfolio.Aggregate.{Aggregate, set_portfolio_positions}
use real_time_portfolio_risk.Portfolio.Snapshot.{parsed, rejected, parse_trade_positions_snapshot}
use real_time_portfolio_risk.Events.Cursor.{
  Cursor, zero_cursor, is_zero_cursor, compare_cursors, is_same,
}
use real_time_portfolio_risk.Events.Store.{SnapshotRow, rows_of, fetch_all, load_projection_cursor}
use real_time_portfolio_risk.Events.Worker.{apply_eligible, pump_after_cursor}
use real_time_portfolio_risk.Events.Worker.Monad.{
  Config, Action, ok, err, store_failed, pure, raise, ◌>>=◌, ◌>>◌, modify, query,
}

-- The row of a portfolio with the greatest cursor.
unfoldable pub latest_row : Uuid → Option SnapshotRow → List SnapshotRow → Option SnapshotRow
latest_row pid best [] = best
latest_row pid best (row ∷ rows) =
    latest_row pid
      (if row.partition == pid
        then elim best [
          | none ↦ some row
          | some b ↦ elim (compare_cursors b.as_of row.as_of) [ lt ↦ some row | _ ↦ some b ]
        ]
        else best)
      rows

module _ {D : Type 0} ⦃d : Decimal D⦄ (cfg : Config D) where
  -- `LoadLatestPortfolioSnapshot`
  unfoldable pub load_latest_portfolio_snapshot : Action D (Option (Cursor × Aggregate D))
  load_latest_portfolio_snapshot = do
    row ← query (λ t. latest_row cfg.pid none t.portfolio_snapshots)
    elim row [
      | none ↦ pure none
      | some r ↦ elim (parse_trade_positions_snapshot cfg.json r.snapshot) [
        | rejected e ↦ raise store_failed
        | parsed p ↦ pure (some (r.as_of, set_portfolio_positions cfg.pid_str (some p) []))
      ]
    ]

  -- A failure to load the snapshot is logged, and the worker goes on without one.
  unfoldable pub found_snapshot : Action D (Option (Cursor × Aggregate D))
  found_snapshot s =
      let out = load_latest_portfolio_snapshot s in
      elim out.0 [ ok snap ↦ (ok snap, out.1) | err e ↦ (ok none, out.1) ]

  -- `LoadPortfolioPositionsIntoAggregate`
  unfoldable pub load_portfolio_positions_into_aggregate : Action D (Unit {0})
  load_portfolio_positions_into_aggregate = do
    rows ← query (rows_of cfg.pid)
    modify (λ s. record s {
      agg = set_portfolio_positions cfg.pid_str (some (positions_from_lots rows)) s.agg;
    })

  -- The snapshot, where its cursor is set and is the stored one, if that is set.
  unfoldable pub usable_snapshot :
      Option (Cursor × Aggregate D) → Cursor → Option (Cursor × Aggregate D)
  usable_snapshot none db_cur = none
  usable_snapshot (some (as_of, agg)) db_cur =
      if is_zero_cursor as_of
      then none
      else if is_zero_cursor db_cur || is_same (compare_cursors as_of db_cur)
      then some (as_of, agg)
      else none

  unfoldable pub rebuild : ℕ → Action D (Unit {0})
  rebuild fuel = do
    db_cur ← query (load_projection_cursor cfg.pid)
    snap ← found_snapshot
    modify (λ s. record s { agg = []; cur = zero_cursor })
    elim (usable_snapshot snap db_cur) [
      | some (as_of, agg) ↦
          modify (λ s. record s { agg = agg; cur = as_of }) >> pump_after_cursor cfg fuel
      | none ↦
          if is_zero_cursor db_cur
          then (query (fetch_all cfg.pid) >>= apply_eligible cfg)
          else (modify (λ s. record s { cur = db_cur })
              >> (load_portfolio_positions_into_aggregate >> pump_after_cursor cfg fuel))
    ]
