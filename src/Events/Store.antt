-- ===== src/Events/Store.antt =====
-- internal/events/postgres.go: the tables that the apply workers use, and the queries and
-- transactions over them. A query that orders and filters is written as the filter of the ordered
-- rows.
pub mod Projection
pub mod Append
pub mod Prices
pub mod Touched
pub mod Untouched
use real_time_portfolio_risk.Prelude.{
  ℕ, Str, ◌==◌, text_eq, nat_eq, Bool, true, false, List, [], ◌∷◌, ◌++◌, none, some, Option,
  if◌then◌else◌, get_or_else, take, nat_beq,
}
use Prim.Native.Nat.{Ordering, lt, eq, gt}
use real_time_portfolio_risk.Prelude.Dict.{Dict, lookup, insert, erase}
use real_time_portfolio_risk.Prelude.Sort.{sort}
use real_time_portfolio_risk.Clock.{Time, Uuid, zero_time, after}
use real_time_portfolio_risk.Decimal.{Decimal}
use real_time_portfolio_risk.Domain.Types.{
  Error, Codec, EventEnvelope, TradePayload, event_type_trade_executed,
}
use real_time_portfolio_risk.Domain.Positions.{PositionLot, Positions, zero_lot}
use real_time_portfolio_risk.Portfolio.Aggregate.{Aggregate, aggregate_lot}
use real_time_portfolio_risk.Events.Cursor.{
  Cursor, zero_cursor, cursor_from_event, is_zero_cursor, compare_cursors, is_after,
}

-- A row of `events`; the envelope is the one that `scanEventRows` gives back.
pub record EventRow : Type 0 where
  pub partition : Uuid
  pub event : EventEnvelope

pub data Reason : Type 0 where
  event_too_stale position_underflow bad_price_payload : Reason

pub record DlqRow : Type 0 where
  pub partition : Uuid
  pub event : EventEnvelope
  pub reason : Reason

pub record SnapshotRow : Type 0 where
  pub partition : Uuid
  pub as_of : Cursor
  pub snapshot : Str

-- A row of `prices_projection` under its symbol.
pub record PriceRow (D : Type 0) : Type 0 where
  pub price : D
  pub as_of : Time
  pub as_of_event_id : Uuid

-- A row of `symbol_returns` under its symbol; the date is the number of a day.
pub record ReturnRow (D : Type 0) : Type 0 where
  pub return_date : ℕ
  pub close_price : D
  pub daily_return : Option D

pub record Tables (D : Type 0) : Type 0 where
  pub events : List EventRow
  pub projection_cursor : Dict Uuid Cursor
  pub positions_projection : Dict Uuid (Positions D)
  pub dlq_events : List DlqRow
  pub portfolio_snapshots : List SnapshotRow
  pub prices_projection : Dict Str (PriceRow D)
  -- The rows of a symbol, the latest date first.
  pub symbol_returns : Dict Str (List (ReturnRow D))

-- Events in apply order (event_time ASC, event_id ASC).
abbrev pub precedes : EventEnvelope → EventEnvelope → Bool
precedes a b = elim (compare_cursors (cursor_from_event a) (cursor_from_event b)) [
  | lt ↦ true
  | _ ↦ false
]

unfoldable pub of_partition : Uuid → List EventRow → List EventEnvelope
of_partition pid [] = []
of_partition pid (row ∷ rows) =
    if row.partition == pid then row.event ∷ of_partition pid rows else of_partition pid rows

unfoldable pub select_after : Cursor → List EventEnvelope → List EventEnvelope
select_after c [] = []
select_after c (ev ∷ evs) = if is_after c ev then ev ∷ select_after c evs else select_after c evs

abbrev pub latest : Time → List EventEnvelope → Time
latest m [] = m
latest m (ev ∷ evs) = latest (if after ev.event_time m then ev.event_time else m) evs

abbrev pub same_checkpoint : Uuid → Cursor → SnapshotRow → Bool
same_checkpoint pid c row =
    if row.partition == pid
    then elim (compare_cursors row.as_of c) [ eq ↦ true | _ ↦ false ]
    else false

abbrev pub has_checkpoint : Uuid → Cursor → List SnapshotRow → Bool
has_checkpoint pid c [] = false
has_checkpoint pid c (row ∷ rows) =
    if same_checkpoint pid c row then true else has_checkpoint pid c rows

module _ {D : Type 0} where
  -- `FetchAllForPortfolio`
  unfoldable pub fetch_all : Uuid → Tables D → List EventEnvelope
  fetch_all pid t = sort precedes (of_partition pid t.events)

  -- `FetchAfter`: no predicate from the zero cursor.
  unfoldable pub fetch_after : Uuid → Cursor → ℕ → Tables D → List EventEnvelope
  unfolding fetch_all
  fetch_after pid c limit t =
      let page = if nat_beq limit 0 then 100 else limit in
      take page (if is_zero_cursor c then fetch_all pid t else select_after c (fetch_all pid t))

  -- `MaxEventTime`, the zero time for an empty partition.
  unfoldable pub max_event_time : Uuid → Tables D → Time
  max_event_time pid t = elim (of_partition pid t.events) [
    | [] ↦ zero_time
    | ev ∷ evs ↦ latest ev.event_time evs
  ]

  unfoldable pub load_projection_cursor : Uuid → Tables D → Cursor
  load_projection_cursor pid t = get_or_else (lookup pid t.projection_cursor) zero_cursor

  unfoldable pub upsert_projection_cursor : Uuid → Cursor → Tables D → Tables D
  upsert_projection_cursor pid c t = record t {
    projection_cursor = insert pid c t.projection_cursor;
  }

  -- `PersistApplyDLQ`: the dead letter and the cursor in one transaction.
  unfoldable pub persist_apply_dlq : Uuid → EventEnvelope → Reason → Tables D → Tables D
  unfolding upsert_projection_cursor
  persist_apply_dlq pid ev reason t =
      upsert_projection_cursor pid (cursor_from_event ev) (record t {
        dlq_events = t.dlq_events ++ (record { partition = pid; event = ev; reason = reason } ∷ []);
      })

  -- The rows of `positions_projection` for a portfolio.
  abbrev pub rows_of : Uuid → Tables D → Positions D
  rows_of pid t = get_or_else (lookup pid t.positions_projection) []

  -- `InsertPortfolioSnapshot` past its argument checks: a checkpoint that is there stays.
  unfoldable pub insert_portfolio_snapshot : Uuid → Cursor → Str → Tables D → Tables D
  insert_portfolio_snapshot pid c body t =
      if has_checkpoint pid c t.portfolio_snapshots then t else record t {
        portfolio_snapshots =
            t.portfolio_snapshots ++ (record { partition = pid; as_of = c; snapshot = body } ∷ []);
      }

module _ {D : Type 0} ⦃d : Decimal D⦄ where
  -- What `ApplyBatch` writes for one symbol: a flat lot with no realized profit has no row.
  unfoldable pub persist_lot : Str → PositionLot D → Positions D → Positions D
  persist_lot symbol lot rows =
      if d.is_zero lot.quantity
      then if d.is_zero lot.realized_pnl
        then erase symbol rows
        else insert symbol
            (record {
              quantity = d.round d.nought;
              average_cost = d.round d.nought;
              realized_pnl = d.round lot.realized_pnl;
            })
            rows
      else insert symbol
          (record {
            quantity = d.round lot.quantity;
            average_cost = d.round lot.average_cost;
            realized_pnl = d.round lot.realized_pnl;
          })
          rows

  -- The symbols of the trades of a batch; `none` when a payload does not decode.
  unfoldable pub touched : Codec D → List EventEnvelope → Option (List Str)
  touched codec [] = some []
  touched codec (ev ∷ evs) =
      let rest = touched codec evs in
      if ev.event_type == event_type_trade_executed
      then elim (codec.unmarshal_trade ev.payload) [
        | none ↦ none
        | some t ↦ elim rest [ none ↦ none | some symbols ↦ some (t.symbol ∷ symbols) ]
      ]
      else rest

  unfoldable pub persist_lots : Str → Aggregate D → List Str → Positions D → Positions D
  persist_lots pid_str agg [] rows = rows
  persist_lots pid_str agg (symbol ∷ symbols) rows =
      persist_lots pid_str agg symbols (persist_lot symbol (aggregate_lot pid_str symbol agg) rows)

  -- The body of the transaction of `ApplyBatch` for a batch with last event `last`.
  unfoldable pub apply_batch :
      Uuid → Str → List Str → EventEnvelope → Aggregate D → Tables D → Tables D
  unfolding persist_lot persist_lots upsert_projection_cursor
  apply_batch pid pid_str symbols last agg t =
      upsert_projection_cursor pid (cursor_from_event last) (record t {
        positions_projection =
            insert pid (persist_lots pid_str agg symbols (rows_of pid t)) t.positions_projection;
      })
