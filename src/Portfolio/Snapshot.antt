-- ===== src/Portfolio/Snapshot.antt =====
-- internal/portfolio/snapshot.go and internal/domain/positions_iterate.go: the positions of one key
-- as sorted rows of decimal texts.
pub mod RoundTrip
use real_time_portfolio_risk.Prelude.{
  ◌≡◌, ◌≢◌, Str, codes, ◌==◌, text_eq, str_lt, not, List, [], ◌∷◌, map, none, some, Option,
  if◌then◌else◌, get_or_else,
}
use real_time_portfolio_risk.Prelude.Dict.{Dict, lookup, insert}
use real_time_portfolio_risk.Prelude.Sort.{sort}
use real_time_portfolio_risk.Decimal.{Decimal}
use real_time_portfolio_risk.Domain.Positions.{
  PositionLot, Positions, zero_lot, lot_of, positions_from_lots,
}
use real_time_portfolio_risk.Portfolio.Aggregate.{Aggregate}

abbrev pub trade_positions_snapshot_format_v1 : Str
trade_positions_snapshot_format_v1 = codes "rtpre_trade_positions_v1"

pub record TradePositionSnapshot : Type 0 where
  pub symbol : Str
  pub quantity : Str
  pub average_cost : Str
  pub realized_pnl : Str

pub record TradePositionsSnapshot : Type 0 where
  pub format : Str
  pub positions : List TradePositionSnapshot

-- `json.Marshal` and `json.Unmarshal` at the snapshot type.
pub record SnapshotJson : Type 0 where
  pub marshal : TradePositionsSnapshot → Str
  pub unmarshal : Str → Option TradePositionsSnapshot

-- Text fields come back as they were written, and no document is empty.
pub record IsFaithful (json : SnapshotJson) : Type 0 where
  pub unmarshal-marshal : (s : TradePositionsSnapshot) → json.unmarshal (json.marshal s) ≡ some s
  pub marshal-ne-nil : (s : TradePositionsSnapshot) → json.marshal s ≢ []

pub data SnapshotError : Type 0 where
  bad_json unsupported_format empty_symbol bad_decimal : SnapshotError

pub data Parsed (A : Type 0) : Type 0 where
  parsed : A → Parsed A
  rejected : SnapshotError → Parsed A

module _ {D : Type 0} where
  abbrev pub keys : Positions D → List Str
  keys [] = []
  keys ((k, l) ∷ p) = k ∷ keys p

module _ {D : Type 0} ⦃d : Decimal D⦄ where
  -- `SortedSymbolLots`
  unfoldable pub sorted_symbol_lots : Positions D → List (Str × PositionLot D)
  sorted_symbol_lots p = map (λ s. (s, lot_of s p)) (sort str_lt (keys p))

  abbrev pub snapshot_row : Str × PositionLot D → TradePositionSnapshot
  snapshot_row (s, l) = record {
    symbol = s;
    quantity = d.string_fixed l.quantity;
    average_cost = d.string_fixed l.average_cost;
    realized_pnl = d.string_fixed l.realized_pnl;
  }

  unfoldable pub marshal_trade_positions_snapshot : SnapshotJson → Aggregate D → Str → Str
  unfolding sorted_symbol_lots
  marshal_trade_positions_snapshot json agg pid = json.marshal (record {
    format = trade_positions_snapshot_format_v1;
    positions = map snapshot_row (sorted_symbol_lots (get_or_else (lookup pid agg) []));
  })

  -- One row of the loop: the three numbers are parsed in turn.
  unfoldable pub parse_lot : TradePositionSnapshot → Parsed (PositionLot D)
  parse_lot row =
      if row.symbol == [] then rejected empty_symbol else elim (d.from_string row.quantity) [
        | none ↦ rejected bad_decimal
        | some q ↦ elim (d.from_string row.average_cost) [
          | none ↦ rejected bad_decimal
          | some a ↦ elim (d.from_string row.realized_pnl) [
            | none ↦ rejected bad_decimal
            | some r ↦ parsed (record { quantity = q; average_cost = a; realized_pnl = r })
          ]
        ]
      ]

  unfoldable pub parse_rows :
      List TradePositionSnapshot → Dict Str (PositionLot D) → Parsed (Dict Str (PositionLot D))
  parse_rows [] lots = parsed lots
  parse_rows (row ∷ rows) lots = elim (parse_lot row) [
    | parsed l ↦ parse_rows rows (insert row.symbol l lots)
    | rejected e ↦ rejected e
  ]

  unfoldable pub parse_trade_positions_snapshot : SnapshotJson → Str → Parsed (Positions D)
  parse_trade_positions_snapshot json data_bytes =
      if data_bytes == [] then parsed [] else elim (json.unmarshal data_bytes) [
        | none ↦ rejected bad_json
        | some snap ↦
            if not (snap.format == trade_positions_snapshot_format_v1)
            then rejected unsupported_format
            else elim (parse_rows snap.positions []) [
              | parsed lots ↦ parsed (positions_from_lots lots)
              | rejected e ↦ rejected e
            ]
      ]
