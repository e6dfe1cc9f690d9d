-- ===== src/Domain/Positions.antt =====
-- internal/domain/positions.go: long-only lots with weighted average cost and realized profit. A
-- method that mutates returns how it ended and the new positions.
pub mod Lots
pub mod Frame
pub mod NoShorting
pub mod CashFlow
pub mod Replay
use real_time_portfolio_risk.Prelude.{
  Str, codes, ◌==◌, text_eq, List, [], ◌∷◌, none, some, Option, if◌then◌else◌, get_or_else,
}
use real_time_portfolio_risk.Prelude.Dict.{Dict, lookup, insert, erase}
use real_time_portfolio_risk.Decimal.{Decimal}
use real_time_portfolio_risk.Domain.Types.{
  Error, validation, position_underflow, side_buy, side_sell, TradePayload,
}

pub record PositionLot (D : Type 0) : Type 0 where
  pub quantity : D
  pub average_cost : D
  pub realized_pnl : D

abbrev pub Positions : Type 0 → Type 0
Positions D = Dict Str (PositionLot D)

-- How a call that mutates ended; `panicked` is a division by zero in the decimal library.
pub data Outcome : Type 0 where
  done : Outcome
  failed : Error → Outcome
  panicked : Outcome

module _ {D : Type 0} ⦃d : Decimal D⦄ where
  -- The zero value that a missing map key reads as.
  abbrev pub zero_lot : PositionLot D
  zero_lot = record { quantity = d.nought; average_cost = d.nought; realized_pnl = d.nought }

  -- `Positions.Lot`
  unfoldable pub lot_of : Str → Positions D → PositionLot D
  lot_of symbol p = get_or_else (lookup symbol p) zero_lot

  -- `Positions.Quantity`
  unfoldable pub quantity_of : Str → Positions D → D
  unfolding lot_of
  quantity_of symbol p = (lot_of symbol p).quantity

  -- `PositionsFromLots`
  unfoldable pub positions_from_lots : Dict Str (PositionLot D) → Positions D
  positions_from_lots [] = []
  positions_from_lots ((k, v) ∷ lots) = insert k v (positions_from_lots lots)

  -- `PositionsFromQuantities`
  unfoldable pub positions_from_quantities : Dict Str D → Positions D
  positions_from_quantities [] = []
  positions_from_quantities ((k, v) ∷ quantities) =
      insert k (record zero_lot { quantity = v }) (positions_from_quantities quantities)

  unfoldable pub apply_buy : Positions D → TradePayload D → Outcome × Positions D
  apply_buy p t =
      let cur = lot_of t.symbol p in
      let new_qty = d.add cur.quantity t.quantity in
      let numer = d.add (d.mul cur.quantity cur.average_cost) (d.mul t.quantity t.price) in
      elim (d.div numer new_qty) [
        | none ↦ (panicked, p)
        | some new_avg ↦ (
          done,
          insert t.symbol
              (record {
                quantity = new_qty;
                average_cost = new_avg;
                realized_pnl = cur.realized_pnl;
              })
              p,
        )
      ]

  unfoldable pub apply_sell : Positions D → TradePayload D → Outcome × Positions D
  apply_sell p t =
      let cur = lot_of t.symbol p in
      let pnl = d.mul (d.sub t.price cur.average_cost) t.quantity in
      let new_real = d.add cur.realized_pnl pnl in
      let new_qty = d.sub cur.quantity t.quantity in
      if d.less_than cur.quantity t.quantity
      then (failed position_underflow, p)
      else if d.is_zero new_qty
      then if d.is_zero new_real
        then (done, erase t.symbol p)
        else (done, insert t.symbol (record zero_lot { realized_pnl = new_real }) p)
      else (
        done,
        insert t.symbol
            (record {
              quantity = new_qty;
              average_cost = cur.average_cost;
              realized_pnl = new_real;
            })
            p,
      )

  unfoldable pub apply_trade : Positions D → TradePayload D → Outcome × Positions D
  unfolding apply_buy apply_sell
  apply_trade p t =
      if t.side == side_buy
      then apply_buy p t
      else if t.side == side_sell
      then apply_sell p t
      else (failed (validation (codes "invalid side")), p)
