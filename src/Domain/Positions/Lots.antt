-- ===== src/Domain/Positions/Lots.antt =====
-- The lot of a symbol after an update of the map.
use real_time_portfolio_risk.Prelude.{
  Str, codes, false, str_eq, ◌≡◌, text_eq, ◌==◌, if◌then◌else◌, Bool-cases, inl, inr,
}
use real_time_portfolio_risk.Prelude.Dict.{insert, erase, lookup-insert, lookup-erase}
use real_time_portfolio_risk.Decimal.{Decimal}
use real_time_portfolio_risk.Domain.Types.{TradePayload, side_buy, side_sell, validation}
use real_time_portfolio_risk.Domain.Positions.{
  PositionLot, Positions, zero_lot, lot_of, apply_buy, apply_sell, apply_trade, failed,
}

module _ {D : Type 0} ⦃d : Decimal D⦄ where
  pub lot_of-insert :
      (k j : Str) (l : PositionLot D) (p : Positions D)
      → lot_of j (insert k l p) ≡ (if k == j then l else lot_of j p)
  unfolding lot_of
  lot_of-insert k j l p = elim (Bool-cases (k == j)) [
    | inl e ↦ rw (lookup-insert, e)
    | inr e ↦ rw (lookup-insert, e)
  ]

  pub lot_of-erase :
      (k j : Str) (p : Positions D)
      → lot_of j (erase k p) ≡ (if k == j then zero_lot else lot_of j p)
  unfolding lot_of
  lot_of-erase k j p = elim (Bool-cases (k == j)) [
    | inl e ↦ rw (lookup-erase, e)
    | inr e ↦ rw (lookup-erase, e)
  ]

  -- The `switch` on the side.
  pub apply_trade_buy :
      (p : Positions D) (t : TradePayload D) → t.side ≡ side_buy → apply_trade p t ≡ apply_buy p t
  unfolding apply_trade str_eq
  apply_trade_buy p t buy = rw (buy, apply_trade)

  pub apply_trade_sell :
      (p : Positions D) (t : TradePayload D) → t.side ≡ side_sell → apply_trade p t ≡ apply_sell p t
  unfolding apply_trade str_eq
  apply_trade_sell p t sell = rw (sell, apply_trade)

  pub apply_trade_invalid :
      (p : Positions D) (t : TradePayload D)
      → (t.side == side_buy) ≡ false
      → (t.side == side_sell) ≡ false
      → apply_trade p t ≡ (failed (validation (codes "invalid side")), p)
  unfolding apply_trade
  apply_trade_invalid p t not_buy not_sell = rw (not_buy, not_sell, apply_trade)
