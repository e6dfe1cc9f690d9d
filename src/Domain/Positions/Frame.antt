-- ===== src/Domain/Positions/Frame.antt =====
-- What a trade leaves alone: the lots of other symbols, and all of them when it is refused.
use real_time_portfolio_risk.Prelude.{
  Str, ◌==◌, text_eq, ◌≡◌, refl, false, Bool-cases, inl, inr, ◌⊎◌, arith,
}
use real_time_portfolio_risk.Decimal.{Decimal}
use real_time_portfolio_risk.Domain.Types.{TradePayload, side_buy, side_sell}
use real_time_portfolio_risk.Domain.Positions.{
  Positions, Outcome, done, lot_of, apply_buy, apply_sell, apply_trade,
}
use real_time_portfolio_risk.Domain.Positions.Lots.{lot_of-insert, lot_of-erase}

module _ {D : Type 0} ⦃d : Decimal D⦄ where
  -- The trade was carried out, or nothing changed.
  abbrev pub IsAllOrNothing : Positions D → Outcome × Positions D → Type 0
  IsAllOrNothing p out = (out.0 ≡ done) ⊎ (out.1 ≡ p)

  abbrev pub IsFramed : Str → Positions D → Outcome × Positions D → Type 0
  IsFramed j p out = IsAllOrNothing p out × (lot_of j out.1 ≡ lot_of j p)

  apply_buy-IsFramed :
      (j : Str) (p : Positions D) (t : TradePayload D)
      → IsAllOrNothing p (apply_buy p t)
        × ((t.symbol == j) ≡ false → lot_of j (apply_buy p t).1 ≡ lot_of j p)
  unfolding apply_buy
  apply_buy-IsFramed j p t = grind (arith, lot_of-insert)

  apply_sell-IsFramed :
      (j : Str) (p : Positions D) (t : TradePayload D)
      → IsAllOrNothing p (apply_sell p t)
        × ((t.symbol == j) ≡ false → lot_of j (apply_sell p t).1 ≡ lot_of j p)
  unfolding apply_sell
  apply_sell-IsFramed j p t = grind (arith, lot_of-insert, lot_of-erase)

  pub apply_trade-IsFramed :
      (j : Str) (p : Positions D) (t : TradePayload D)
      → IsAllOrNothing p (apply_trade p t)
        × ((t.symbol == j) ≡ false → lot_of j (apply_trade p t).1 ≡ lot_of j p)
  unfolding apply_trade
  apply_trade-IsFramed j p t = elim (Bool-cases (t.side == side_buy)) [
    | inl e ↦ rw e (apply_buy-IsFramed j p t)
    | inr e ↦ elim (Bool-cases (t.side == side_sell)) [
      | inl e' ↦ rw (e, e') (apply_sell-IsFramed j p t)
      | inr e' ↦ rw (e, e') (inr refl, λ _. refl)
    ]
  ]
