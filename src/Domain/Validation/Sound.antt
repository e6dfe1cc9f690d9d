-- ===== src/Domain/Validation/Sound.antt =====
-- What a payload that passed validation satisfies.
use real_time_portfolio_risk.Prelude.{◌≡◌, ◌≢◌, ◌↔◌, ◌⊎◌, true, none, [], arith, ==_iff, text_eq}
use real_time_portfolio_risk.Decimal.{Decimal, IsDecimal, ◌≺◌}
use real_time_portfolio_risk.Domain.Types.{
  TradePayload, is_valid_symbol, is_valid_side, side_buy, side_sell,
}
use real_time_portfolio_risk.Domain.Validation.{validate_trade_payload}

module _ {D : Type 0} ⦃d : Decimal D⦄ where
  -- The conditions of a well-formed trade.
  pub record IsTrade (t : TradePayload D) : Type 0 where
    pub has_id : t.trade_id ≢ []
    pub symbol_ok : is_valid_symbol t.symbol ≡ true
    pub side_ok : (t.side ≡ side_buy) ⊎ (t.side ≡ side_sell)
    pub quantity_pos : d.nought ≺ t.quantity
    pub price_pos : d.nought ≺ t.price
    pub has_currency : t.currency ≢ []

  module _ (laws : IsDecimal D) where
    open laws use {is_positive-eq}

    -- Validation accepts exactly the well-formed trades.
    pub validate_trade_payload_iff :
        (t : TradePayload D) → (validate_trade_payload t ≡ none) ↔ IsTrade t
    unfolding validate_trade_payload is_valid_side
    validate_trade_payload_iff t = ground (
      arith,
      ==_iff t.trade_id [],
      ==_iff t.currency [],
      ==_iff t.side side_buy,
      ==_iff t.side side_sell,
      is_positive-eq t.quantity,
      is_positive-eq t.price,
    )
