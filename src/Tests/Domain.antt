-- ===== src/Tests/Domain.antt =====
-- Trades validated and applied.
use real_time_portfolio_risk.Prelude.{
  codes, ap, str_eq, List, [], ◌∷◌, none, ◌≡◌, ◌↔◌, refl, arith, nat_eq, text_eq,
}
use real_time_portfolio_risk.Prelude.Dict.{lookup, insert}
use real_time_portfolio_risk.Prelude.Int.{ℤ, pos, div_ℤ, ◌+ℤ◌, ◌*ℤ◌}
use real_time_portfolio_risk.Decimal.Integers.{integers, Integers-IsDecimal}
use real_time_portfolio_risk.Domain.Types.{TradePayload, is_valid_symbol, is_valid_side}
use real_time_portfolio_risk.Domain.Validation.{validate_trade_payload}
use real_time_portfolio_risk.Domain.Validation.Sound.{IsTrade, validate_trade_payload_iff}
use real_time_portfolio_risk.Domain.Positions.{Positions, apply_trade, lot_of, apply_buy, done}
use real_time_portfolio_risk.Domain.Positions.NoShorting.{
  IsLongOnly, IsSettled, apply_trade-IsLongOnly,
}
use real_time_portfolio_risk.Domain.Positions.CashFlow.{Books, rounding, apply_trade-Books}
use real_time_portfolio_risk.Domain.Positions.Replay.{RunBooks, replay-RunBooks}
use real_time_portfolio_risk.Tests.Data.{buy_ten, sell_four, sell_twenty}

flat-IsLongOnly : IsLongOnly {D = ℤ} []
unfolding lookup
flat-IsLongOnly s l e = absurd (ground arith)

buy_ten_valid : validate_trade_payload buy_ten ≡ none
unfolding validate_trade_payload is_valid_symbol is_valid_side str_eq
buy_ten_valid = refl

sell_four_valid : validate_trade_payload sell_four ≡ none
unfolding validate_trade_payload is_valid_symbol is_valid_side str_eq
sell_four_valid = refl

sell_twenty_valid : validate_trade_payload sell_twenty ≡ none
unfolding validate_trade_payload is_valid_symbol is_valid_side str_eq
sell_twenty_valid = refl

validate_trade_payload_iff_example : (validate_trade_payload buy_ten ≡ none) ↔ IsTrade buy_ten
validate_trade_payload_iff_example = validate_trade_payload_iff Integers-IsDecimal buy_ten

apply_trade-IsLongOnly_example :
    IsSettled Integers-IsDecimal [] sell_twenty (apply_trade [] sell_twenty)
apply_trade-IsLongOnly_example =
    apply_trade-IsLongOnly Integers-IsDecimal [] sell_twenty flat-IsLongOnly sell_twenty_valid

abbrev ten_held : Positions ℤ
ten_held =
    (codes "ACME", record { quantity = pos 10; average_cost = pos 5; realized_pnl = pos 0 }) ∷ []

bought_eq : apply_trade {D = ℤ} [] buy_ten ≡ (done, ten_held)
unfolding apply_trade apply_buy lot_of lookup insert str_eq div_ℤ ◌+ℤ◌ ◌*ℤ◌
bought_eq = refl

apply_trade-Books_example :
    Books
      (codes "ACME")
      buy_ten
      (rounding {D = ℤ} (codes "ACME") [] buy_ten)
      (lot_of (codes "ACME") [])
      (lot_of (codes "ACME") (apply_trade {D = ℤ} [] buy_ten).1)
apply_trade-Books_example =
    apply_trade-Books Integers-IsDecimal (codes "ACME") [] buy_ten (ap (λ o. o.0) bought_eq)

-- A buy of one at six, after which the average cost is rounded, and two sells, the first refused.
abbrev buy_one : TradePayload ℤ
buy_one = record buy_ten { quantity = pos 1; price = pos 6 }

buy_one_valid : validate_trade_payload buy_one ≡ none
unfolding validate_trade_payload is_valid_symbol is_valid_side str_eq
buy_one_valid = refl

abbrev mixed_run : List (TradePayload ℤ)
mixed_run = buy_ten ∷ buy_one ∷ sell_twenty ∷ sell_four ∷ []

replay-RunBooks_example : RunBooks Integers-IsDecimal (codes "ACME") [] mixed_run
replay-RunBooks_example =
    replay-RunBooks Integers-IsDecimal (codes "ACME") [] mixed_run flat-IsLongOnly
      (buy_ten_valid, (buy_one_valid, (sell_twenty_valid, (sell_four_valid, tt))))
