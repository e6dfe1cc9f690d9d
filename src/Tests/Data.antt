-- ===== src/Tests/Data.antt =====
-- Trades and events for the tests, on the integers.
use real_time_portfolio_risk.Prelude.{codes, ℕ, none, some, true, Str, ◌==◌, text_eq, if◌then◌else◌}
use real_time_portfolio_risk.Prelude.Int.{ℤ, pos}
use real_time_portfolio_risk.Clock.{Time}
use real_time_portfolio_risk.Domain.Types.{
  TradePayload, PricePayload, EventEnvelope, Codec, side_buy, side_sell, Side,
  event_type_trade_executed, event_type_price_updated,
}

abbrev pub trade : Side → ℕ → ℕ → TradePayload ℤ
trade side n price = record {
  trade_id = codes "t1";
  symbol = codes "ACME";
  side = side;
  quantity = pos n;
  price = pos price;
  currency = codes "USD";
}

abbrev pub buy_ten : TradePayload ℤ
buy_ten = trade side_buy 10 5

abbrev pub sell_four : TradePayload ℤ
sell_four = trade side_sell 4 7

abbrev pub sell_twenty : TradePayload ℤ
sell_twenty = trade side_sell 20 7

abbrev pub quote : PricePayload ℤ
quote = record {
  symbol = codes "ACME";
  price = pos 5;
  currency = codes "USD";
  source_sequence = pos 1;
}

-- The payloads "a", "b" and "c" of trades and "p" of a price.
abbrev pub codec : Codec ℤ
codec = record {
  is_json = λ s. true;
  unmarshal_trade = λ s.
      if s == codes "a"
      then some buy_ten
      else if s == codes "b"
      then some sell_four
      else if s == codes "c"
      then some sell_twenty
      else none;
  unmarshal_price = λ s. if s == codes "p" then some quote else none;
}

abbrev pub event : ℕ → Time → Str → EventEnvelope
event id time payload = record {
  event_id = id;
  event_type = event_type_trade_executed;
  event_time = time;
  processing_time = time;
  source = codes "test";
  portfolio_id = codes "7";
  idempotency_key = codes "k";
  payload = payload;
}

abbrev pub bought_event : EventEnvelope
bought_event = event 1 100 (codes "a")

abbrev pub oversold_event : EventEnvelope
oversold_event = event 2 200 (codes "c")

abbrev pub sold_event : EventEnvelope
sold_event = event 3 300 (codes "b")

abbrev pub price_event : ℕ → Time → EventEnvelope
price_event id time = record (event id time (codes "p")) { event_type = event_type_price_updated }
