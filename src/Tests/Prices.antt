-- ===== src/Tests/Prices.antt =====
-- A price batch, and the room of a column.
use real_time_portfolio_risk.Prelude.{
  codes, ℕ, ◌^◌, ◌-◌, false, ◌∷◌, List, [], ◌≡◌, refl, some, none, ◌⊎◌, Str, text_eq, nat_eq,
  str_eq, true,
}
use real_time_portfolio_risk.Prelude.Dict.{lookup}
use real_time_portfolio_risk.Prelude.Int.{ℤ, pos, ◌*ℤ◌, ◌+ℤ◌}
use real_time_portfolio_risk.Decimal.Integers.{integers, Integers-IsDecimal}
use real_time_portfolio_risk.Domain.Types.{EventEnvelope}
use real_time_portfolio_risk.Events.Cursor.{cursor_from_event}
use real_time_portfolio_risk.Events.Store.{Tables, load_projection_cursor}
use real_time_portfolio_risk.Events.Store.Prices.{apply_price_batch, fits_digits}
use real_time_portfolio_risk.Events.PriceWorker.Batch.{
  IsPriced, AreWindows, Overflows, returns_after, price_after, apply_price_batch-IsWritten,
}
use real_time_portfolio_risk.Tests.Data.{codec, price_event, quote}
use real_time_portfolio_risk.Tests.Json.{json}
use real_time_portfolio_risk.Events.Worker.Monad.{Config}

abbrev pub no_tables : Tables ℤ
no_tables = record {
  events = [];
  projection_cursor = [];
  positions_projection = [];
  dlq_events = [];
  portfolio_snapshots = [];
  prices_projection = [];
  symbol_returns = [];
}

priced : (id time : ℕ) → IsPriced codec (price_event id time)
unfolding str_eq
priced id time = record {
  price_event = refl;
  payload = quote;
  decodes = refl;
  positive = refl;
  visible = refl;
}

abbrev two_prices : List EventEnvelope
two_prices = price_event 1 100 ∷ price_event 2 200 ∷ []

apply_price_batch-IsWritten_example :
    ((apply_price_batch codec 7 two_prices (price_event 2 200) no_tables ≡ none)
      × Overflows codec two_prices no_tables.symbol_returns)
    ⊎ ((t' : Tables ℤ) × (apply_price_batch codec 7 two_prices (price_event 2 200) no_tables
          ≡ some t')
        × (t'.symbol_returns ≡ returns_after codec two_prices no_tables.symbol_returns)
        × AreWindows codec t'
        × ((symbol : Str)
            → lookup symbol t'.prices_projection
              ≡ price_after codec symbol two_prices (lookup symbol no_tables.prices_projection))
        × (load_projection_cursor 7 t' ≡ cursor_from_event (price_event 2 200))
        × (t'.events ≡ no_tables.events)
        × (t'.positions_projection ≡ no_tables.positions_projection))
apply_price_batch-IsWritten_example =
    apply_price_batch-IsWritten codec Integers-IsDecimal 7 two_prices (price_event 2 200) no_tables
      (priced 1 100, (priced 2 200, tt)) tt

abbrev pub cfg : Config ℤ
cfg = record {
  pid = 9;
  pid_str = codes "9";
  watermark = 0;
  max_event_age = 0;
  snapshot_min_events = 0;
  snapshot_min_interval = 0;
  has_risk_scheduler = true;
  codec = codec;
  json = json;
}

-- A price of 10 ^ 12 has no room in its column, and one below it has.
too_large : fits_digits 12 (pos (10 ^ 12)) ≡ false
unfolding fits_digits ◌*ℤ◌ ◌+ℤ◌
too_large = refl

large_enough : fits_digits 12 (pos (10 ^ 12 - 1)) ≡ true
unfolding fits_digits ◌*ℤ◌ ◌+ℤ◌
large_enough = refl
