-- ===== src/Tests/Portfolio.antt =====
-- A snapshot written and read.
use real_time_portfolio_risk.Prelude.{
  codes, map, List, [], ◌∷◌, none, ◌≡◌, refl, Str, str_eq, text_eq, get_or_else,
}
use mathlib.Core.Option
use mathlib.Core.List.Perm
use real_time_portfolio_risk.Prelude.Dict.{lookup, insert, Dict}
use real_time_portfolio_risk.Prelude.Int.{ℤ, pos, negsuc, ◌+ℤ◌, ◌*ℤ◌}
use real_time_portfolio_risk.Decimal.Integers.{integers, Integers-IsDecimal}
use real_time_portfolio_risk.Domain.Positions.{Positions}
use real_time_portfolio_risk.Portfolio.Aggregate.{Aggregate}
use real_time_portfolio_risk.Portfolio.Snapshot.{
  parse_trade_positions_snapshot, marshal_trade_positions_snapshot, parsed,
}
use real_time_portfolio_risk.Portfolio.Snapshot.RoundTrip.{IsNamed, round_lot, parse-marshal}
use real_time_portfolio_risk.Portfolio.View.{
  ProjectionRow, PriceMarkInput, PortfolioAssemblerInput, marked, sum_totals,
}
use real_time_portfolio_risk.Portfolio.View.Totals.{priced_cost, realized, sum_totals-marked}
use real_time_portfolio_risk.Scenario.{
  Shock, shocked, shocked_portfolio_input, validate_shocks, validate_from, apply_shocks, shock_mark,
}
use real_time_portfolio_risk.Scenario.Marks.{IsUnder, shocked_input-IsUnder}
use real_time_portfolio_risk.Tests.Json.{json, json-IsFaithful}

abbrev held : Positions ℤ
held =
    (codes "MSFT", record { quantity = pos 3; average_cost = pos 40; realized_pnl = negsuc 6 })
    ∷ (codes "ACME", record { quantity = pos 10; average_cost = pos 5; realized_pnl = pos 0 })
    ∷ []

abbrev agg : Aggregate ℤ
agg = (codes "7", held) ∷ []

held_IsNamed : IsNamed (get_or_else (lookup (codes "7") agg) [])
unfolding lookup str_eq
held_IsNamed = refl

parse-marshal_example :
    (q : Positions ℤ) × (parse_trade_positions_snapshot json
        (marshal_trade_positions_snapshot json agg (codes "7"))
      ≡ parsed q)
    × ((s : Str)
        → lookup s q ≡ Option.map round_lot (lookup s (get_or_else (lookup (codes "7") agg) [])))
parse-marshal_example =
    parse-marshal Integers-IsDecimal json agg (codes "7") json-IsFaithful held_IsNamed

abbrev rows : List (ProjectionRow ℤ)
rows =
    record {
      symbol = codes "MSFT";
      quantity = pos 3;
      average_cost = pos 40;
      realized_pnl = negsuc 6;
    }
    ∷ record {
      symbol = codes "ACME";
      quantity = pos 10;
      average_cost = pos 5;
      realized_pnl = pos 2;
    }
    ∷ []

abbrev prices : Dict Str (PriceMarkInput ℤ)
prices =
    (
      codes "ACME",
      record { price = pos 7; as_of_event_id = 4; as_of_event_time = 90; processing_time = 95 },
    )
    ∷ []

sum_totals-marked_example :
    let marked_rows = map (marked prices) rows in
    let tot = sum_totals marked_rows in
    (tot.total_market_value ≡ integers.add tot.total_unrealized_pnl (priced_cost marked_rows))
    × (tot.total_realized_pnl ≡ realized rows)
sum_totals-marked_example = sum_totals-marked Integers-IsDecimal prices rows

abbrev later_mark : PriceMarkInput ℤ
later_mark = record {
  price = pos 9;
  as_of_event_id = 6;
  as_of_event_time = 120;
  processing_time = 125;
}

abbrev base : PortfolioAssemblerInput ℤ
base = record { portfolio_id = 7; positions = rows; price_by_symbol = prices; trade_apply = none }

abbrev shocks : List (Shock ℤ)
shocks = record { symbol = codes "ACME"; shock_type = codes "PCT"; value = pos 1 } ∷ []

abbrev doubled : PortfolioAssemblerInput ℤ
doubled = record base {
  price_by_symbol =
      (
        codes "ACME",
        record { price = pos 14; as_of_event_id = 4; as_of_event_time = 90; processing_time = 95 },
      )
      ∷ [];
}

shocked_eq : shocked_portfolio_input base shocks ≡ shocked doubled
unfolding shocked_portfolio_input validate_shocks validate_from apply_shocks shock_mark lookup
    insert str_eq ◌+ℤ◌ ◌*ℤ◌
shocked_eq = refl

shocked_input-IsUnder_example : IsUnder base shocks doubled
shocked_input-IsUnder_example = shocked_input-IsUnder base doubled shocks shocked_eq
