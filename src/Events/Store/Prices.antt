-- ===== src/Events/Store/Prices.antt =====
-- internal/events/postgres.go and symbol_returns.go: the prices and daily returns that a batch of
-- price events writes, and the portfolios that hold a symbol.
use real_time_portfolio_risk.Prelude.{
  ℕ, suc, zero, ◌+◌, ◌*◌, ◌/◌, ◌^◌, Str, ◌==◌, text_eq, nat_eq, ltb, Bool, true, false, not, ◌&&◌,
  List, [], ◌∷◌, none, some, Option, if◌then◌else◌, get_or_else, take,
}
use real_time_portfolio_risk.Prelude.Dict.{Dict, lookup, insert}
use real_time_portfolio_risk.Prelude.Sort.{sort}
use real_time_portfolio_risk.Clock.{Time, Uuid}
use real_time_portfolio_risk.Decimal.{Decimal}
use real_time_portfolio_risk.Domain.Types.{
  Codec, EventEnvelope, PricePayload, event_type_price_updated,
}
use real_time_portfolio_risk.Domain.Positions.{Positions}
use real_time_portfolio_risk.Events.Cursor.{cursor_from_event}
use real_time_portfolio_risk.Events.Store.{Tables, ReturnRow, upsert_projection_cursor}

abbrev pub symbol_returns_window_n : ℕ
symbol_returns_window_n = 60

-- The number of the UTC day. The least instant of `time.Time` is 30,592 seconds into its day.
unfoldable pub event_utc_date : Time → ℕ
event_utc_date t = (t + 30592 * 10 ^ 9) / (86400 * 10 ^ 9)

module _ {D : Type 0} where
  -- `ON CONFLICT (symbol, return_date) DO UPDATE`
  unfoldable pub put_return : ReturnRow D → List (ReturnRow D) → List (ReturnRow D)
  put_return row [] = row ∷ []
  put_return row (r ∷ rows) =
      if r.return_date == row.return_date
      then row ∷ rows
      else if ltb r.return_date row.return_date
      then row ∷ r ∷ rows
      else r ∷ put_return row rows

  -- The close of the latest date before `date`.
  unfoldable pub previous_close : ℕ → List (ReturnRow D) → Option D
  previous_close date [] = none
  previous_close date (r ∷ rows) =
      if ltb r.return_date date then some r.close_price else previous_close date rows

  abbrev pub returns_of : Str → Tables D → List (ReturnRow D)
  returns_of symbol t = get_or_else (lookup symbol t.symbol_returns) []

  -- `trimSymbolReturnsWindow`
  unfoldable pub trim_symbol_returns_window : ℕ → List (ReturnRow D) → List (ReturnRow D)
  trim_symbol_returns_window keep_n rows = if ltb 0 keep_n then take keep_n rows else rows

module _ {D : Type 0} ⦃d : Decimal D⦄ where
  -- `none` is an error of the function, or the panic of the division, which the guard excludes.
  unfoldable pub compute_daily_return : D → D → Option D
  compute_daily_return prev_close close =
      if not (d.greater_than prev_close d.nought)
      then none
      else if not (d.greater_than close d.nought)
      then none
      else elim (d.div close prev_close) [ none ↦ none | some q ↦ some (d.sub q d.one) ]

  -- A column `NUMERIC(20, s)` refuses a value that has more than 20 - s digits before the point after
  -- it is rounded.
  abbrev ten : D
  ten = let two = d.add d.one d.one in let four = d.add two two in d.add four (d.add four two)

  unfoldable pub ten_to : ℕ → D
  ten_to zero = d.one
  ten_to (suc n) = d.mul ten (ten_to n)

  unfoldable pub fits_digits : ℕ → D → Bool
  unfolding ten_to
  fits_digits digits x = d.less_than (d.abs x) (ten_to digits)

  abbrev pub fits_return : Option D → Bool
  fits_return none = true
  fits_return (some r) = fits_digits 10 r

  -- The statement that writes a row, `none` where a value does not fit its column.
  unfoldable pub write_return : ReturnRow D → List (ReturnRow D) → Option (List (ReturnRow D))
  write_return row rows =
      if fits_digits 12 row.close_price && fits_return row.daily_return
      then some (put_return row rows)
      else none

  -- The day's row, with the return on the previous close if there is one. Each row keeps its close
  -- with eight places and its return with ten.
  unfoldable pub upsert_symbol_return : D → Time → List (ReturnRow D) → Option (List (ReturnRow D))
  unfolding write_return
  upsert_symbol_return close event_time rows =
      let date = event_utc_date event_time in
      elim (previous_close date rows) [
        | none ↦
            write_return
              (record { return_date = date; close_price = d.round close; daily_return = none }) rows
        | some prev ↦ elim (compute_daily_return prev close) [
          | none ↦ none
          | some r ↦
              write_return
                (record {
                  return_date = date;
                  close_price = d.round close;
                  daily_return = some (d.round_to_ten r);
                })
                rows
        ]
      ]

  -- The statements for one event that decoded.
  unfoldable pub apply_price : EventEnvelope → PricePayload D → Tables D → Option (Tables D)
  apply_price ev p t =
      if not (fits_digits 12 (d.round p.price))
      then none
      else elim (upsert_symbol_return p.price ev.event_time (returns_of p.symbol t)) [
        | none ↦ none
        | some rows ↦ some (record t {
          prices_projection =
              insert p.symbol
                (record {
                  price = d.round p.price;
                  as_of = ev.event_time;
                  as_of_event_id = ev.event_id;
                })
                t.prices_projection;
          symbol_returns =
              insert p.symbol (trim_symbol_returns_window symbol_returns_window_n rows)
                t.symbol_returns;
        })
      ]

  unfoldable pub apply_prices : Codec D → List EventEnvelope → Tables D → Option (Tables D)
  apply_prices codec [] t = some t
  apply_prices codec (ev ∷ evs) t =
      if not (ev.event_type == event_type_price_updated)
      then apply_prices codec evs t
      else elim (codec.unmarshal_price ev.payload) [
        | none ↦ none
        | some p ↦ elim (apply_price ev p t) [ none ↦ none | some t' ↦ apply_prices codec evs t' ]
      ]

  -- The body of the transaction of `ApplyPriceBatch` for a batch with last event `last`; `none`
  -- rolls back.
  unfoldable pub apply_price_batch :
      Codec D → Uuid → List EventEnvelope → EventEnvelope → Tables D → Option (Tables D)
  apply_price_batch codec pid evs last t = elim (apply_prices codec evs t) [
    | none ↦ none
    | some t' ↦ some (upsert_projection_cursor pid (cursor_from_event last) t')
  ]

  -- The portfolio has a row with a quantity for one of the symbols.
  unfoldable pub holds_any : List Str → Positions D → Bool
  holds_any [] rows = false
  holds_any (s ∷ symbols) rows = elim (lookup s rows) [
    | none ↦ holds_any symbols rows
    | some lot ↦ if not (d.is_zero lot.quantity) then true else holds_any symbols rows
  ]

  abbrev pub holders : List Str → Dict Uuid (Positions D) → List Uuid
  holders symbols [] = []
  holders symbols ((pid, rows) ∷ portfolios) =
      if holds_any symbols rows
      then pid ∷ holders symbols portfolios
      else holders symbols portfolios

  -- `ListPortfolioIDsByOpenSymbols`
  unfoldable pub list_portfolio_ids_by_open_symbols : List Str → Tables D → List Uuid
  unfolding holds_any
  list_portfolio_ids_by_open_symbols symbols t = sort ltb (holders symbols t.positions_projection)
