-- ===== src/Events/PriceWorker/Batch.antt =====
-- What a batch of price events writes.
use real_time_portfolio_risk.Prelude.{
  ◌≡◌, refl, sym, ap, ◌∙◌, Str, text_eq, nat_eq, ◌==◌, ==_refl, true, false, take, get_or_else, ◌⊎◌,
  Bool-cases, List, [], ◌∷◌, none, some, Option, inl, inr, if◌then◌else◌, All, arith,
}
use real_time_portfolio_risk.Prelude.Dict.{
  Dict, lookup, insert, lookup-insert, All-insert, All-lookup,
}
use real_time_portfolio_risk.Clock.{Time, Uuid}
use real_time_portfolio_risk.Decimal.{Decimal, IsDecimal, ◌≺◌}
use real_time_portfolio_risk.Domain.Types.{
  Codec, EventEnvelope, PricePayload, event_type_price_updated,
}
use real_time_portfolio_risk.Events.Cursor.{cursor_from_event}
use real_time_portfolio_risk.Events.Store.{
  Tables, PriceRow, ReturnRow, load_projection_cursor, upsert_projection_cursor,
}
use real_time_portfolio_risk.Events.Store.Prices.{
  symbol_returns_window_n, event_utc_date, put_return, returns_of, trim_symbol_returns_window,
  fits_digits, fits_return, apply_price, apply_prices, apply_price_batch,
}
use real_time_portfolio_risk.Events.PriceWorker.Window.{IsWindow, trim-IsWindow}
use real_time_portfolio_risk.Events.PriceWorker.Days.{
  earlier, return_on, day_row, days_after, put_return-later, upsert_symbol_return-day_row,
}
use mathlib.Core.Path.{subst}

module _ {D : Type 0} ⦃d : Decimal D⦄ (codec : Codec D) where
  -- An event with a price that is more than zero, also with the eight places that are stored.
  pub record IsPriced (ev : EventEnvelope) : Type 0 where
    pub price_event : (ev.event_type == event_type_price_updated) ≡ true
    pub payload : PricePayload D
    pub decodes : codec.unmarshal_price ev.payload ≡ some payload
    pub positive : d.nought ≺ payload.price
    pub visible : d.nought ≺ d.round payload.price

  -- The rows of every symbol.
  abbrev pub AreWindows : Tables D → Type 0
  AreWindows t = All (λ entry. IsWindow entry.1) t.symbol_returns

  abbrev price_row : EventEnvelope → PricePayload D → PriceRow D
  price_row ev p = record {
    price = d.round p.price;
    as_of = ev.event_time;
    as_of_event_id = ev.event_id;
  }

  -- The price of a symbol after one event, by what the payload decodes to.
  abbrev price_step :
      Str → EventEnvelope → Option (PriceRow D) → Option (PricePayload D) → Option (PriceRow D)
  price_step symbol ev row none = row
  price_step symbol ev row (some p) = if p.symbol == symbol then some (price_row ev p) else row

  -- The price of a symbol after some events, by the last one for it.
  abbrev pub price_after : Str → List EventEnvelope → Option (PriceRow D) → Option (PriceRow D)
  price_after symbol [] row = row
  price_after symbol (ev ∷ evs) row =
      price_after symbol evs (price_step symbol ev row (codec.unmarshal_price ev.payload))

  -- The daily rows of every symbol after some events.
  abbrev returns_step :
      EventEnvelope
      → Dict Str (List (ReturnRow D))
      → Option (PricePayload D)
      → Dict Str (List (ReturnRow D))
  returns_step ev returns none = returns
  returns_step ev returns (some p) =
      insert p.symbol (days_after p.price ev.event_time (get_or_else (lookup p.symbol returns) []))
        returns

  abbrev pub returns_after :
      List EventEnvelope → Dict Str (List (ReturnRow D)) → Dict Str (List (ReturnRow D))
  returns_after [] returns = returns
  returns_after (ev ∷ evs) returns =
      returns_after evs (returns_step ev returns (codec.unmarshal_price ev.payload))

  -- The price or its return has too many digits for its column.
  abbrev OverflowStep :
      EventEnvelope → Dict Str (List (ReturnRow D)) → Option (PricePayload D) → Type 0
  OverflowStep ev returns none = ⊥
  OverflowStep ev returns (some p) =
      (fits_digits 12 (d.round p.price) ≡ false)
      ⊎ (fits_return (
            return_on
              (earlier (event_utc_date ev.event_time) (get_or_else (lookup p.symbol returns) []))
              p.price)
          ≡ false)

  -- One of the events has a price or a return that does not fit, after those before it.
  abbrev pub Overflows : List EventEnvelope → Dict Str (List (ReturnRow D)) → Type 0
  Overflows [] returns = ⊥
  Overflows (ev ∷ evs) returns =
      OverflowStep ev returns (codec.unmarshal_price ev.payload)
      ⊎ Overflows evs (returns_step ev returns (codec.unmarshal_price ev.payload))

  no_rows : IsWindow {D = D} []
  no_rows = record { short = omega arith; descending = tt; closes = tt }

  days_after-IsWindow :
      (price : D) (at : Time) (rows : List (ReturnRow D))
      → d.nought ≺ d.round price
      → IsWindow rows
      → (days_after price at rows
          ≡ trim_symbol_returns_window symbol_returns_window_n
              (put_return (day_row price at rows) rows))
        × IsWindow (days_after price at rows)
  unfolding trim_symbol_returns_window
  days_after-IsWindow price at rows v w =
      let same = ap (take 60) (sym (put_return-later (day_row price at rows) rows w.descending)) in
      (same, subst IsWindow (sym same) (trim-IsWindow (day_row price at rows) rows v w))

  -- What the statements for some events leave.
  pub record IsWritten (evs : List EventEnvelope) (t t' : Tables D) : Type 0 where
    pub windows : AreWindows t'
    pub prices :
        (symbol : Str)
        → lookup symbol t'.prices_projection
          ≡ price_after symbol evs (lookup symbol t.prices_projection)
    pub returns : t'.symbol_returns ≡ returns_after evs t.symbol_returns
    pub events_kept : t'.events ≡ t.events
    pub positions_kept : t'.positions_projection ≡ t.positions_projection
    pub cursors_kept : t'.projection_cursor ≡ t.projection_cursor

  apply_price-IsWritten :
      (laws : IsDecimal D) (ev : EventEnvelope) (t : Tables D) (priced : IsPriced ev)
      → AreWindows t
      → ((apply_price ev priced.payload t ≡ none)
          × OverflowStep ev t.symbol_returns (some priced.payload))
        ⊎ ((t' : Tables D) × (apply_price ev priced.payload t ≡ some t') × IsWritten (ev ∷ []) t t')
  unfolding apply_price
  apply_price-IsWritten laws ev t priced ws =
      let p = priced.payload in
      let rows = returns_of p.symbol t in
      let days = earlier (event_utc_date ev.event_time) rows in
      let window = All-lookup IsWindow p.symbol t.symbol_returns [] no_rows ws in
      let e =
        upsert_symbol_return-day_row laws p.price ev.event_time rows priced.positive
          window.closes in
      let (same, w) = days_after-IsWindow p.price ev.event_time rows priced.visible window in
      elim (Bool-cases (fits_digits 12 (d.round p.price))) [
        | inr large ↦ inl (rw (apply_price, large) refl, inl large)
        | inl fits ↦ elim (Bool-cases (fits_return (return_on days p.price))) [
          | inr steep ↦ inl (rw (apply_price, e, fits, steep) refl, inr steep)
          | inl moderate ↦ inr (
            record t {
              prices_projection = insert p.symbol (price_row ev p) t.prices_projection;
              symbol_returns =
                  insert p.symbol (days_after p.price ev.event_time rows) t.symbol_returns;
            },
            rw (apply_price, e, fits, moderate, same) refl,
            record {
              windows =
                  All-insert IsWindow p.symbol (days_after p.price ev.event_time rows)
                    t.symbol_returns w ws;
              prices = λ symbol.
                  lookup-insert p.symbol symbol (price_row ev p) t.prices_projection
                  ∙ sym (
                      ap (price_step symbol ev (lookup symbol t.prices_projection)) priced.decodes);
              returns = sym (ap (returns_step ev t.symbol_returns) priced.decodes);
              events_kept = refl;
              positions_kept = refl;
              cursors_kept = refl;
            },
          )
        ]
      ]

  apply_prices-IsWritten :
      (laws : IsDecimal D) (evs : List EventEnvelope) (t : Tables D)
      → All IsPriced evs
      → AreWindows t
      → ((apply_prices codec evs t ≡ none) × Overflows evs t.symbol_returns)
        ⊎ ((t' : Tables D) × (apply_prices codec evs t ≡ some t') × IsWritten evs t t')
  unfolding apply_prices
  apply_prices-IsWritten laws [] t h ws = inr (
    t,
    refl,
    record {
      windows = ws;
      prices = λ symbol. refl;
      returns = refl;
      events_kept = refl;
      positions_kept = refl;
      cursors_kept = refl;
    },
  )
  apply_prices-IsWritten laws (ev ∷ evs) t (priced, h) ws =
      elim (apply_price-IsWritten laws ev t priced ws) [
        | inl (e, large) ↦ inl (
          rw (priced.price_event, priced.decodes, e) refl,
          inl (subst (OverflowStep ev t.symbol_returns) (sym priced.decodes) large),
        )
        | inr (t1, e1, w1) ↦ elim (apply_prices-IsWritten laws evs t1 h w1.windows) [
          | inl (e, large) ↦ inl (
            rw (priced.price_event, priced.decodes, e1) e,
            inr (subst (Overflows evs) w1.returns large),
          )
          | inr (t2, e2, w2) ↦ inr (
            t2,
            rw (priced.price_event, priced.decodes, e1) e2,
            record {
              windows = w2.windows;
              prices = λ symbol. w2.prices symbol ∙ ap (price_after symbol evs) (w1.prices symbol);
              returns = w2.returns ∙ ap (returns_after evs) w1.returns;
              events_kept = w2.events_kept ∙ w1.events_kept;
              positions_kept = w2.positions_kept ∙ w1.positions_kept;
              cursors_kept = w2.cursors_kept ∙ w1.cursors_kept;
            },
          )
        ]
      ]

  -- A batch of price events whose prices are more than zero with eight places, on tables where each
  -- symbol has at most sixty daily rows, one for a day, the latest first, with closes that are more
  -- than zero. Either the transaction fails, and a price or a daily return of the batch has more
  -- digits than its column; or it does not fail, and what it commits is this: each event in turn
  -- has written the row of its day, with its price and its return on the close of the latest day
  -- before that is there, between the rows of the days after and before, of which the latest sixty
  -- are kept; the rows of every symbol are as before the batch; the price of every symbol is that
  -- of its last event in the batch, or the old one; the cursor of the partition is the last event;
  -- and no event or position is changed.
  pub apply_price_batch-IsWritten :
      (laws : IsDecimal D) (pid : Uuid) (evs : List EventEnvelope) (last : EventEnvelope)
      (t : Tables D)
      → All IsPriced evs
      → AreWindows t
      → ((apply_price_batch codec pid evs last t ≡ none) × Overflows evs t.symbol_returns)
        ⊎ ((t' : Tables D) × (apply_price_batch codec pid evs last t ≡ some t')
            × (t'.symbol_returns ≡ returns_after evs t.symbol_returns)
            × AreWindows t'
            × ((symbol : Str)
                → lookup symbol t'.prices_projection
                  ≡ price_after symbol evs (lookup symbol t.prices_projection))
            × (load_projection_cursor pid t' ≡ cursor_from_event last)
            × (t'.events ≡ t.events)
            × (t'.positions_projection ≡ t.positions_projection))
  unfolding apply_price_batch upsert_projection_cursor load_projection_cursor
  apply_price_batch-IsWritten laws pid evs last t h ws =
      elim (apply_prices-IsWritten laws evs t h ws) [
        | inl (e, large) ↦ inl (rw (apply_price_batch, e) refl, large)
        | inr (t', e, w) ↦ inr (
          record t' {
            projection_cursor = insert pid (cursor_from_event last) t'.projection_cursor;
          },
          rw (apply_price_batch, e) refl,
          w.returns,
          w.windows,
          w.prices,
          rw (lookup-insert, ==_refl pid) refl,
          w.events_kept,
          w.positions_kept,
        )
      ]
