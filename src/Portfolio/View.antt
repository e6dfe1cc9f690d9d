-- ===== src/Portfolio/View.antt =====
-- internal/portfolio/view.go: the read model of a portfolio. The text of the portfolio's id is left
-- out, and `UTC()` keeps the instant. A pointer is an option, and a text that JSON omits is empty.
mod Types
pub mod Totals
pub mod Lineage
pub use Types.*
use real_time_portfolio_risk.Prelude.{
  ℕ, nat_eq, ltb, Str, text_eq, ◌==◌, str_lt, Bool, true, false, not, ◌&&◌, ◌||◌, List, [], ◌∷◌,
  ◌++◌, map, none, some, Option, if◌then◌else◌, length,
}
use real_time_portfolio_risk.Prelude.Dict.{Dict, lookup}
use real_time_portfolio_risk.Prelude.Sort.{sort}
use real_time_portfolio_risk.Clock.{Time, Uuid, nil_uuid, zero_time, is_zero_time, before, after}
use real_time_portfolio_risk.Decimal.{Decimal}

abbrev pub known_time : Time → Option Time
known_time t = if is_zero_time t then none else some t

unfoldable pub apply_meta_less : ApplyCursorMeta → ApplyCursorMeta → Bool
apply_meta_less a b =
    if not (a.event_time == b.event_time)
    then before a.event_time b.event_time
    else ltb a.event_id b.event_id

-- A set of ids, grown one by one.
abbrev pub add_id : Uuid → List Uuid → List Uuid
add_id id [] = id ∷ []
add_id id (i ∷ ids) = if i == id then i ∷ ids else i ∷ add_id id ids

abbrev pub trade_lineage : Option ApplyCursorMeta → Option ApplyCursorMeta
trade_lineage none = none
trade_lineage (some t) = if t.event_id == nil_uuid then none else some t

-- The lineage of the positions, from the trade cursor.
unfoldable pub positions_as_of : Option ApplyCursorMeta → Option ReadAsOfRef
positions_as_of trade = elim (trade_lineage trade) [
  | none ↦ none
  | some t ↦ some (record {
    event_id = t.event_id;
    event_time = t.event_time;
    processing_time = known_time t.processing_time;
  })
]

module _ {D : Type 0} where
  -- One round of the loop of `mergeAsOfCursor`.
  unfoldable pub merge_mark : Option ApplyCursorMeta → PriceMarkInput D → Option ApplyCursorMeta
  merge_mark best p =
      let cand : ApplyCursorMeta = record {
        event_id = p.as_of_event_id;
        event_time = p.as_of_event_time;
        processing_time = p.processing_time;
      } in
      if p.as_of_event_id == nil_uuid then best else elim best [
        | none ↦ some cand
        | some b ↦ if apply_meta_less b cand then some cand else some b
      ]

  unfoldable pub merge_marks :
      Option ApplyCursorMeta → Dict Str (PriceMarkInput D) → Option ApplyCursorMeta
  merge_marks best [] = best
  merge_marks best ((s, p) ∷ prices) = merge_marks (merge_mark best p) prices

  -- `mergeAsOfCursor`; no result is the nil id with the zero time.
  unfoldable pub merge_as_of_cursor :
      Option ApplyCursorMeta → Dict Str (PriceMarkInput D) → Uuid × Time
  unfolding merge_marks
  merge_as_of_cursor trade prices = elim (merge_marks (trade_lineage trade) prices) [
    | none ↦ (nil_uuid, zero_time)
    | some best ↦ (best.event_id, best.event_time)
  ]

  abbrev pub mark_ids : List Uuid → Dict Str (PriceMarkInput D) → List Uuid
  mark_ids ids [] = ids
  mark_ids ids ((s, p) ∷ prices) =
      mark_ids (if p.as_of_event_id == nil_uuid then ids else add_id p.as_of_event_id ids) prices

  unfoldable pub collect_driving_event_ids :
      Option ApplyCursorMeta → Dict Str (PriceMarkInput D) → List Uuid
  collect_driving_event_ids trade prices =
      sort ltb
        (mark_ids (elim (trade_lineage trade) [ none ↦ [] | some t ↦ t.event_id ∷ [] ]) prices)

  abbrev pub latest_mark : Option Time → Dict Str (PriceMarkInput D) → Option Time
  latest_mark latest [] = latest
  latest_mark latest ((s, p) ∷ prices) =
      latest_mark
        (if is_zero_time p.processing_time then latest else elim latest [
          | none ↦ some p.processing_time
          | some t ↦ if after p.processing_time t then some p.processing_time else some t
        ])
        prices

  unfoldable pub merge_latest_processing_time :
      Option ApplyCursorMeta → Dict Str (PriceMarkInput D) → Option Time
  merge_latest_processing_time none prices = latest_mark none prices
  merge_latest_processing_time (some t) prices = latest_mark (known_time t.processing_time) prices

  -- The first symbol that stands twice, if there is one.
  unfoldable pub duplicate_symbol : List Str → List (ProjectionRow D) → Option Str
  duplicate_symbol seen [] = none
  duplicate_symbol seen (p ∷ positions) =
      if is_seen p.symbol seen then some p.symbol else duplicate_symbol (p.symbol ∷ seen) positions
    where
      is_seen : Str → List Str → Bool
      is_seen s [] = false
      is_seen s (t ∷ ts) = if t == s then true else is_seen s ts

  -- The lineage of the marks in the order of their symbols.
  unfoldable pub prices_as_of : List Str → Dict Str (PriceMarkInput D) → List PriceMarkAsOf
  prices_as_of [] prices = []
  prices_as_of (s ∷ symbols) prices =
      let rest = prices_as_of symbols prices in
      elim (lookup s prices) [
        | none ↦ rest
        | some pm ↦
            if pm.as_of_event_id == nil_uuid
            then rest
            else record {
              symbol = s;
              event_id = pm.as_of_event_id;
              event_time = pm.as_of_event_time;
              processing_time = known_time pm.processing_time;
            }
              ∷ rest
      ]

  -- The one tuple of the view: none where both partitions contribute.
  unfoldable pub fused_as_of :
      Option ReadAsOfRef
      → List PriceMarkAsOf
      → Dict Str (PriceMarkInput D)
      → Option Uuid × Option Time × Option Time
  unfolding merge_as_of_cursor merge_latest_processing_time
  fused_as_of (some ref) (item ∷ items) prices = (none, none, none)
  fused_as_of (some ref) [] prices = (some ref.event_id, some ref.event_time, ref.processing_time)
  fused_as_of none (item ∷ items) prices =
      let (id, time) = merge_as_of_cursor none prices in
      (
        (if id == nil_uuid then none else some id),
        known_time time,
        merge_latest_processing_time none prices,
      )
  fused_as_of none [] prices = (none, none, none)

module _ {D : Type 0} ⦃d : Decimal D⦄ where
  unfoldable pub mark_to_market : ProjectionRow D → D → Bool → MarkToMarketRow D
  mark_to_market row last_price has_price =
      let out : MarkToMarketRow D = record {
        row = row;
        last_price = last_price;
        has_price = has_price;
        market_value = d.nought;
        unrealized_pnl = d.nought;
      } in
      if not has_price || d.is_zero row.quantity then out else record out {
        market_value = d.mul last_price row.quantity;
        unrealized_pnl = d.mul (d.sub last_price row.average_cost) row.quantity;
      }

  -- One round of the loop of `SumTotals`.
  unfoldable pub add_totals : PortfolioTotals D → MarkToMarketRow D → PortfolioTotals D
  add_totals t r =
      let t' = record t { total_realized_pnl = d.add t.total_realized_pnl r.row.realized_pnl } in
      if r.has_price && not (d.is_zero r.row.quantity)
      then record t' {
        total_market_value = d.add t.total_market_value r.market_value;
        total_unrealized_pnl = d.add t.total_unrealized_pnl r.unrealized_pnl;
      }
      else t'

  unfoldable pub sum_from : PortfolioTotals D → List (MarkToMarketRow D) → PortfolioTotals D
  sum_from t [] = t
  sum_from t (r ∷ rows) = sum_from (add_totals t r) rows

  unfoldable pub sum_totals : List (MarkToMarketRow D) → PortfolioTotals D
  sum_totals rows =
      sum_from
        (record {
          total_market_value = d.nought;
          total_unrealized_pnl = d.nought;
          total_realized_pnl = d.nought;
        })
        rows

  -- The price of a symbol, with the zero price where there is no mark, and whether it counts.
  unfoldable pub price_of : Str → Dict Str (PriceMarkInput D) → D × Bool
  price_of s prices = elim (lookup s prices) [
    | none ↦ (d.nought, false)
    | some pm ↦ (pm.price, not (d.is_zero pm.price))
  ]

  unfoldable pub marked : Dict Str (PriceMarkInput D) → ProjectionRow D → MarkToMarketRow D
  unfolding price_of
  marked prices row =
      let (price, has_price) = price_of row.symbol prices in mark_to_market row price has_price

  unfoldable pub position_row : MarkToMarketRow D → PortfolioPosition
  position_row mr =
      let open_row = mr.has_price && not (d.is_zero mr.row.quantity) in
      record {
        symbol = mr.row.symbol;
        quantity = d.to_string mr.row.quantity;
        average_cost = d.to_string mr.row.average_cost;
        realized_pnl = d.to_string mr.row.realized_pnl;
        last_price = if mr.has_price then d.to_string mr.last_price else [];
        market_value = if open_row then d.to_string mr.market_value else [];
        unrealized_pnl = if open_row then d.to_string mr.unrealized_pnl else [];
      }

  unfoldable pub unpriced_of : List (MarkToMarketRow D) → List Str
  unpriced_of [] = []
  unpriced_of (mr ∷ rows) =
      if not (d.is_zero mr.row.quantity) && not mr.has_price
      then mr.row.symbol ∷ unpriced_of rows
      else unpriced_of rows

  abbrev pub symbols_of : Dict Str (PriceMarkInput D) → List Str
  symbols_of [] = []
  symbols_of ((s, p) ∷ prices) = s ∷ symbols_of prices

  unfoldable pub assemble_portfolio_view : PortfolioAssemblerInput D → Assembled
  assemble_portfolio_view input =
      let prices = input.price_by_symbol in
      let mtm = map (marked prices) (sort (λ a b. str_lt a.symbol b.symbol) input.positions) in
      let tot = sum_totals mtm in
      let as_of_pos = positions_as_of input.trade_apply in
      let as_of_prices = prices_as_of (sort str_lt (symbols_of prices)) prices in
      let (id, time, processing) = fused_as_of as_of_pos as_of_prices prices in
      if input.portfolio_id == nil_uuid
      then refused portfolio_id_required
      else elim (duplicate_symbol [] input.positions) [
        | some s ↦ refused (duplicate_position_symbol s)
        | none ↦ assembled (record {
          portfolio_id = input.portfolio_id;
          positions = map position_row mtm;
          unpriced_symbols = unpriced_of mtm;
          totals = record {
            market_value = d.to_string tot.total_market_value;
            realized_pnl = d.to_string tot.total_realized_pnl;
            unrealized_pnl = d.to_string tot.total_unrealized_pnl;
          };
          driving_event_ids = collect_driving_event_ids input.trade_apply prices;
          as_of_positions = as_of_pos;
          as_of_prices = as_of_prices;
          as_of_event_id = id;
          as_of_event_time = time;
          as_of_processing_time = processing;
        })
      ]
