-- ===== src/Portfolio/View/Types.antt =====
-- internal/portfolio/view.go: the inputs of the read model and what it returns.
use real_time_portfolio_risk.Prelude.{Str, Bool, List, Option}
use real_time_portfolio_risk.Prelude.Dict.{Dict}
use real_time_portfolio_risk.Clock.{Time, Uuid}

pub record ReadAsOfRef : Type 0 where
  pub event_id : Uuid
  pub event_time : Time
  pub processing_time : Option Time

pub record PriceMarkAsOf : Type 0 where
  pub symbol : Str
  pub event_id : Uuid
  pub event_time : Time
  pub processing_time : Option Time

pub record PortfolioPosition : Type 0 where
  pub symbol : Str
  pub quantity : Str
  pub average_cost : Str
  pub realized_pnl : Str
  pub last_price : Str
  pub market_value : Str
  pub unrealized_pnl : Str

pub record ApplyCursorMeta : Type 0 where
  pub event_id : Uuid
  pub event_time : Time
  pub processing_time : Time

pub record PriceMarkInput (D : Type 0) : Type 0 where
  pub price : D
  pub as_of_event_id : Uuid
  pub as_of_event_time : Time
  pub processing_time : Time

pub record ProjectionRow (D : Type 0) : Type 0 where
  pub symbol : Str
  pub quantity : D
  pub average_cost : D
  pub realized_pnl : D

pub record PortfolioAssemblerInput (D : Type 0) : Type 0 where
  pub portfolio_id : Uuid
  pub positions : List (ProjectionRow D)
  pub price_by_symbol : Dict Str (PriceMarkInput D)
  pub trade_apply : Option ApplyCursorMeta

pub record MarkToMarketRow (D : Type 0) : Type 0 where
  pub row : ProjectionRow D
  pub last_price : D
  pub has_price : Bool
  pub market_value : D
  pub unrealized_pnl : D

pub record PortfolioTotals (D : Type 0) : Type 0 where
  pub total_market_value : D
  pub total_unrealized_pnl : D
  pub total_realized_pnl : D

pub record PortfolioTotalsView : Type 0 where
  pub market_value : Str
  pub realized_pnl : Str
  pub unrealized_pnl : Str

pub record PortfolioView : Type 0 where
  pub portfolio_id : Uuid
  pub positions : List PortfolioPosition
  pub unpriced_symbols : List Str
  pub totals : PortfolioTotalsView
  pub driving_event_ids : List Uuid
  pub as_of_positions : Option ReadAsOfRef
  pub as_of_prices : List PriceMarkAsOf
  pub as_of_event_id : Option Uuid
  pub as_of_event_time : Option Time
  pub as_of_processing_time : Option Time

pub data AssemblerError : Type 0 where
  portfolio_id_required : AssemblerError
  duplicate_position_symbol : Str → AssemblerError

pub data Assembled : Type 0 where
  assembled : PortfolioView → Assembled
  refused : AssemblerError → Assembled
