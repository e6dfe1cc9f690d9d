-- ===== src/Ai/Metrics.antt =====
-- internal/ai/used_metrics_fallback.go, and `mergeUsedMetrics` of explain.go.
use real_time_portfolio_risk.Prelude.{
  Str, codes, text_eq, str_lt, ◌==◌, Bool, List, [], ◌∷◌, ◌++◌, none, some, Option, if◌then◌else◌,
}
use real_time_portfolio_risk.Prelude.Sort.{sort}
use real_time_portfolio_risk.Prelude.Ascii.{trim_space}
use real_time_portfolio_risk.PriceFeed.Symbols.{has_text}

-- What is read of the context: whether each of these fields is a text that is not empty, and
-- whether each of the lists has an element.
pub record Context : Type 0 where
  pub market_value : Bool
  pub unrealized_pnl : Bool
  pub realized_pnl : Bool
  pub var_95_1d : Bool
  pub sigma_1d_portfolio : Bool
  pub exposure : Bool
  pub by_symbol : Bool
  pub recent_events : Bool

abbrev pub listed : Bool → Str → List Str
listed there path = if there then path ∷ [] else []

-- The paths in the order of the code; all are different, so none is left out as seen.
abbrev pub paths_of : Context → List Str
paths_of c =
    listed c.market_value (codes "portfolio.totals.market_value")
    ++ listed c.unrealized_pnl (codes "portfolio.totals.unrealized_pnl")
    ++ listed c.realized_pnl (codes "portfolio.totals.realized_pnl")
    ++ listed c.var_95_1d (codes "risk.var_95_1d")
    ++ listed c.sigma_1d_portfolio (codes "risk.volatility.sigma_1d_portfolio")
    ++ listed c.exposure (codes "risk.exposure")
    ++ listed c.by_symbol (codes "risk.volatility.by_symbol")
    ++ listed c.recent_events (codes "recent_events")

-- `DefaultUsedMetricsFromContextJSON`; `none` is a context that does not decode.
unfoldable pub default_used_metrics : Option Context → List Str
default_used_metrics none = []
default_used_metrics (some c) = sort str_lt (paths_of c)

unfoldable pub trimmed_from : List Str → List Str → List Str
trimmed_from seen [] = []
trimmed_from seen (raw ∷ paths) =
    let p = trim_space raw in
    let rest = trimmed_from seen paths in
    let taken = trimmed_from (p ∷ seen) paths in
    if p == [] then rest else if has_text p seen then rest else p ∷ taken

-- `mergeUsedMetrics`
unfoldable pub merge_used_metrics : List Str → Option Context → List Str
unfolding trimmed_from default_used_metrics
merge_used_metrics model_paths context = elim (trimmed_from [] model_paths) [
  | [] ↦ default_used_metrics context
  | p ∷ ps ↦ p ∷ ps
]
