-- ===== src/Tests/Ai.antt =====
-- Replies of a model.
use real_time_portfolio_risk.Prelude.{
  codes, Str, text_eq, List, [], ◌∷◌, ◌≡◌, refl, true, false, none, some, str_eq, All,
}
use real_time_portfolio_risk.Prelude.Ascii.{trim_left, trim_right}
use real_time_portfolio_risk.Ai.Tickers.{find_tickers, replace_tickers}
use real_time_portfolio_risk.Ai.Sanitized.{replace_tickers-AllKnown}
use real_time_portfolio_risk.Ai.Validator.{
  is_known_ticker_token, bad_used_metric, has_banned_phrase, has_sql_probe, strip_prefix,
  strip_letter, strip_text, starts_with, drop_blanks,
}
use real_time_portfolio_risk.Ai.Metrics.{Context, trimmed_from}
use real_time_portfolio_risk.Ai.Explain.{
  Structured, refused, explain, strip_markdown_code_fence, before_last,
}
use real_time_portfolio_risk.Ai.Checked.{IsChecked, explain-IsChecked}
use real_time_portfolio_risk.Ai.Refused.{explain-refused_for_events}

abbrev allow : List Str
allow = codes "ACME" ∷ []

replace_tickers-AllKnown_example :
    let known = is_known_ticker_token allow in
    let full = codes "ACME beats TSLA." in
    All (λ tok. known tok ≡ true) (find_tickers (replace_tickers known full))
    × (replace_tickers known (replace_tickers known full) ≡ replace_tickers known full)
replace_tickers-AllKnown_example =
    replace_tickers-AllKnown (is_known_ticker_token allow) (codes "ACME beats TSLA.")

abbrev unmarshal : Str → Structured
unmarshal s = record { decoded = false; narrative = []; used_metrics = [] }

explain-IsChecked_example :
    IsChecked unmarshal allow (explain unmarshal allow none (codes "ACME beats TSLA."))
explain-IsChecked_example = explain-IsChecked unmarshal allow none (codes "ACME beats TSLA.")

abbrev context : Context
context = record {
  market_value = true;
  unrealized_pnl = true;
  realized_pnl = false;
  var_95_1d = true;
  sigma_1d_portfolio = false;
  exposure = true;
  by_symbol = false;
  recent_events = true;
}

abbrev reply : Str
reply = codes "It rose."

not_fenced : strip_markdown_code_fence reply ≡ reply
unfolding strip_markdown_code_fence before_last strip_prefix trim_left trim_right
not_fenced = refl

clean : has_banned_phrase (strip_markdown_code_fence reply) ≡ false
unfolding strip_markdown_code_fence before_last strip_prefix trim_left trim_right has_banned_phrase
    strip_text strip_letter str_eq
clean = refl

no_probe : has_sql_probe (strip_markdown_code_fence reply) ≡ false
unfolding strip_markdown_code_fence before_last strip_prefix trim_left trim_right has_sql_probe
    starts_with drop_blanks strip_text strip_letter str_eq
no_probe = refl

explain-refused_for_events_example :
    explain unmarshal allow (some context) reply ≡ refused (bad_used_metric (codes "recent_events"))
unfolding strip_markdown_code_fence before_last strip_prefix trim_left trim_right str_eq
    trimmed_from
explain-refused_for_events_example =
    explain-refused_for_events unmarshal allow context reply refl clean no_probe refl refl
