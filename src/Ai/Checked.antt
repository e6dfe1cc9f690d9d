-- ===== src/Ai/Checked.antt =====
-- What a client is given was checked.
use real_time_portfolio_risk.Prelude.{
  ◌≡◌, refl, ◌⊎◌, inl, inr, Str, text_eq, ◌==◌, ==_iff, Bool, true, Bool-cases, List, [], ◌∷◌, none,
  some, Option, Option-cases, All, arith,
}
use real_time_portfolio_risk.Ai.Tickers.{find_tickers, pieces}
use real_time_portfolio_risk.Ai.Validator.{
  ValidationError, unknown_symbol, has_banned_phrase, has_sql_probe, check_metrics,
  is_known_ticker_token, check_tokens, validate_insight_output, sanitize_unknown_ticker_tokens,
}
use real_time_portfolio_risk.Ai.Metrics.{Context, merge_used_metrics}
use real_time_portfolio_risk.Ai.Explain.{
  Structured, structured_ok, Outcome, explained, refused, output, recheck, repair, explain,
  strip_markdown_code_fence,
}

check_tokens-AllKnown :
    (known : Str → Bool) (toks : List Str)
    → check_tokens known toks ≡ none
    → All (λ tok. known tok ≡ true) toks
unfolding check_tokens
check_tokens-AllKnown known [] e = tt
check_tokens-AllKnown known (tok ∷ toks) e = elim (Bool-cases (known tok)) [
  | inl k ↦ (k, check_tokens-AllKnown known toks (rw k at e))
  | inr k ↦ absurd (ground (arith, rw k at e))
]

module _ (unmarshal : Str → Structured) (allow : List Str) where
  abbrev pub AllKnown : Str → Type 0
  AllKnown full = All (λ tok. is_known_ticker_token allow tok ≡ true) (find_tickers full)

  valid-AllKnown :
      (full : Str) (metrics : List Str)
      → validate_insight_output allow full metrics ≡ none
      → AllKnown full
  unfolding validate_insight_output pieces
  valid-AllKnown [] metrics e = tt
  valid-AllKnown (b ∷ s) metrics e =
      let full : Str = b ∷ s in
      elim (Bool-cases (full == [])) [
        | inl z ↦ absurd (ground (arith, (==_iff full []).0 z))
        | inr z ↦ elim (Bool-cases (has_banned_phrase full)) [
          | inl p ↦ absurd (ground (arith, rw (validate_insight_output, z, p) at e))
          | inr p ↦ elim (Bool-cases (has_sql_probe full)) [
            | inl q ↦ absurd (ground (arith, rw (validate_insight_output, z, p, q) at e))
            | inr q ↦ elim (Option-cases (check_metrics metrics)) [
              | inr (err, m) ↦
                  absurd (ground (arith, rw (validate_insight_output, z, p, q, m) at e))
              | inl m ↦
                  check_tokens-AllKnown (is_known_ticker_token allow) (find_tickers full)
                    (rw (validate_insight_output, z, p, q, m) at e)
            ]
          ]
        ]
      ]

  -- What a client gets is a text that passed every check, with these metrics, and in which every
  -- token is known, or the narrative that such a text decodes to.
  abbrev pub IsChecked : Outcome → Type 0
  IsChecked (explained e metrics) =
      (full : Str) × (validate_insight_output allow full metrics ≡ none)
      × AllKnown full
      × ((e ≡ full) ⊎ ((structured_ok (unmarshal full) ≡ true) × (e ≡ (unmarshal full).narrative)))
  IsChecked (refused e) =
      (full : Str) × (metrics : List Str) × (validate_insight_output allow full metrics ≡ some e)

  output-IsChecked :
      (full : Str) (metrics : List Str)
      → validate_insight_output allow full metrics ≡ none
      → IsChecked (output unmarshal allow full metrics)
  output-IsChecked full metrics e = elim (Bool-cases (structured_ok (unmarshal full))) [
    | inl s ↦ (full, e, valid-AllKnown full metrics e, rw s (inr (refl, refl)))
    | inr s ↦ (full, e, valid-AllKnown full metrics e, rw s (inl refl))
  ]

  recheck-IsChecked :
      (full : Str) (metrics : List Str) → IsChecked (recheck unmarshal allow full metrics)
  recheck-IsChecked full metrics =
      elim (Option-cases (validate_insight_output allow full metrics)) [
        | inl e ↦ rw (recheck, e) (output-IsChecked full metrics e)
        | inr (err, e) ↦ rw (recheck, e) (full, metrics, e)
      ]

  repair-IsChecked :
      (e : ValidationError) (full : Str) (metrics : List Str)
      → IsChecked (repair unmarshal allow e full metrics)
  unfolding repair
  repair-IsChecked (unknown_symbol tok) full metrics =
      let sanitized = sanitize_unknown_ticker_tokens full allow in
      elim (Bool-cases (sanitized == full)) [
        | inl same ↦ rw same (recheck-IsChecked full metrics)
        | inr changed ↦ elim (Option-cases (validate_insight_output allow sanitized metrics)) [
          | inl e ↦ rw (changed, e) (recheck-IsChecked sanitized metrics)
          | inr (err, e) ↦ rw (changed, e) (recheck-IsChecked full metrics)
        ]
      ]
  repair-IsChecked ValidationError.banned_phrase full metrics = recheck-IsChecked full metrics
  repair-IsChecked ValidationError.suspicious_sql full metrics = recheck-IsChecked full metrics
  repair-IsChecked (ValidationError.bad_used_metric m) full metrics = recheck-IsChecked full metrics

  -- Whatever the model replies, the outcome is an explanation that is a text which passed every
  -- check, in which every token that looks like a symbol is known, or the narrative that such a
  -- text decodes to; or it is an error that a check of a text gave.
  pub explain-IsChecked :
      (context : Option Context) (reply : Str) → IsChecked (explain unmarshal allow context reply)
  unfolding explain
  explain-IsChecked context reply =
      let full = strip_markdown_code_fence reply in
      let metrics = merge_used_metrics (unmarshal full).used_metrics context in
      elim (Option-cases (validate_insight_output allow full metrics)) [
        | inl e ↦ rw (explain, e) (output-IsChecked full metrics e)
        | inr (err, e) ↦ rw (explain, e) (repair-IsChecked err full metrics)
      ]
