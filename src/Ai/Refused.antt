-- ===== src/Ai/Refused.antt =====
-- The metrics that are filled in for a context with events are refused.
use real_time_portfolio_risk.Prelude.{
  ◌≡◌, refl, ap, ◌∙◌, Str, codes, text_eq, str_eq, str_lt, ◌==◌, ==_iff, Bool, true, false, ◌&&◌,
  List, [], ◌∷◌, none, some, Option, arith,
}
use real_time_portfolio_risk.Prelude.Ascii.{trim_left, trim_right}
use real_time_portfolio_risk.Prelude.Sort.{sort, insert_sorted}
use real_time_portfolio_risk.Ai.Validator.{
  ValidationError, bad_used_metric, unknown_symbol, has_banned_phrase, has_sql_probe, check_metrics,
  is_used_metric, strip_prefix, validate_insight_output,
}
use real_time_portfolio_risk.Ai.Metrics.{
  Context, default_used_metrics, merge_used_metrics, trimmed_from,
}
use real_time_portfolio_risk.Ai.Explain.{
  Structured, refused, recheck, repair, explain, strip_markdown_code_fence,
}

both : (Bool → Bool) → Bool
both test = test true && test false

both_sound : (test : Bool → Bool) (b : Bool) → both test ≡ true → test b ≡ true
unfolding both
both_sound test true h = ground arith
both_sound test false h = ground arith

abbrev context_of : Bool → Bool → Bool → Bool → Bool → Bool → Bool → Context
context_of a b c d e f g = record {
  market_value = a;
  unrealized_pnl = b;
  realized_pnl = c;
  var_95_1d = d;
  sigma_1d_portfolio = e;
  exposure = f;
  by_symbol = g;
  recent_events = true;
}

abbrev is_refusal : Option ValidationError → Bool
is_refusal none = false
is_refusal (some ValidationError.banned_phrase) = false
is_refusal (some ValidationError.suspicious_sql) = false
is_refusal (some (bad_used_metric m)) = m == codes "recent_events"
is_refusal (some (unknown_symbol tok)) = false

abbrev fails : Bool → Bool → Bool → Bool → Bool → Bool → Bool → Bool
fails a b c d e f g =
    is_refusal (check_metrics (default_used_metrics (some (context_of a b c d e f g))))

all_fail :
    both (λ a.
      both (λ b. both (λ c. both (λ d. both (λ e. both (λ f. both (λ g. fails a b c d e f g)))))))
    ≡ true
unfolding both check_metrics default_used_metrics sort insert_sorted is_used_metric strip_prefix
    trim_left trim_right str_eq str_lt
all_fail = refl

refusal_eq :
    (o : Option ValidationError)
    → is_refusal o ≡ true
    → o ≡ some (bad_used_metric (codes "recent_events"))
refusal_eq none h = absurd (ground (arith, h))
refusal_eq (some ValidationError.banned_phrase) h = absurd (ground (arith, h))
refusal_eq (some ValidationError.suspicious_sql) h = absurd (ground (arith, h))
refusal_eq (some (bad_used_metric m)) h =
    ap (λ t. some (bad_used_metric t)) ((==_iff m (codes "recent_events")).0 h)
refusal_eq (some (unknown_symbol tok)) h = absurd (ground (arith, h))

each_fails : (a b c d e f g : Bool) → fails a b c d e f g ≡ true
each_fails a b c d e f g =
    both_sound (λ g'. fails a b c d e f g') g
      (both_sound (λ f'. both (λ g'. fails a b c d e f' g')) f
        (both_sound (λ e'. both (λ f'. both (λ g'. fails a b c d e' f' g'))) e
          (both_sound (λ d'. both (λ e'. both (λ f'. both (λ g'. fails a b c d' e' f' g')))) d
            (both_sound
              (λ c'. both (λ d'. both (λ e'. both (λ f'. both (λ g'. fails a b c' d' e' f' g'))))) c
              (both_sound
                (λ b'. both (λ c'.
                  both (λ d'. both (λ e'. both (λ f'. both (λ g'. fails a b' c' d' e' f' g'))))))
                b
                (both_sound
                  (λ a'. both (λ b'. both (λ c'.
                    both
                      (λ d'. both (λ e'. both (λ f'. both (λ g'. fails a' b' c' d' e' f' g')))))))
                  a all_fail))))))

default-fails :
    (c : Context)
    → c.recent_events ≡ true
    → check_metrics (default_used_metrics (some c)) ≡ some (bad_used_metric (codes "recent_events"))
default-fails c h =
    ap (λ r. check_metrics (default_used_metrics (some (record c { recent_events = r })))) h
    ∙ refusal_eq _ (
        each_fails c.market_value c.unrealized_pnl c.realized_pnl c.var_95_1d c.sigma_1d_portfolio
          c.exposure c.by_symbol)

merged :
    (paths : List Str) (context : Option Context)
    → trimmed_from [] paths ≡ []
    → merge_used_metrics paths context ≡ default_used_metrics context
unfolding merge_used_metrics
merged paths context h = ap (λ l. elim l [ [] ↦ default_used_metrics context | p ∷ ps ↦ p ∷ ps ]) h

invalid_lem :
    (allow : List Str) (full : Str) (metrics : List Str) (e : ValidationError)
    → (full == []) ≡ false
    → has_banned_phrase full ≡ false
    → has_sql_probe full ≡ false
    → check_metrics metrics ≡ some e
    → validate_insight_output allow full metrics ≡ some e
unfolding validate_insight_output
invalid_lem allow full metrics e z p q m = rw (validate_insight_output, z, p, q, m) refl

repaired :
    (unmarshal : Str → Structured) (allow : List Str) (full : Str) (metrics : List Str)
    → validate_insight_output allow full metrics ≡ some (bad_used_metric (codes "recent_events"))
    → repair unmarshal allow (bad_used_metric (codes "recent_events")) full metrics
      ≡ refused (bad_used_metric (codes "recent_events"))
unfolding repair
repaired unmarshal allow full metrics e = rw (recheck, e) refl

-- A reply that is not empty, has no banned phrase and no probe, and names no metrics, on a context
-- with a recent event, is always refused: the path "recent_events", which is filled in, is none
-- that the check of the paths allows.
pub explain-refused_for_events :
    (unmarshal : Str → Structured) (allow : List Str) (c : Context) (reply : Str)
    → let full = strip_markdown_code_fence reply in
      (full == []) ≡ false
      → has_banned_phrase full ≡ false
      → has_sql_probe full ≡ false
      → trimmed_from [] (unmarshal full).used_metrics ≡ []
      → c.recent_events ≡ true
      → explain unmarshal allow (some c) reply ≡ refused (bad_used_metric (codes "recent_events"))
unfolding explain
explain-refused_for_events unmarshal allow c reply some_text clean no_probe no_metrics events =
    let full = strip_markdown_code_fence reply in
    let metrics = merge_used_metrics (unmarshal full).used_metrics (some c) in
    let invalid = invalid_lem allow full metrics _ some_text clean no_probe (
      ap check_metrics (merged (unmarshal full).used_metrics (some c) no_metrics)
      ∙ default-fails c events) in
    rw (explain, invalid) (repaired unmarshal allow full metrics invalid)
