-- ===== src/Ai/Explain.antt =====
-- internal/ai/explain.go: what becomes of the reply of the model.
use real_time_portfolio_risk.Prelude.{
  Str, codes, text_eq, ◌==◌, Bool, true, false, not, ◌&&◌, ◌||◌, List, [], ◌∷◌, none, some, Option,
  if◌then◌else◌, get_or_else,
}
use real_time_portfolio_risk.Prelude.Ascii.{trim_space}
use real_time_portfolio_risk.Ai.Validator.{
  ValidationError, unknown_symbol, strip_prefix, validate_insight_output,
  sanitize_unknown_ticker_tokens,
}
use real_time_portfolio_risk.Ai.Metrics.{Context, merge_used_metrics}

-- The text before the last occurrence of a mark.
unfoldable pub before_last : Str → Str → Option Str
before_last mark [] = if mark == [] then some [] else none
before_last mark (b ∷ s) = elim (before_last mark s) [
  | some t ↦ some (b ∷ t)
  | none ↦ elim (strip_prefix mark (b ∷ s)) [ none ↦ none | some rest ↦ some [] ]
]

abbrev pub fence : Str
fence = codes "```"

-- `strings.TrimPrefix`
abbrev pub trim_prefix : Str → Str → Str
trim_prefix p s = get_or_else (strip_prefix p s) s

unfoldable pub strip_markdown_code_fence : Str → Str
unfolding before_last
strip_markdown_code_fence raw =
    let s = trim_space raw in
    elim (strip_prefix fence s) [
      | none ↦ trim_space s
      | some rest ↦
          let body = trim_space (trim_prefix (codes "json") rest) in
          elim (before_last fence body) [
            | none ↦ trim_space body
            | some t ↦ trim_space (trim_space t)
          ]
    ]

-- What `json.Unmarshal` leaves in the struct, and whether it had no error.
pub record Structured : Type 0 where
  pub decoded : Bool
  pub narrative : Str
  pub used_metrics : List Str

abbrev pub is_empty : List Str → Bool
is_empty [] = true
is_empty (m ∷ ms) = false

abbrev pub structured_ok : Structured → Bool
structured_ok s = s.decoded && (not (s.narrative == []) || not (is_empty s.used_metrics))

pub data Outcome : Type 0 where
  explained : Str → List Str → Outcome
  refused : ValidationError → Outcome

module _ (unmarshal : Str → Structured) (allow : List Str) where
  -- The output for a text that passed.
  abbrev pub output : Str → List Str → Outcome
  output text metrics =
      let s = unmarshal text in explained (if structured_ok s then s.narrative else text) metrics

  -- The last check of a text.
  abbrev pub recheck : Str → List Str → Outcome
  recheck text metrics = elim (validate_insight_output allow text metrics) [
    | none ↦ output text metrics
    | some e ↦ refused e
  ]

  -- After the first check failed: an unknown symbol is replaced, if that is enough.
  unfoldable pub repair : ValidationError → Str → List Str → Outcome
  repair (unknown_symbol tok) text metrics =
      let sanitized = sanitize_unknown_ticker_tokens text allow in
      if sanitized == text
      then recheck text metrics
      else elim (validate_insight_output allow sanitized metrics) [
        | none ↦ recheck sanitized metrics
        | some e ↦ recheck text metrics
      ]
  repair ValidationError.banned_phrase text metrics = recheck text metrics
  repair ValidationError.suspicious_sql text metrics = recheck text metrics
  repair (ValidationError.bad_used_metric m) text metrics = recheck text metrics

  -- `Explain`, from the reply of the model on.
  unfoldable pub explain : Option Context → Str → Outcome
  unfolding repair
  explain context reply =
      let text = strip_markdown_code_fence reply in
      let metrics = merge_used_metrics (unmarshal text).used_metrics context in
      elim (validate_insight_output allow text metrics) [
        | none ↦ output text metrics
        | some e ↦ repair e text metrics
      ]
