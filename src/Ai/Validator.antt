-- ===== src/Ai/Validator.antt =====
-- internal/ai/validator.go: the checks of a model's text.
use real_time_portfolio_risk.Prelude.{
  ℕ, ◌+◌, Str, codes, text_eq, nat_eq, ◌==◌, nat_beq, Bool, true, false, not, ◌||◌, List, [], ◌∷◌,
  none, some, Option, if◌then◌else◌,
}
use real_time_portfolio_risk.Prelude.Ascii.{trim_left, trim_right, trim_space}
use real_time_portfolio_risk.PriceFeed.Symbols.{has_text}
use real_time_portfolio_risk.Ai.Stoplists.{
  banned_phrases, english_ticker_stoplist, finance_ticker_stoplist,
}
use real_time_portfolio_risk.Ai.Tickers.{is_capital, find_tickers, replace_tickers}

pub data ValidationError : Type 0 where
  banned_phrase suspicious_sql : ValidationError
  bad_used_metric unknown_symbol : Str → ValidationError

abbrev pub lower_byte : ℕ → ℕ
lower_byte b = if is_capital b then b + 32 else b

-- The bytes of the character beside its capital that is taken for a letter, if there is one: by
-- `strings.ToLower` the dotted capital I and the Kelvin sign, by a regular expression without case
-- the long s and the Kelvin sign.
abbrev pub lowered_as : ℕ → Str
lowered_as b =
    if nat_beq b 105 then 196 ∷ 176 ∷ [] else if nat_beq b 107 then 226 ∷ 132 ∷ 170 ∷ [] else []

abbrev pub folded_as : ℕ → Str
folded_as b =
    if nat_beq b 115 then 197 ∷ 191 ∷ [] else if nat_beq b 107 then 226 ∷ 132 ∷ 170 ∷ [] else []

-- The text after a prefix.
unfoldable pub strip_prefix : Str → Str → Option Str
strip_prefix [] s = some s
strip_prefix (b ∷ p) [] = none
strip_prefix (b ∷ p) (c ∷ s) = if c == b then strip_prefix p s else none

-- The text after one byte of a pattern in lower case.
unfoldable pub strip_letter : (ℕ → Str) → ℕ → Str → Option Str
unfolding strip_prefix
strip_letter other b [] = none
strip_letter other b (c ∷ s) =
    if lower_byte c == b
    then some s
    else if other b == []
    then none
    else strip_prefix (other b) (c ∷ s)

unfoldable pub strip_text : (ℕ → Str) → Str → Str → Option Str
unfolding strip_letter
strip_text other [] s = some s
strip_text other (b ∷ p) s = elim (strip_letter other b s) [
  | none ↦ none
  | some rest ↦ strip_text other p rest
]

-- The parts of an alternative of `sqlProbeRE`: a text, `\s+` and `\s*`.
pub data Part : Type 0 where
  text : Str → Part
  gap maybe_gap : Part

-- The class `\s`, which has no vertical tab.
abbrev pub is_blank : ℕ → Bool
is_blank b = nat_beq b 32 || nat_beq b 9 || nat_beq b 10 || nat_beq b 12 || nat_beq b 13

unfoldable pub drop_blanks : Str → Str
drop_blanks [] = []
drop_blanks (b ∷ s) = if is_blank b then drop_blanks s else b ∷ s

-- A gap is as long as it can be: what follows it in the patterns is no blank.
unfoldable pub starts_with : List Part → Str → Bool
unfolding strip_text drop_blanks
starts_with [] s = true
starts_with (text p ∷ ps) s = elim (strip_text folded_as p s) [
  | none ↦ false
  | some rest ↦ starts_with ps rest
]
starts_with (maybe_gap ∷ ps) s = starts_with ps (drop_blanks s)
starts_with (gap ∷ ps) [] = false
starts_with (gap ∷ ps) (b ∷ s) = if is_blank b then starts_with ps (drop_blanks s) else false

abbrev pub sql_probes : List (List Part)
sql_probes =
    (text (codes "union") ∷ gap ∷ text (codes "all") ∷ gap ∷ text (codes "select") ∷ [])
    ∷ (text (codes "union") ∷ gap ∷ text (codes "select") ∷ [])
    ∷ (text (codes ";") ∷ maybe_gap ∷ text (codes "drop") ∷ gap ∷ text (codes "table") ∷ [])
    ∷ (text (codes ";") ∷ maybe_gap ∷ text (codes "delete") ∷ gap ∷ text (codes "from") ∷ [])
    ∷ (text (codes "into") ∷ gap ∷ text (codes "outfile") ∷ [])
    ∷ (text (codes "exec") ∷ maybe_gap ∷ text (codes "(") ∷ [])
    ∷ (text (codes "xp_cmdshell") ∷ [])
    ∷ []

abbrev pub starts_with_any : List (List Part) → Str → Bool
starts_with_any [] s = false
starts_with_any (p ∷ ps) s = if starts_with p s then true else starts_with_any ps s

unfoldable pub has_sql_probe : Str → Bool
unfolding starts_with
has_sql_probe [] = starts_with_any sql_probes []
has_sql_probe (b ∷ s) = if starts_with_any sql_probes (b ∷ s) then true else has_sql_probe s

abbrev pub begins_banned : List Str → Str → Bool
begins_banned [] s = false
begins_banned (p ∷ ps) s = elim (strip_text lowered_as p s) [
  | none ↦ begins_banned ps s
  | some rest ↦ true
]

-- A phrase is in the text in lower case.
unfoldable pub has_banned_phrase : Str → Bool
unfolding strip_text
has_banned_phrase [] = begins_banned banned_phrases []
has_banned_phrase (b ∷ s) =
    if begins_banned banned_phrases (b ∷ s) then true else has_banned_phrase s

-- `^(portfolio|risk|recent_events)(\.|\[)`
abbrev pub opens_path : Option Str → Bool
opens_path none = false
opens_path (some []) = false
opens_path (some (b ∷ s)) = nat_beq b 46 || nat_beq b 91

unfoldable pub is_used_metric : Str → Bool
unfolding strip_prefix
is_used_metric m =
    opens_path (strip_prefix (codes "portfolio") m)
    || opens_path (strip_prefix (codes "risk") m)
    || opens_path (strip_prefix (codes "recent_events") m)

-- The loop over the paths.
unfoldable pub check_metrics : List Str → Option ValidationError
unfolding is_used_metric trim_left trim_right
check_metrics [] = none
check_metrics (raw ∷ metrics) =
    let m = trim_space raw in
    let rest = check_metrics metrics in
    if m == [] then rest else if not (is_used_metric m) then some (bad_used_metric m) else rest

unfoldable pub is_known_ticker_token : List Str → Str → Bool
is_known_ticker_token allow tok =
    if has_text tok english_ticker_stoplist
    then true
    else if has_text tok finance_ticker_stoplist
    then true
    else has_text tok allow

unfoldable pub check_tokens : (Str → Bool) → List Str → Option ValidationError
check_tokens known [] = none
check_tokens known (tok ∷ toks) =
    if not (known tok) then some (unknown_symbol tok) else check_tokens known toks

unfoldable pub validate_insight_output : List Str → Str → List Str → Option ValidationError
unfolding has_banned_phrase has_sql_probe check_metrics is_known_ticker_token check_tokens
validate_insight_output allow full used_metrics =
    if full == []
    then none
    else if has_banned_phrase full
    then some banned_phrase
    else if has_sql_probe full
    then some suspicious_sql
    else elim (check_metrics used_metrics) [
      | some e ↦ some e
      | none ↦ check_tokens (is_known_ticker_token allow) (find_tickers full)
    ]

unfoldable pub sanitize_unknown_ticker_tokens : Str → List Str → Str
unfolding is_known_ticker_token
sanitize_unknown_ticker_tokens full allow = replace_tickers (is_known_ticker_token allow) full
