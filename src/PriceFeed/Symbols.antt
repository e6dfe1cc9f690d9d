-- ===== src/PriceFeed/Symbols.antt =====
-- The symbols of a watchlist and of a quote.
use real_time_portfolio_risk.Prelude.{
  ◌≡◌, Str, text_eq, nat_eq, ◌==◌, ==_iff, nat_beq, Bool, true, false, not, ◌||◌, ◌&&◌, List, [],
  ◌∷◌, none, some, Option, if◌then◌else◌, Bool-cases, inl, inr, arith,
}
use real_time_portfolio_risk.Prelude.Ascii.{to_upper, trim_space}
use real_time_portfolio_risk.Domain.Types.{is_valid_symbol}

abbrev pub has_text : Str → List Str → Bool
has_text s [] = false
has_text s (t ∷ ts) = if t == s then true else has_text s ts

-- `normalizeSymbols`, from the symbols seen so far.
unfoldable pub normalize_from : List Str → List Str → List Str
normalize_from seen [] = []
normalize_from seen (s ∷ symbols) =
    let v = to_upper (trim_space s) in
    let rest = normalize_from seen symbols in
    let taken = normalize_from (v ∷ seen) symbols in
    if v == [] then rest else if has_text v seen then rest else v ∷ taken

abbrev pub normalize_symbols : List Str → List Str
normalize_symbols symbols = normalize_from [] symbols

-- The replacer: "/" and ":" are dashes, blanks and tabs go.
unfoldable pub replace_marks : Str → Str
replace_marks [] = []
replace_marks (b ∷ s) =
    if nat_beq b 47 || nat_beq b 58
    then 45 ∷ replace_marks s
    else if nat_beq b 32 || nat_beq b 9
    then replace_marks s
    else b ∷ replace_marks s

-- `NormalizeToInternalSymbol`; `none` is its error.
unfoldable pub normalize_to_internal_symbol : Str → Option Str
normalize_to_internal_symbol raw =
    let s = to_upper (trim_space raw) in
    if s == []
    then none
    else if is_valid_symbol (replace_marks s)
    then some (replace_marks s)
    else none

-- The symbol that a name of the watchlist stands for.
abbrev pub watched : Str → Str
watched s = to_upper (trim_space s)

abbrev pub names_of : List Str → List Str
names_of [] = []
names_of (s ∷ symbols) = watched s ∷ names_of symbols

-- No text occurs twice.
abbrev pub HasNoRepeats : List Str → Type 0
HasNoRepeats [] = Unit
HasNoRepeats (s ∷ symbols) = (has_text s symbols ≡ false) × HasNoRepeats symbols

normalize_from-has_text :
    (seen symbols : List Str) (t : Str)
    → has_text t (normalize_from seen symbols)
      ≡ (not (t == []) && not (has_text t seen) && has_text t (names_of symbols))
unfolding normalize_from
normalize_from-has_text seen [] t = ground arith
normalize_from-has_text seen (s ∷ symbols) t =
    let v = watched s in
    ground (
      arith,
      normalize_from-has_text seen symbols t,
      normalize_from-has_text (v ∷ seen) symbols t,
      ==_iff v t,
      ==_iff v [],
      ==_iff t [],
    )

normalize_from-HasNoRepeats : (seen symbols : List Str) → HasNoRepeats (normalize_from seen symbols)
unfolding normalize_from
normalize_from-HasNoRepeats seen [] = tt
normalize_from-HasNoRepeats seen (s ∷ symbols) =
    let v = watched s in
    let rest = normalize_from-HasNoRepeats seen symbols in
    elim (Bool-cases (v == [])) [
      | inl e ↦ rw e rest
      | inr e ↦ elim (Bool-cases (has_text v seen)) [
        | inl old ↦ rw (e, old) rest
        | inr new ↦
            rw (e, new)
              (
                ground (arith, normalize_from-has_text (v ∷ seen) symbols v, ==_iff v v),
                normalize_from-HasNoRepeats (v ∷ seen) symbols,
              )
      ]
    ]

-- The watchlist that is set holds no name twice and holds a name exactly when it is not empty and
-- one of the given names, trimmed and in capitals, is that name.
pub normalize_symbols_iff :
    (symbols : List Str)
    → HasNoRepeats (normalize_symbols symbols)
      × ((t : Str)
          → has_text t (normalize_symbols symbols)
            ≡ (not (t == []) && has_text t (names_of symbols)))
normalize_symbols_iff symbols = (
  normalize_from-HasNoRepeats [] symbols,
  λ t. ground (arith, normalize_from-has_text [] symbols t),
)
