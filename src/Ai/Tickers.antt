-- ===== src/Ai/Tickers.antt =====
-- internal/ai/validator.go: the matches of `\b[A-Z]{1,5}\b`. A word boundary lies between an ASCII
-- word byte and another byte, so a match is a whole run of word bytes, of one to five capitals.
use real_time_portfolio_risk.Prelude.{
  ℕ, ◌≡◌, refl, Str, codes, text_eq, nat_eq, leb, nat_beq, Bool, true, false, ◌&&◌, ◌||◌,
  Bool-cases, inl, inr, List, [], ◌∷◌, ◌++◌, length, All, if◌then◌else◌,
}

abbrev pub is_capital : ℕ → Bool
is_capital b = leb 65 b && leb b 90

unfoldable pub is_word_byte : ℕ → Bool
is_word_byte b = is_capital b || (leb 97 b && leb b 122) || (leb 48 b && leb b 57) || nat_beq b 95

-- A text is runs of word bytes with other bytes between them.
pub data Piece : Type 0 where
  word : Str → Piece
  mark : ℕ → Piece

abbrev pub add_to_run : ℕ → List Piece → List Piece
add_to_run b [] = word (b ∷ []) ∷ []
add_to_run b (word w ∷ ps) = word (b ∷ w) ∷ ps
add_to_run b (mark c ∷ ps) = word (b ∷ []) ∷ mark c ∷ ps

abbrev pub add_byte : ℕ → List Piece → List Piece
add_byte b ps = if is_word_byte b then add_to_run b ps else mark b ∷ ps

unfoldable pub pieces : Str → List Piece
pieces [] = []
pieces (b ∷ s) = add_byte b (pieces s)

abbrev pub text_of : List Piece → Str
text_of [] = []
text_of (word w ∷ ps) = w ++ text_of ps
text_of (mark b ∷ ps) = b ∷ text_of ps

unfoldable pub all_capitals : Str → Bool
all_capitals [] = true
all_capitals (b ∷ s) = is_capital b && all_capitals s

abbrev pub is_ticker : Str → Bool
is_ticker w = leb (length w) 5 && all_capitals w

abbrev pub tickers_of : List Piece → List Str
tickers_of [] = []
tickers_of (word w ∷ ps) = if is_ticker w then w ∷ tickers_of ps else tickers_of ps
tickers_of (mark b ∷ ps) = tickers_of ps

-- `FindAllString`
abbrev pub find_tickers : Str → List Str
find_tickers text = tickers_of (pieces text)

-- What `ReplaceAllStringFunc` puts for a run, where `known` says which tokens stay.
abbrev pub replace_word : (Str → Bool) → Str → Str
replace_word known w = if is_ticker w then (if known w then w else codes "asset") else w

abbrev pub replace_words : (Str → Bool) → List Piece → List Piece
replace_words known [] = []
replace_words known (word w ∷ ps) = word (replace_word known w) ∷ replace_words known ps
replace_words known (mark b ∷ ps) = mark b ∷ replace_words known ps

abbrev pub replace_tickers : (Str → Bool) → Str → Str
replace_tickers known text = text_of (replace_words known (pieces text))

-- A run is not empty and all its bytes are word bytes.
abbrev pub IsRun : Str → Type 0
IsRun [] = ⊥
IsRun (b ∷ w) = (is_word_byte b ≡ true) × All (λ c. is_word_byte c ≡ true) w

abbrev pub IsApart : List Piece → Type 0
IsApart [] = Unit
IsApart (word w ∷ ps) = ⊥
IsApart (mark b ∷ ps) = Unit

-- Runs are separated by other bytes.
abbrev pub IsSplit : List Piece → Type 0
IsSplit [] = Unit
IsSplit (word w ∷ ps) = IsRun w × IsApart ps × IsSplit ps
IsSplit (mark b ∷ ps) = (is_word_byte b ≡ false) × IsSplit ps

add_to_run-IsSplit :
    (b : ℕ) (ps : List Piece) → is_word_byte b ≡ true → IsSplit ps → IsSplit (add_to_run b ps)
add_to_run-IsSplit b [] h s = ((h, tt), tt, tt)
add_to_run-IsSplit b (word [] ∷ ps) h (r, a, s) = absurd r
add_to_run-IsSplit b (word (c ∷ w) ∷ ps) h ((r, rs), a, s) = ((h, (r, rs)), a, s)
add_to_run-IsSplit b (mark c ∷ ps) h s = ((h, tt), tt, s)

pub pieces-IsSplit : (s : Str) → IsSplit (pieces s)
unfolding pieces
pieces-IsSplit [] = tt
pieces-IsSplit (b ∷ s) = elim (Bool-cases (is_word_byte b)) [
  | inl e ↦ rw e (add_to_run-IsSplit b (pieces s) e (pieces-IsSplit s))
  | inr e ↦ rw e (e, pieces-IsSplit s)
]

-- Reading a run before pieces that begin with no run.
run_before :
    (b : ℕ) (w : Str) (ps : List Piece)
    → is_word_byte b ≡ true
    → All (λ c. is_word_byte c ≡ true) w
    → IsApart ps
    → pieces (text_of ps) ≡ ps
    → pieces (b ∷ (w ++ text_of ps)) ≡ word (b ∷ w) ∷ ps
unfolding pieces
run_before b [] [] h hs a e = rw (h, e) refl
run_before b [] (word v ∷ ps) h hs a e = absurd a
run_before b [] (mark c ∷ ps) h hs a e = rw (h, e) refl
run_before b (c ∷ w) ps h (hc, hs) a e = rw (run_before c w ps hc hs a e, h) refl

pub pieces-text_of : (ps : List Piece) → IsSplit ps → pieces (text_of ps) ≡ ps
unfolding pieces
pieces-text_of [] s = refl
pieces-text_of (word [] ∷ ps) (r, a, s) = absurd r
pieces-text_of (word (b ∷ w) ∷ ps) ((h, hs), a, s) = run_before b w ps h hs a (pieces-text_of ps s)
pieces-text_of (mark b ∷ ps) (h, s) = rw (h, pieces-text_of ps s) refl
