-- ===== src/Ai/Sanitized.antt =====
-- A sanitized text has no unknown token.
use real_time_portfolio_risk.Prelude.{
  ◌≡◌, refl, sym, ap, ◌∙◌, Str, codes, nat_eq, text_eq, Bool, true, false, Bool-cases, inl, inr,
  List, [], ◌∷◌, All,
}
use mathlib.Core.Path.{subst}
use real_time_portfolio_risk.Ai.Tickers.{
  Piece, word, mark, is_word_byte, all_capitals, is_ticker, pieces, text_of, tickers_of,
  find_tickers, replace_word, replace_words, replace_tickers, IsRun, IsApart, IsSplit,
  pieces-text_of, pieces-IsSplit,
}

module _ (known : Str → Bool) where
  asset-IsRun : IsRun (codes "asset")
  unfolding is_word_byte
  asset-IsRun = (refl, (refl, (refl, (refl, (refl, tt)))))

  asset_is_text : is_ticker (codes "asset") ≡ false
  unfolding all_capitals
  asset_is_text = refl

  replace_word-IsRun : (w : Str) → IsRun w → IsRun (replace_word known w)
  replace_word-IsRun w r = elim (Bool-cases (is_ticker w)) [
    | inr e ↦ rw e r
    | inl e ↦ elim (Bool-cases (known w)) [ inl k ↦ rw (e, k) r | inr k ↦ rw (e, k) asset-IsRun ]
  ]

  replace_words-IsApart : (ps : List Piece) → IsApart ps → IsApart (replace_words known ps)
  replace_words-IsApart [] a = tt
  replace_words-IsApart (word w ∷ ps) a = a
  replace_words-IsApart (mark b ∷ ps) a = tt

  replace_words-IsSplit : (ps : List Piece) → IsSplit ps → IsSplit (replace_words known ps)
  replace_words-IsSplit [] s = tt
  replace_words-IsSplit (word w ∷ ps) (r, a, s) =
      (replace_word-IsRun w r, replace_words-IsApart ps a, replace_words-IsSplit ps s)
  replace_words-IsSplit (mark b ∷ ps) (h, s) = (h, replace_words-IsSplit ps s)

  replaced_pieces :
      (text : Str) → pieces (replace_tickers known text) ≡ replace_words known (pieces text)
  replaced_pieces text =
      pieces-text_of (replace_words known (pieces text))
        (replace_words-IsSplit (pieces text) (pieces-IsSplit text))

  abbrev AllKnown : List Str → Type 0
  AllKnown = All (λ tok. known tok ≡ true)

  replace_words-AllKnown : (ps : List Piece) → AllKnown (tickers_of (replace_words known ps))
  replace_words-AllKnown [] = tt
  replace_words-AllKnown (mark b ∷ ps) = replace_words-AllKnown ps
  replace_words-AllKnown (word w ∷ ps) = elim (Bool-cases (is_ticker w)) [
    | inr e ↦ rw (e, e) (replace_words-AllKnown ps)
    | inl e ↦ elim (Bool-cases (known w)) [
      | inl k ↦ rw (e, k, e) (k, replace_words-AllKnown ps)
      | inr k ↦ rw (e, k, asset_is_text) (replace_words-AllKnown ps)
    ]
  ]

  replace_word_again : (w : Str) → replace_word known (replace_word known w) ≡ replace_word known w
  replace_word_again w = elim (Bool-cases (is_ticker w)) [
    | inr e ↦ rw (e, e) refl
    | inl e ↦ elim (Bool-cases (known w)) [
      | inl k ↦ rw (e, k, e, k) refl
      | inr k ↦ rw (e, k, asset_is_text) refl
    ]
  ]

  replace_words_again :
      (ps : List Piece) → replace_words known (replace_words known ps) ≡ replace_words known ps
  replace_words_again [] = refl
  replace_words_again (mark b ∷ ps) = ap (◌∷◌ (mark b)) (replace_words_again ps)
  replace_words_again (word w ∷ ps) =
      ap (λ v. word v ∷ replace_words known (replace_words known ps)) (replace_word_again w)
      ∙ ap (◌∷◌ (word (replace_word known w))) (replace_words_again ps)

  -- Every token that is found in a sanitized text is a known one, and sanitizing it again changes
  -- nothing.
  pub replace_tickers-AllKnown :
      (text : Str)
      → All (λ tok. known tok ≡ true) (find_tickers (replace_tickers known text))
        × (replace_tickers known (replace_tickers known text) ≡ replace_tickers known text)
  replace_tickers-AllKnown text = (
    subst (λ ps. AllKnown (tickers_of ps)) (sym (replaced_pieces text))
        (replace_words-AllKnown (pieces text)),
    ap (λ ps. text_of (replace_words known ps)) (replaced_pieces text)
        ∙ ap text_of (replace_words_again (pieces text)),
  )
