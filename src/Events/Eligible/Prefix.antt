-- ===== src/Events/Eligible/Prefix.antt =====
-- The eligible events are a prefix of the page, within the watermark, and as long as it can be.
use real_time_portfolio_risk.Prelude.{
  ℕ, ◌≤◌, ◌<◌, ◌≡◌, refl, ◌⊎◌, inl, inr, ap, sym, ◌∙◌, ltb, lt→ltb, false, List, [], ◌∷◌, ◌++◌,
  length, All, arith,
}
use native.Mathlib.Decide.{dec_lt}
use real_time_portfolio_risk.Clock.{Time, Duration}
use real_time_portfolio_risk.Domain.Types.{EventEnvelope}
use real_time_portfolio_risk.Events.Eligible.{eligible_prefix, eligible_batch_after_watermark}

abbrev pub IsWithin : Time → EventEnvelope → Type 0
IsWithin cutoff ev = ev.event_time ≤ cutoff

-- The first of the events left, if there is one, is past the cutoff.
abbrev pub StartsAfter : Time → List EventEnvelope → Type 0
StartsAfter cutoff [] = Unit
StartsAfter cutoff (ev ∷ rest) = cutoff < ev.event_time

-- The page split where the first event past the cutoff stands.
abbrev pub IsCut : Time → List EventEnvelope → List EventEnvelope → Type 0
IsCut cutoff batch out =
    (rest : List EventEnvelope) × (batch ≡ out ++ rest)
    × All (IsWithin cutoff) out
    × StartsAfter cutoff rest

eligible_prefix-IsCut :
    (batch : List EventEnvelope) (cutoff : Time) → IsCut cutoff batch (eligible_prefix batch cutoff)
unfolding eligible_prefix
eligible_prefix-IsCut [] cutoff = ([], refl, tt, tt)
eligible_prefix-IsCut (ev ∷ batch) cutoff =
    let (rest, split, within, past) = eligible_prefix-IsCut batch cutoff in
    elim (dec_lt cutoff ev.event_time) [
      | yes late ↦ let e = lt→ltb _ _ late in rw e (ev ∷ batch, refl, tt, late)
      | no soon ↦
          let e = not_late ev.event_time cutoff soon in
          rw e (rest, ap (◌∷◌ ev) split, ((omega arith), within), past)
    ]
  where
    not_late : (t c : Time) → ¬ (c < t) → ltb c t ≡ false
    not_late t c h = ground arith

-- The two branches.
pub eligible_batch-cases :
    (batch : List EventEnvelope) (cutoff : Time) (watermark : Duration) (limit : ℕ)
    → let out = eligible_batch_after_watermark batch cutoff watermark limit in
      let prefix = eligible_prefix batch cutoff in
      ((out ≡ batch)
        × (length prefix ≡ 0)
        × (0 < length batch)
        × (length batch < limit)
        × (0 < watermark))
      ⊎ ((out ≡ prefix)
          × ((0 < length prefix) ⊎ (length batch ≡ 0) ⊎ (limit ≤ length batch) ⊎ (watermark ≡ 0)))
unfolding eligible_batch_after_watermark
eligible_batch-cases batch cutoff watermark limit = ground arith

empty_of_length {ℓ} : {A : Type ℓ} (xs : List A) → length xs ≡ 0 → xs ≡ []
empty_of_length [] e = refl
empty_of_length (x ∷ xs) e = absurd (omega arith)

-- What is applied of a fetched page is the longest prefix within the cutoff, or, where that prefix
-- is empty, the page is not full and the watermark is on, the whole page. So a page that is not
-- full is never held back whole while the watermark is on.
pub eligible_batch-IsCut :
    (batch : List EventEnvelope) (cutoff : Time) (watermark : Duration) (limit : ℕ)
    → let out = eligible_batch_after_watermark batch cutoff watermark limit in
      (IsCut cutoff batch out
        ⊎ ((out ≡ batch)
            × (length batch < limit)
            × (0 < watermark)
            × (eligible_prefix batch cutoff ≡ [])))
      × (out ≡ [] → (batch ≡ []) ⊎ (limit ≤ length batch) ⊎ (watermark ≡ 0))
eligible_batch-IsCut batch cutoff watermark limit =
    elim (eligible_batch-cases batch cutoff watermark limit) [
      | inl (whole, none_within, some_event, partial, on) ↦ (
        inr (whole, partial, on, empty_of_length _ none_within),
        λ e. absurd (omega (arith, ap length (sym whole ∙ e))),
      )
      | inr (prefix, why) ↦ (
        inl (rw prefix (eligible_prefix-IsCut batch cutoff)),
        λ e. stuck why (ap length (sym prefix ∙ e)),
      )
    ]
  where
    stuck :
        {n : ℕ}
        → (0 < n) ⊎ (length batch ≡ 0) ⊎ (limit ≤ length batch) ⊎ (watermark ≡ 0)
        → n ≡ 0
        → (batch ≡ []) ⊎ (limit ≤ length batch) ⊎ (watermark ≡ 0)
    stuck (inl h) e = absurd (omega arith)
    stuck (inr (inl h)) e = inl (empty_of_length batch h)
    stuck (inr (inr h)) e = inr h
