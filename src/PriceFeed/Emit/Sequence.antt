-- ===== src/PriceFeed/Emit/Sequence.antt =====
-- The sequence numbers of a symbol rise.
use real_time_portfolio_risk.Prelude.{
  ◌-◌, ◌^◌, ◌≡◌, ap, ◌⊎◌, inl, inr, Str, text_eq, true, Bool-cases, List, [], ◌∷◌, get_or_else,
  arith,
}
use real_time_portfolio_risk.Prelude.Int.{ℤ, pos, ◌+ℤ◌, ltb_ℤ, beq_ℤ, +ℤ_parts, eq_of_parts}
use real_time_portfolio_risk.Prelude.Dict.{lookup, lookup-insert_self}
use mathlib.Core.Path.{subst}
use real_time_portfolio_risk.Decimal.{Decimal}
use real_time_portfolio_risk.PriceFeed.Emit.{
  Feed, FeedState, int64_succ, above, next_monotonic_sequence,
}

abbrev pub int64_max : ℤ
int64_max = pos (2 ^ 63 - 1)

-- A number comes after another: it is greater, unless that one is the greatest `int64`.
abbrev pub Follows : ℤ → ℤ → Type 0
Follows last n = (last ≡ int64_max) ⊎ (ltb_ℤ last n ≡ true)

abbrev pub IsRising : ℤ → List ℤ → Type 0
IsRising last [] = Unit
IsRising last (n ∷ ns) = Follows last n × IsRising n ns

lt_succ : (z : ℤ) → ltb_ℤ z (z +ℤ pos 1) ≡ true
lt_succ z = ground (arith, +ℤ_parts z (pos 1))

is_max : (z : ℤ) → beq_ℤ z int64_max ≡ true → z ≡ int64_max
is_max z e = eq_of_parts z int64_max (ground (arith, e))

above-Follows : (last candidate : ℤ) → Follows last (above last candidate)
unfolding above int64_succ
above-Follows last candidate = elim (Bool-cases (ltb_ℤ last candidate)) [
  | inl e ↦ rw (above, e) (inr e)
  | inr e ↦ elim (Bool-cases (beq_ℤ last int64_max)) [
    | inl m ↦ inl (is_max last m)
    | inr m ↦ rw (above, e, int64_succ, m) (inr (lt_succ last))
  ]
]

module _ {D S : Type 0} ⦃d : Decimal D⦄ (feed : Feed D) where
  -- The last number of a symbol, and the numbers given for some candidates in turn.
  abbrev pub last_sequence : Str → FeedState D S → ℤ
  last_sequence symbol st = get_or_else (lookup symbol st.last_seq) (pos 0)

  abbrev pub sequence_run : Str → List ℤ → FeedState D S → List ℤ
  sequence_run symbol [] st = []
  sequence_run symbol (c ∷ cs) st =
      let out = next_monotonic_sequence feed symbol c st in out.0 ∷ sequence_run symbol cs out.1

  next-Follows :
      (symbol : Str) (c : ℤ) (st : FeedState D S)
      → let out = next_monotonic_sequence feed symbol c st in
        Follows (last_sequence symbol st) out.0 × (last_sequence symbol out.1 ≡ out.0)
  unfolding next_monotonic_sequence
  next-Follows symbol c st = (
    above-Follows (last_sequence symbol st) _,
    ap (λ o. get_or_else o (pos 0)) (lookup-insert_self symbol _ st.last_seq),
  )

  -- Whatever the candidates are, the sequence numbers given for a symbol, from the last one on, are
  -- each greater than the one before, unless that one is the greatest `int64`.
  pub sequence_run-IsRising :
      (symbol : Str) (candidates : List ℤ) (st : FeedState D S)
      → IsRising (last_sequence symbol st) (sequence_run symbol candidates st)
  sequence_run-IsRising symbol [] st = tt
  sequence_run-IsRising symbol (c ∷ cs) st =
      let out = next_monotonic_sequence feed symbol c st in
      let (follows, same) = next-Follows symbol c st in
      (
        follows,
        subst (λ n. IsRising n (sequence_run symbol cs out.1)) same
            (sequence_run-IsRising symbol cs out.1),
      )
