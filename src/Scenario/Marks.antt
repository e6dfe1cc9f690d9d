-- ===== src/Scenario/Marks.antt =====
-- The marks under shocks: each shocked symbol is scaled once and nothing else moves.
use real_time_portfolio_risk.Prelude.{
  ◌≡◌, refl, ap, ◌∙◌, sym, Str, text_eq, nat_eq, ◌==◌, ==_iff, ==_refl, true, List, [], ◌∷◌, none,
  some, Option, Option-cases, Bool-cases, inl, inr, if◌then◌else◌, arith, ℕ, suc,
}
use mathlib.Core.Option
use mathlib.Core.Path.{subst}
use real_time_portfolio_risk.Prelude.Dict.{Dict, lookup, insert, lookup-insert}
use real_time_portfolio_risk.Decimal.{Decimal}
use real_time_portfolio_risk.Clock.{nil_uuid}
use real_time_portfolio_risk.Portfolio.View.{PortfolioAssemblerInput, PriceMarkInput}
use real_time_portfolio_risk.Scenario.{
  Shock, ShockError, shocked, missing, rejected, is_seen, validate_from, validate_shocks,
  shock_mark, apply_shocks, shocked_portfolio_input,
}

module _ {D : Type 0} where
  -- The shock of a symbol.
  abbrev pub shock_of : Str → List (Shock D) → Option D
  shock_of s [] = none
  shock_of s (sh ∷ shocks) = if sh.symbol == s then some sh.value else shock_of s shocks

  shock_of-seen :
      (i : ℕ) (seen : List Str) (shocks : List (Shock D)) (s : Str)
      → validate_from i seen shocks ≡ none
      → is_seen s seen ≡ true
      → shock_of s shocks ≡ none
  unfolding validate_from
  shock_of-seen i seen [] s v h = refl
  shock_of-seen i seen (sh ∷ shocks) s v h =
      ground (arith, ==_iff sh.symbol s, shock_of-seen (suc i) (sh.symbol ∷ seen) shocks s)

module _ {D : Type 0} ⦃d : Decimal D⦄ where
  abbrev pub under : Option D → Option (PriceMarkInput D) → Option (PriceMarkInput D)
  under none mark = mark
  under (some value) mark = Option.map (shock_mark value) mark

  validate_from-tail :
      (i : ℕ) (seen : List Str) (sh : Shock D) (shocks : List (Shock D))
      → validate_from i seen (sh ∷ shocks) ≡ none
      → validate_from (suc i) (sh.symbol ∷ seen) shocks ≡ none
  unfolding validate_from
  validate_from-tail i seen sh shocks v = ground arith

  -- One shock on a mark, and those that follow.
  under-insert :
      (sh : Shock D) (shocks : List (Shock D)) (prices : Dict Str (PriceMarkInput D))
      (pm : PriceMarkInput D) (s : Str)
      → lookup sh.symbol prices ≡ some pm
      → (sh.symbol ≡ s → shock_of s shocks ≡ none)
      → under (shock_of s shocks) (lookup s (insert sh.symbol (shock_mark sh.value pm) prices))
        ≡ under (shock_of s (sh ∷ shocks)) (lookup s prices)
  under-insert sh shocks prices pm s found once = elim (Bool-cases (sh.symbol == s)) [
    | inl e ↦
        let same = (==_iff sh.symbol s).0 e in
        rw (lookup-insert, e, once same, ap (λ k. lookup k prices) (sym same) ∙ found) refl
    | inr e ↦ rw (lookup-insert, e) refl
  ]

  apply_shocks-under :
      (i : ℕ) (seen : List Str) (shocks : List (Shock D)) (prices : Dict Str (PriceMarkInput D))
      (s : Str)
      → validate_from i seen shocks ≡ none
      → (apply_shocks shocks prices).1 ≡ []
      → lookup s (apply_shocks shocks prices).0 ≡ under (shock_of s shocks) (lookup s prices)
  unfolding apply_shocks
  apply_shocks-under i seen [] prices s v e = refl
  apply_shocks-under i seen (sh ∷ shocks) prices s v e =
      let v' = validate_from-tail i seen sh shocks v in
      elim (Option-cases (lookup sh.symbol prices)) [
        | inl none_found ↦ absurd (not_nil (rw (apply_shocks, none_found) at e))
        | inr (pm, found) ↦ elim (Bool-cases (d.is_zero pm.price)) [
          | inl zero_mark ↦ absurd (not_nil (rw (apply_shocks, found, zero_mark) at e))
          | inr live ↦
              let e' = rw (apply_shocks, found, live) at e in
              rw (apply_shocks, found, live)
                (apply_shocks-under (suc i) (sh.symbol ∷ seen) shocks
                    (insert sh.symbol (shock_mark sh.value pm) prices) s v' e'
                  ∙ under-insert sh shocks prices pm s found (once v'))
        ]
      ]
    where
      not_nil : {x : Str} {xs : List Str} → x ∷ xs ≡ [] → ⊥
      not_nil h = ground arith

      once :
          validate_from (suc i) (sh.symbol ∷ seen) shocks ≡ none
          → sh.symbol ≡ s
          → shock_of s shocks ≡ none
      once v' same =
          shock_of-seen (suc i) (sh.symbol ∷ seen) shocks s v'
            (rw (ap (λ k. k == s) same ∙ ==_refl s) refl)

  abbrev pub IsUnder :
      PortfolioAssemblerInput D → List (Shock D) → PortfolioAssemblerInput D → Type 0
  IsUnder base shocks out =
      (out.positions ≡ base.positions)
      × (out.portfolio_id ≡ base.portfolio_id)
      × (out.trade_apply ≡ base.trade_apply)
      × ((s : Str)
          → lookup s out.price_by_symbol
            ≡ under (shock_of s shocks) (lookup s base.price_by_symbol))

  validate_shocks-from :
      (shocks : List (Shock D)) → validate_shocks shocks ≡ none → validate_from 0 [] shocks ≡ none
  unfolding validate_shocks validate_from
  validate_shocks-from [] v = refl
  validate_shocks-from (sh ∷ shocks) v = v

  -- The last step, by the list of the symbols without a mark.
  finish :
      (base out : PortfolioAssemblerInput D) (shocks : List (Shock D)) (absent : List Str)
      → validate_shocks shocks ≡ none
      → (apply_shocks shocks base.price_by_symbol).1 ≡ absent
      → (elim absent [
        | [] ↦
            shocked (record base { price_by_symbol = (apply_shocks shocks base.price_by_symbol).0 })
        | s ∷ ss ↦ missing (s ∷ ss)
      ])
        ≡ shocked out
      → IsUnder base shocks out
  finish base out shocks (s ∷ ss) v e h = absurd (ground arith)
  finish base out shocks [] v e h = subst (IsUnder base shocks) (shocked_inj h) (
    refl,
    refl,
    refl,
    λ s. apply_shocks-under 0 [] shocks base.price_by_symbol s (validate_shocks-from shocks v) e,
  )
    where
      shocked_inj : {a b : PortfolioAssemblerInput D} → shocked a ≡ shocked b → a ≡ b
      shocked_inj h = ground arith

  -- The input under shocks has the positions, the id and the lineage of the base, and for every
  -- symbol the mark of the base, with its price scaled by one plus the value of the shock on that
  -- symbol where there is one.
  pub shocked_input-IsUnder :
      (base out : PortfolioAssemblerInput D) (shocks : List (Shock D))
      → shocked_portfolio_input base shocks ≡ shocked out
      → IsUnder base shocks out
  unfolding shocked_portfolio_input
  shocked_input-IsUnder base out shocks e = elim (Option-cases (validate_shocks shocks)) [
    | inr (bad, v) ↦ absurd (refused_input (rw (shocked_portfolio_input, v) at e))
    | inl v ↦ elim (Bool-cases (base.portfolio_id == nil_uuid)) [
      | inl nil ↦ absurd (refused_input (rw (shocked_portfolio_input, v, nil) at e))
      | inr known ↦ finish base out shocks _ v refl (rw (shocked_portfolio_input, v, known) at e)
    ]
  ]
    where
      refused_input : {err : ShockError} → rejected err ≡ shocked out → ⊥
      refused_input h = ground arith
