-- ===== src/Scenario.antt =====
-- internal/scenario/core.go: a portfolio under shocks on its marks.
pub mod Marks
use real_time_portfolio_risk.Prelude.{
  ℕ, suc, nat_eq, Str, codes, text_eq, ◌==◌, Bool, true, false, not, ◌||◌, List, [], ◌∷◌, none,
  some, Option, if◌then◌else◌,
}
use real_time_portfolio_risk.Prelude.Dict.{Dict, lookup, insert}
use real_time_portfolio_risk.Clock.{nil_uuid}
use real_time_portfolio_risk.Decimal.{Decimal}
use real_time_portfolio_risk.Portfolio.View.{
  PortfolioAssemblerInput, PriceMarkInput, PortfolioView, AssemblerError, Assembled, assembled,
  refused, assemble_portfolio_view,
}

abbrev pub shock_type_pct : Str
shock_type_pct = codes "PCT"

pub record Shock (D : Type 0) : Type 0 where
  pub symbol : Str
  pub shock_type : Str
  pub value : D

pub data ShockError : Type 0 where
  empty_shocks nil_portfolio_id : ShockError
  empty_shock_symbol : ℕ → ShockError
  invalid_shock_type : Str → ℕ → ShockError
  duplicate_shock_sym : Str → ShockError

-- What `ShockedPortfolioInput` returns: an input, the symbols without a mark, or an error.
pub data Shocked (D : Type 0) : Type 0 where
  shocked : PortfolioAssemblerInput D → Shocked D
  missing : List Str → Shocked D
  rejected : ShockError → Shocked D

-- What `Eval` returns.
pub data Evaluated : Type 0 where
  evaluated : PortfolioView → Evaluated
  marks_missing : List Str → Evaluated
  bad_shocks : ShockError → Evaluated
  not_assembled : AssemblerError → Evaluated

abbrev pub is_seen : Str → List Str → Bool
is_seen s [] = false
is_seen s (t ∷ ts) = if t == s then true else is_seen s ts

module _ {D : Type 0} where
  -- The loop, with the index and the symbols seen so far.
  unfoldable pub validate_from : ℕ → List Str → List (Shock D) → Option ShockError
  validate_from i seen [] = none
  validate_from i seen (sh ∷ shocks) =
      let rest = validate_from (suc i) (sh.symbol ∷ seen) shocks in
      if sh.symbol == []
      then some (empty_shock_symbol i)
      else if not (sh.shock_type == shock_type_pct)
      then some (invalid_shock_type sh.shock_type i)
      else if is_seen sh.symbol seen
      then some (duplicate_shock_sym sh.symbol)
      else rest

  unfoldable pub validate_shocks : List (Shock D) → Option ShockError
  validate_shocks [] = some empty_shocks
  validate_shocks (sh ∷ shocks) = validate_from 0 [] (sh ∷ shocks)

module _ {D : Type 0} ⦃d : Decimal D⦄ where
  unfoldable pub shock_mark : D → PriceMarkInput D → PriceMarkInput D
  shock_mark value pm = record pm { price = d.mul pm.price (d.add d.one value) }

  -- The loop over the shocks: the marks after it, and the symbols that have none.
  unfoldable pub apply_shocks :
      List (Shock D) → Dict Str (PriceMarkInput D) → Dict Str (PriceMarkInput D) × List Str
  unfolding shock_mark
  apply_shocks [] prices = (prices, [])
  apply_shocks (sh ∷ shocks) prices =
      let skipped = apply_shocks shocks prices in
      elim (lookup sh.symbol prices) [
        | none ↦ (skipped.0, sh.symbol ∷ skipped.1)
        | some pm ↦
            let rest = apply_shocks shocks (insert sh.symbol (shock_mark sh.value pm) prices) in
            if d.is_zero pm.price then (skipped.0, sh.symbol ∷ skipped.1) else rest
      ]

  unfoldable pub shocked_portfolio_input : PortfolioAssemblerInput D → List (Shock D) → Shocked D
  shocked_portfolio_input base shocks = elim (validate_shocks shocks) [
    | some e ↦ rejected e
    | none ↦
        if base.portfolio_id == nil_uuid
        then rejected nil_portfolio_id
        else let (prices, absent) = apply_shocks shocks base.price_by_symbol in
          elim absent [
            | [] ↦ shocked (record base { price_by_symbol = prices })
            | s ∷ ss ↦ missing (s ∷ ss)
          ]
  ]

  unfoldable pub eval : PortfolioAssemblerInput D → List (Shock D) → Evaluated
  eval base shocks = elim (shocked_portfolio_input base shocks) [
    | rejected e ↦ bad_shocks e
    | missing symbols ↦ marks_missing symbols
    | shocked input ↦ elim (assemble_portfolio_view input) [
      | assembled view ↦ evaluated view
      | refused e ↦ not_assembled e
    ]
  ]
