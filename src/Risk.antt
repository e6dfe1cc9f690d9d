-- ===== src/Risk.antt =====
-- internal/risk/engine.go: exposures, weights, concentration and parametric value at risk. Binary
-- floating point and the decimal constants are parameters.
pub mod Weights
use real_time_portfolio_risk.Prelude.{
  ℕ, text_eq, ltb, Str, codes, str_lt, Bool, true, false, List, [], ◌∷◌, map, take, none, some,
  Option, if◌then◌else◌, length,
}
use real_time_portfolio_risk.Prelude.Int.{ℤ, pos, negsuc}
use real_time_portfolio_risk.Prelude.Dict.{Dict, lookup}
use real_time_portfolio_risk.Prelude.Sort.{sort}
use real_time_portfolio_risk.Decimal.{Decimal}

-- The operations on float64 of the variance, and `decimal.NewFromFloat`, which panics on what is no
-- number (`none`).
pub record Float64 (D F : Type 0) : Type 0 where
  pub zero_float : F
  pub plus : F → F → F
  pub times : F → F → F
  pub absolute : F → F
  pub sqrt : F → F
  pub is_less : F → F → Bool
  pub is_at_most : F → F → Bool
  pub sqrt_domain_epsilon : F
  pub from_decimal : D → F
  pub new_from_float : F → Option D

-- The constants that are parsed from decimal literals.
pub record Constants (D : Type 0) : Type 0 where
  pub confidence95 : D
  pub horizon_days1 : D
  pub z_score95 : D

abbrev pub default_top_n : ℕ
default_top_n = 5

abbrev pub max_top_n : ℕ
max_top_n = 50

pub record PositionInput (D : Type 0) : Type 0 where
  pub symbol : Str
  pub quantity : D

pub record Input (D : Type 0) : Type 0 where
  pub positions : List (PositionInput D)
  pub prices : Dict Str D
  pub sigma_1d : Dict Str D
  pub top_n : ℤ

pub record Assumptions (D : Type 0) : Type 0 where
  pub confidence : D
  pub horizon_days : D
  pub z_score : D
  pub volatility_convention : Str
  pub model : Str

pub record SymbolRisk (D : Type 0) : Type 0 where
  pub symbol : Str
  pub exposure : D
  pub weight : D
  pub sigma_1d : D

pub record Concentration (D : Type 0) : Type 0 where
  pub top_n : List (SymbolRisk D)
  pub hhi : D

pub record Snapshot (D : Type 0) : Type 0 where
  pub exposure_by_symbol : List (SymbolRisk D)
  pub total_market_value : D
  pub sigma_1d_portfolio : D
  pub var_95_1d : D
  pub concentration : Concentration D
  pub assumptions : Assumptions D
  pub unpriced_symbols : List Str

pub data Built (A : Type 0) : Type 0 where
  built : A → Built A
  missing_sigma : Str → Built A
  invalid_variance : Built A
  panicked : Built A

unfoldable pub normalize_top_n : ℤ → ℕ
normalize_top_n (negsuc n) = default_top_n
normalize_top_n (pos n) =
    if ltb 0 n then (if ltb max_top_n n then max_top_n else n) else default_top_n

-- What the loop over the positions has gathered.
pub record Exposures (D : Type 0) : Type 0 where
  pub priced : List (SymbolRisk D)
  pub unpriced : List Str
  pub total : D

module _ {D : Type 0} ⦃d : Decimal D⦄ where
  abbrev pub exposure_of : D → D → D
  exposure_of quantity price = d.abs (d.mul quantity price)

  -- The loop, from the total so far. The lists are in the order of the positions.
  unfoldable pub expose : Dict Str D → Dict Str D → D → List (PositionInput D) → Built (Exposures D)
  expose prices sigmas total [] = built (record { priced = []; unpriced = []; total = total })
  expose prices sigmas total (p ∷ positions) = elim (lookup p.symbol prices) [
    | none ↦ elim (expose prices sigmas total positions) [
      | built e ↦ built (record e { unpriced = p.symbol ∷ e.unpriced })
      | missing_sigma s ↦ missing_sigma s
      | invalid_variance ↦ invalid_variance
      | panicked ↦ panicked
    ]
    | some price ↦ elim (lookup p.symbol sigmas) [
      | none ↦ missing_sigma p.symbol
      | some sigma ↦
          let exposure = exposure_of p.quantity price in
          elim (expose prices sigmas (d.add total exposure) positions) [
            | built e ↦ built (record e {
              priced =
                  record {
                    symbol = p.symbol;
                    exposure = exposure;
                    weight = d.nought;
                    sigma_1d = sigma;
                  }
                  ∷ e.priced;
            })
            | missing_sigma s ↦ missing_sigma s
            | invalid_variance ↦ invalid_variance
            | panicked ↦ panicked
          ]
    ]
  ]

  -- The weights; `none` is a division by zero.
  unfoldable pub weigh : D → List (SymbolRisk D) → Option (List (SymbolRisk D))
  weigh total [] = some []
  weigh total (s ∷ symbols) = elim (d.div s.exposure total) [
    | none ↦ none
    | some w ↦ elim (weigh total symbols) [
      | none ↦ none
      | some rest ↦ some (record s { weight = w } ∷ rest)
    ]
  ]

  unfoldable pub weights : D → List (SymbolRisk D) → Option (List (SymbolRisk D))
  unfolding weigh
  weights total symbols =
      if d.greater_than total d.nought then weigh total symbols else some symbols

  unfoldable pub hhi : D → List (SymbolRisk D) → D
  hhi acc [] = acc
  hhi acc (s ∷ symbols) = hhi (d.add acc (d.mul s.weight s.weight)) symbols

  unfoldable pub heavier : SymbolRisk D → SymbolRisk D → Bool
  heavier a b =
      if d.equal a.weight b.weight
      then str_lt a.symbol b.symbol
      else d.greater_than a.weight b.weight

  unfoldable pub top_by_weight : List (SymbolRisk D) → ℕ → List (SymbolRisk D)
  unfolding heavier
  top_by_weight symbols n = take n (sort heavier symbols)

module _ {D F : Type 0} ⦃d : Decimal D⦄ (f : Float64 D F) where
  unfoldable pub variance : F → List (SymbolRisk D) → F
  variance sum [] = sum
  variance sum (s ∷ symbols) =
      let w = f.from_decimal s.weight in
      let sigma = f.from_decimal s.sigma_1d in
      variance (f.plus sum (f.times (f.times w w) (f.times sigma sigma))) symbols

  unfoldable pub sigma_portfolio_uncorrelated : List (SymbolRisk D) → Built D
  sigma_portfolio_uncorrelated [] = built d.nought
  sigma_portfolio_uncorrelated (s ∷ symbols) =
      let sum = variance f.zero_float (s ∷ symbols) in
      let sum' =
        if f.is_less sum f.zero_float
        then (if f.is_at_most (f.absolute sum) f.sqrt_domain_epsilon then f.zero_float else sum)
        else sum in
      if f.is_less sum' f.zero_float
      then invalid_variance
      else elim (f.new_from_float (f.sqrt sum')) [ none ↦ panicked | some x ↦ built x ]

  -- The result, from the weighted symbols.
  unfoldable pub assemble :
      Constants D → ℕ → D → List Str → List (SymbolRisk D) → Built (Snapshot D)
  assemble k top_n total unpriced symbols = elim (sigma_portfolio_uncorrelated symbols) [
    | missing_sigma s ↦ missing_sigma s
    | invalid_variance ↦ invalid_variance
    | panicked ↦ panicked
    | built sigma ↦ built (record {
      exposure_by_symbol = symbols;
      total_market_value = total;
      sigma_1d_portfolio = sigma;
      var_95_1d = d.mul (d.mul total sigma) k.z_score95;
      concentration = record { top_n = top_by_weight symbols top_n; hhi = hhi d.nought symbols };
      assumptions = record {
        confidence = k.confidence95;
        horizon_days = k.horizon_days1;
        z_score = k.z_score95;
        volatility_convention = codes "annual_to_daily_sqrt_252";
        model = codes "parametric_normal";
      };
      unpriced_symbols = sort str_lt unpriced;
    })
  ]

  unfoldable pub build_snapshot : Constants D → Input D → Built (Snapshot D)
  build_snapshot k input = elim (expose input.prices input.sigma_1d d.nought input.positions) [
    | missing_sigma s ↦ missing_sigma s
    | invalid_variance ↦ invalid_variance
    | panicked ↦ panicked
    | built e ↦
        let symbols = sort (λ a b. str_lt a.symbol b.symbol) e.priced in
        elim (weights e.total symbols) [
          | none ↦ panicked
          | some weighted ↦ assemble k (normalize_top_n input.top_n) e.total e.unpriced weighted
        ]
  ]
