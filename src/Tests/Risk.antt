-- ===== src/Tests/Risk.antt =====
-- A risk snapshot of one priced and one unpriced position, short and long.
use real_time_portfolio_risk.Prelude.{
  ℕ, ◌+◌, ◌*◌, ltb, leb, codes, [], ◌∷◌, some, ◌≡◌, refl, All, str_eq, str_lt, text_eq,
}
use real_time_portfolio_risk.Prelude.Dict.{lookup}
use real_time_portfolio_risk.Prelude.Sort.{sort, insert_sorted}
use real_time_portfolio_risk.Prelude.Int.{ℤ, pos, negsuc, pos_part, ◌+ℤ◌, ◌-ℤ◌, ◌*ℤ◌, div_ℤ}
use real_time_portfolio_risk.Decimal.Integers.{integers, Integers-IsDecimal}
use real_time_portfolio_risk.Risk.{
  Float64, Constants, Input, SymbolRisk, Snapshot, built, build_snapshot, normalize_top_n, expose,
  weigh, weights, hhi, heavier, top_by_weight, variance, sigma_portfolio_uncorrelated, assemble,
}
use real_time_portfolio_risk.Risk.Weights.{IsWeighed, build_snapshot-IsWeighed}

abbrev whole_floats : Float64 ℤ ℕ
whole_floats = record {
  zero_float = 0;
  plus = λ a b. a + b;
  times = λ a b. a * b;
  absolute = λ a. a;
  sqrt = λ a. a;
  is_less = ltb;
  is_at_most = leb;
  sqrt_domain_epsilon = 0;
  from_decimal = pos_part;
  new_from_float = λ a. some (pos a);
}

abbrev constants : Constants ℤ
constants = record { confidence95 = pos 1; horizon_days1 = pos 1; z_score95 = pos 2 }

abbrev input : Input ℤ
input = record {
  positions =
      record { symbol = codes "ACME"; quantity = negsuc 1 }
      ∷ record { symbol = codes "MSFT"; quantity = pos 3 }
      ∷ [];
  prices = (codes "ACME", pos 5) ∷ [];
  sigma_1d = (codes "ACME", pos 1) ∷ [];
  top_n = pos 0;
}

abbrev acme : SymbolRisk ℤ
acme = record { symbol = codes "ACME"; exposure = pos 10; weight = pos 1; sigma_1d = pos 1 }

abbrev snap : Snapshot ℤ
snap = record {
  exposure_by_symbol = acme ∷ [];
  total_market_value = pos 10;
  sigma_1d_portfolio = pos 1;
  var_95_1d = pos 20;
  concentration = record { top_n = acme ∷ []; hhi = pos 1 };
  assumptions = record {
    confidence = pos 1;
    horizon_days = pos 1;
    z_score = pos 2;
    volatility_convention = codes "annual_to_daily_sqrt_252";
    model = codes "parametric_normal";
  };
  unpriced_symbols = codes "MSFT" ∷ [];
}

snap_eq : build_snapshot whole_floats constants input ≡ built snap
unfolding build_snapshot normalize_top_n expose weigh weights hhi heavier top_by_weight variance
    sigma_portfolio_uncorrelated assemble lookup sort insert_sorted str_eq str_lt ◌+ℤ◌ ◌-ℤ◌ ◌*ℤ◌
    div_ℤ
snap_eq = refl

build_snapshot-IsWeighed_example : All IsWeighed snap.exposure_by_symbol
build_snapshot-IsWeighed_example =
    build_snapshot-IsWeighed Integers-IsDecimal whole_floats constants input snap snap_eq
