-- ===== src/PriceFeed/Fetch/Backoff.antt =====
-- The delay between two attempts of a fetch.
use real_time_portfolio_risk.Prelude.{
  ℕ, suc, zero, ◌*◌, ◌%◌, ◌^◌, ◌≤◌, ◌<◌, ◌≡◌, refl, ap, ◌∙◌, ltb, leb, nat_eq, ◌==◌, ==_iff, Bool,
  true, ◌&&◌, if◌then◌else◌, arith,
}
use real_time_portfolio_risk.Prelude.Int.{pos}
use real_time_portfolio_risk.Clock.{Duration}
use real_time_portfolio_risk.PriceFeed.Fetch.{int64_of, multiplier, backoff_delay}

all_below : ℕ → (ℕ → Bool) → Bool
all_below zero test = true
all_below (suc n) test = test n && all_below n test

all_below_sound :
    (n : ℕ) (test : ℕ → Bool) (k : ℕ) → all_below n test ≡ true → k < n → test k ≡ true
unfolding all_below
all_below_sound zero test k h lt = absurd (omega (arith, lt))
all_below_sound (suc n) test k h lt = ground (arith, all_below_sound n test k)

-- The multiplier doubles from one to sixteen and stays there.
abbrev doubled : ℕ → ℕ
doubled attempt = if ltb attempt 4 then 2 ^ attempt else 16

multipliers : all_below 63 (λ a. multiplier a == doubled a) ≡ true
unfolding all_below multiplier
multipliers = refl

multiplier-doubled : (attempt : ℕ) → attempt < 63 → multiplier attempt ≡ doubled attempt
multiplier-doubled attempt early =
    (==_iff (multiplier attempt) (doubled attempt)).0
      (all_below_sound 63 (λ a. multiplier a == doubled a) attempt multipliers early)

moderates : all_below 63 (λ a. leb 1 (doubled a) && leb (doubled a) 16) ≡ true
unfolding all_below
moderates = refl

doubled_bounds : (attempt : ℕ) → attempt < 63 → (1 ≤ doubled attempt) × (doubled attempt ≤ 16)
doubled_bounds attempt early = ground (
  arith,
  all_below_sound 63 (λ a. leb 1 (doubled a) && leb (doubled a) 16) attempt moderates early,
)

between : (m b : ℕ) → 1 ≤ m → m ≤ 16 → (b ≤ m * b) × (m * b ≤ 16 * b)
between m b lo hi = (grind (arith, lo), grind (arith, hi))

int64_of-small : (n : ℕ) → n < 2 ^ 63 → int64_of (n % 2 ^ 64) ≡ pos n
unfolding int64_of
int64_of-small n h = ground arith

-- Before the attempt with number 63, and where sixteen times the base is an `int64`, the delay is
-- the base times the power of two of the attempt, or sixteen from the fourth attempt on, and so at
-- least the base and at most sixteen times it. The base is the delay that is set, or half a second
-- if none is.
pub backoff_delay-bounds :
    (retry_delay : Duration) (attempt : ℕ)
    → attempt < 63
    → 16 * (if ltb 0 retry_delay then retry_delay else 500 * 10 ^ 6) < 2 ^ 63
    → let base = if ltb 0 retry_delay then retry_delay else 500 * 10 ^ 6 in
      let delay = (if ltb attempt 4 then 2 ^ attempt else 16) * base in
      (backoff_delay retry_delay attempt ≡ pos delay) × (base ≤ delay) × (delay ≤ 16 * base)
unfolding backoff_delay
backoff_delay-bounds retry_delay attempt early fits =
    let base = if ltb 0 retry_delay then retry_delay else 500 * 10 ^ 6 in
    let (least, most) = doubled_bounds attempt early in
    let (low, high) = between (doubled attempt) base least most in
    (
      ap (λ m. int64_of (m * base % 2 ^ 64)) (multiplier-doubled attempt early)
          ∙ int64_of-small (doubled attempt * base) (omega (arith, high, fits)),
      low,
      high,
    )
