-- ===== src/PriceFeed/Fetch.antt =====
-- `fetchWithFailover`, `fetchFromProviderWithRetry` and `sleepBackoff`. A provider is an outside
-- service: what its n-th call gives is a function of n, and so is whether the context is cancelled
-- during the n-th sleep.
pub mod Failover
pub mod Backoff
use real_time_portfolio_risk.Prelude.{
  ℕ, suc, zero, ◌+◌, ◌-◌, ◌*◌, ◌%◌, ◌^◌, Str, ltb, nat_eq, ◌==◌, Bool, true, false, not, ◌||◌, ◌&&◌,
  List, [], ◌∷◌, none, some, Option, if◌then◌else◌,
}
use real_time_portfolio_risk.Prelude.Int.{ℤ, pos, negsuc}
use real_time_portfolio_risk.Clock.{Time, Duration}

-- `pricesource.PriceQuote`, without the provider's own symbol, which is not read.
pub record PriceQuote (D : Type 0) : Type 0 where
  pub symbol : Str
  pub price : D
  pub currency : Str
  pub as_of : Time
  pub source_sequence : ℤ

-- A fetch gives quotes or an error, which is a `ProviderError` with `Retryable` set or another one.
pub data Fetched (D : Type 0) : Type 0 where
  quotes : List (PriceQuote D) → Fetched D
  refused : Bool → Fetched D

-- A provider with what its calls give, by their number.
pub record Provider (D : Type 0) : Type 0 where
  pub name : Str
  pub fetch_quotes : ℕ → List Str → Fetched D

-- Errors of a fetch: the last one of a provider, a cancelled context, or no provider at all.
pub data FetchError : Type 0 where
  fetch_failed cancelled no_providers : FetchError

pub data Fetch (D : Type 0) : Type 0 where
  got : List (PriceQuote D) → Fetch D
  lost : FetchError → Fetch D

-- What `fetchWithFailover` returns: the quotes with the provider's name and whether it was not the
-- first, or an error.
pub data Fed (D : Type 0) : Type 0 where
  fed : List (PriceQuote D) → Str → Bool → Fed D
  starved : FetchError → Fed D

-- The calls made so far.
pub record Calls : Type 0 where
  pub fetches : ℕ
  pub sleeps : ℕ

-- The value of an `int64` with these 64 bits.
unfoldable pub int64_of : ℕ → ℤ
int64_of bits = if ltb bits (2 ^ 63) then pos bits else negsuc (2 ^ 64 - bits - 1)

-- The bits of `multiplier`: `1 << attempt` on an `int` of 64 bits, at most 16; with the sign bit it
-- is negative, so not above 16.
unfoldable pub multiplier : ℕ → ℕ
multiplier attempt = let m = 2 ^ attempt % 2 ^ 64 in if ltb m (2 ^ 63) && ltb 16 m then 16 else m

-- The delay before the jitter: a product of two values of type `int64`.
unfoldable pub backoff_delay : Duration → ℕ → ℤ
unfolding int64_of multiplier
backoff_delay retry_delay attempt =
    let base = if ltb 0 retry_delay then retry_delay else 500 * 10 ^ 6 in
    int64_of (multiplier attempt * base % 2 ^ 64)

module _ {D : Type 0} (is_cancelled : ℕ → Bool) (symbols : List Str) where
  -- The attempts that are left after this one: `more`.
  unfoldable pub fetch_attempts : Provider D → ℕ → Calls → Fetch D × Calls
  fetch_attempts provider zero c =
      let c' = record c { fetches = c.fetches + 1 } in
      elim (provider.fetch_quotes c.fetches symbols) [
        | quotes qs ↦ (got qs, c')
        | refused retryable ↦ (lost FetchError.fetch_failed, c')
      ]
  fetch_attempts provider (suc more) c =
      let c' = record c { fetches = c.fetches + 1 } in
      let again = fetch_attempts provider more (record c' { sleeps = c.sleeps + 1 }) in
      elim (provider.fetch_quotes c.fetches symbols) [
        | quotes qs ↦ (got qs, c')
        | refused retryable ↦
            if not retryable
            then (lost FetchError.fetch_failed, c')
            else if is_cancelled c.sleeps
            then (lost FetchError.cancelled, record c' { sleeps = c.sleeps + 1 })
            else again
      ]

  -- `fetchFromProviderWithRetry`: `max_retries + 1` attempts.
  abbrev pub fetch_from_provider_with_retry : ℕ → Provider D → Calls → Fetch D × Calls
  fetch_from_provider_with_retry max_retries provider c = fetch_attempts provider max_retries c

  -- The loop over the providers; `last` is the error so far and `later` says that i > 0.
  unfoldable pub failover : ℕ → List (Provider D) → Bool → FetchError → Calls → Fed D × Calls
  failover max_retries [] later last c = (starved last, c)
  failover max_retries (provider ∷ providers) later last c =
      let out = fetch_from_provider_with_retry max_retries provider c in
      elim out.0 [
        | got qs ↦ (fed qs provider.name later, out.1)
        | lost e ↦ failover max_retries providers true e out.1
      ]

  unfoldable pub fetch_with_failover : ℕ → List (Provider D) → Calls → Fed D × Calls
  fetch_with_failover max_retries providers c =
      failover max_retries providers false FetchError.no_providers c
