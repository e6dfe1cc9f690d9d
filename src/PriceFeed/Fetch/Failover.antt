-- ===== src/PriceFeed/Fetch/Failover.antt =====
-- A fetch ends after a bounded number of calls, with the quotes of the first provider that answers.
use real_time_portfolio_risk.Prelude.{
  ℕ, suc, zero, ◌+◌, ◌*◌, ◌≤◌, ◌<◌, ◌≡◌, refl, ap, ◌⊎◌, inl, inr, Str, ltb, nat_eq, Bool, true,
  false, ◌||◌, Bool-cases, List, [], ◌∷◌, ◌++◌, length, All, arith,
}
use real_time_portfolio_risk.PriceFeed.Fetch.{
  PriceQuote, Fetched, quotes, refused, Provider, FetchError, Fetch, got, lost, Calls,
  fetch_attempts, Fed, fed, starved, failover, fetch_with_failover,
}

module _ {D : Type 0} (is_cancelled : ℕ → Bool) (symbols : List Str) where
  Fetched-cases :
      (f : Fetched D)
      → ((qs : List (PriceQuote D)) × (f ≡ quotes qs)) ⊎ ((b : Bool) × (f ≡ refused b))
  Fetched-cases (quotes qs) = inl (qs, refl)
  Fetched-cases (refused b) = inr (b, refl)

  -- A call with a number from `m` to before `n` gave this.
  abbrev pub HasGiven : ℕ → ℕ → Provider D → Fetched D → Type 0
  HasGiven m n p f = (k : ℕ) × (m ≤ k) × (k < n) × (p.fetch_quotes k symbols ≡ f)

  abbrev pub HasRefused : ℕ → ℕ → Provider D → Type 0
  HasRefused m n p = (b : Bool) × HasGiven m n p (refused b)

  abbrev IsOutcome : ℕ → ℕ → Provider D → Fetch D → Type 0
  IsOutcome m n p (got qs) = HasGiven m n p (quotes qs)
  IsOutcome m n p (lost e) = HasRefused m n p

  -- The calls of a provider, from `m` on: at least one, at most `bound`, and the last one decides.
  abbrev IsTried : ℕ → ℕ → Provider D → Fetch D × Calls → Type 0
  IsTried m bound p out =
      (m < out.1.fetches) × (out.1.fetches ≤ bound) × IsOutcome m out.1.fetches p out.0

  HasGiven-wider :
      (m m' n n' : ℕ) (p : Provider D) (f : Fetched D)
      → m ≤ m'
      → n' ≤ n
      → HasGiven m' n' p f
      → HasGiven m n p f
  HasGiven-wider m m' n n' p f a b (k, from, to, e) =
      (k, omega (arith, a, from), omega (arith, b, to), e)

  earlier :
      (m m' bound bound' : ℕ) (p : Provider D) (out : Fetch D × Calls)
      → m ≤ m'
      → bound' ≤ bound
      → IsTried m' bound' p out
      → IsTried m bound p out
  earlier m m' bound bound' p (got qs, c) a b (lt, le, g) = (
    omega (arith, lt, a),
    omega (arith, le, b),
    HasGiven-wider m m' c.fetches c.fetches p _ a (omega arith) g,
  )
  earlier m m' bound bound' p (lost e, c) a b (lt, le, (r, g)) = (
    omega (arith, lt, a),
    omega (arith, le, b),
    (r, HasGiven-wider m m' c.fetches c.fetches p _ a (omega arith) g),
  )

  fetch_attempts-IsTried :
      (p : Provider D) (more : ℕ) (c : Calls)
      → IsTried c.fetches (c.fetches + suc more) p (fetch_attempts is_cancelled symbols p more c)
  unfolding fetch_attempts
  fetch_attempts-IsTried p zero c = elim (Fetched-cases (p.fetch_quotes c.fetches symbols)) [
    | inl (qs, e) ↦
        rw (fetch_attempts, e) (omega arith, omega arith, (c.fetches, omega arith, omega arith, e))
    | inr (b, e) ↦
        rw (fetch_attempts, e)
          (omega arith, omega arith, (b, (c.fetches, omega arith, omega arith, e)))
  ]
  fetch_attempts-IsTried p (suc more) c = elim (Fetched-cases (p.fetch_quotes c.fetches symbols)) [
    | inl (qs, e) ↦
        rw (fetch_attempts, e) (omega arith, omega arith, (c.fetches, omega arith, omega arith, e))
    | inr (false, e) ↦
        rw (fetch_attempts, e)
          (omega arith, omega arith, (false, (c.fetches, omega arith, omega arith, e)))
    | inr (true, e) ↦ elim (Bool-cases (is_cancelled c.sleeps)) [
      | inl stop ↦
          rw (fetch_attempts, e, stop)
            (omega arith, omega arith, (true, (c.fetches, omega arith, omega arith, e)))
      | inr on ↦
          rw (fetch_attempts, e, on)
            (let c' : Calls = record { fetches = c.fetches + 1; sleeps = c.sleeps + 1 } in
              earlier c.fetches (c.fetches + 1) _ (c.fetches + 1 + suc more) p
                (fetch_attempts is_cancelled symbols p more c') (omega arith) (omega arith)
                (fetch_attempts-IsTried p more c'))
    ]
  ]

  -- What a fetch over the providers gives: the quotes of one of them, all before it having refused
  -- their last call, or an error after all have.
  abbrev pub IsFed : ℕ → ℕ → List (Provider D) → Bool → Fed D → Type 0
  IsFed m n providers later (fed qs name failed_over) =
      (before after : List (Provider D)) × (p : Provider D) × (providers ≡ before ++ (p ∷ after))
      × All (HasRefused m n) before
      × HasGiven m n p (quotes qs)
      × (name ≡ p.name)
      × (failed_over ≡ (later || ltb 0 (length before)))
  IsFed m n providers later (starved e) = All (HasRefused m n) providers

  All-HasRefused-wider :
      (m m' n n' : ℕ) (ps : List (Provider D))
      → m ≤ m'
      → n' ≤ n
      → All (HasRefused m' n') ps
      → All (HasRefused m n) ps
  All-HasRefused-wider m m' n n' [] a b h = tt
  All-HasRefused-wider m m' n n' (p ∷ ps) a b ((r, g), hs) =
      ((r, HasGiven-wider m m' n n' p (refused r) a b g), All-HasRefused-wider m m' n n' ps a b hs)

  -- The providers after one that refused.
  after_refusal :
      (m m' n : ℕ) (p : Provider D) (providers : List (Provider D)) (later : Bool) (out : Fed D)
      → m ≤ m'
      → HasRefused m n p
      → IsFed m' n providers true out
      → IsFed m n (p ∷ providers) later out
  after_refusal m m' n p providers later (fed qs name failed_over) a r
        (before, after, q, split, refusals, given, named, flag) =
      (
        p ∷ before,
        after,
        q,
        ap (◌∷◌ p) split,
        (r, All-HasRefused-wider m m' n n before a (omega arith) refusals),
        HasGiven-wider m m' n n q (quotes qs) a (omega arith) given,
        named,
        ground (arith, flag),
      )
  after_refusal m m' n p providers later (starved e) a r refusals =
      (r, All-HasRefused-wider m m' n n providers a (omega arith) refusals)

  abbrev IsBounded : ℕ → ℕ → List (Provider D) → Bool → Fed D × Calls → Type 0
  IsBounded m attempts providers later out =
      IsFed m out.1.fetches providers later out.0
      × (m ≤ out.1.fetches)
      × (out.1.fetches ≤ m + attempts * length providers)

  failover-IsBounded :
      (max_retries : ℕ) (providers : List (Provider D)) (later : Bool) (last : FetchError)
      (c : Calls)
      → IsBounded c.fetches
          (suc max_retries)
          providers
          later
          (failover is_cancelled symbols max_retries providers later last c)
  unfolding failover
  failover-IsBounded max_retries [] later last c = (tt, omega arith, omega arith)
  failover-IsBounded max_retries (p ∷ providers) later last c =
      let out = fetch_attempts is_cancelled symbols p max_retries c in
      goes_on out.0 out.1 (λ e c'. failover-IsBounded max_retries providers true e c')
        (fetch_attempts-IsTried p max_retries c)
    where
      goes_on :
          (f : Fetch D) (c' : Calls)
          → ((e : FetchError) (c'' : Calls)
              → IsBounded c''.fetches
                  (suc max_retries)
                  providers
                  true
                  (failover is_cancelled symbols max_retries providers true e c''))
          → IsTried c.fetches (c.fetches + suc max_retries) p (f, c')
          → IsBounded c.fetches (suc max_retries) (p ∷ providers) later (elim f [
            | got qs ↦ (fed qs p.name later, c')
            | lost e ↦ failover is_cancelled symbols max_retries providers true e c'
          ])
      goes_on (got qs) c' later_ones (lt, le, g) = (
        ([], providers, p, refl, tt, g, refl, ground arith),
        omega (arith, lt),
        grind (arith, le),
      )
      goes_on (lost e) c' later_ones (lt, le, (r, g)) =
          let (answer, from, to) = later_ones e c' in
          let n = (failover is_cancelled symbols max_retries providers true e c').1.fetches in
          (
            after_refusal c.fetches c'.fetches n p providers later _ (omega (arith, lt))
                (
                  r,
                  HasGiven-wider c.fetches c.fetches n c'.fetches p (refused r) (omega arith) from
                      g,
                )
                answer,
            omega (arith, lt, from),
            grind (arith, le, to),
          )

  -- A fetch makes at most one call more than there are retries for each provider. It gives the
  -- quotes of a call of one provider, where every provider before it refused a call, with the name
  -- of that provider and whether it was not the first; or it gives an error, and every provider
  -- refused a call.
  pub fetch_with_failover-IsFed :
      (max_retries : ℕ) (providers : List (Provider D)) (c : Calls)
      → let out = fetch_with_failover is_cancelled symbols max_retries providers c in
        IsFed c.fetches out.1.fetches providers false out.0
        × (out.1.fetches ≤ c.fetches + suc max_retries * length providers)
  unfolding fetch_with_failover
  fetch_with_failover-IsFed max_retries providers c =
      let (answer, _, bound) =
        failover-IsBounded max_retries providers false FetchError.no_providers c in
      (answer, bound)
