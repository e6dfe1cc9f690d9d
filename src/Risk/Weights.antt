-- ===== src/Risk/Weights.antt =====
-- The weights of a snapshot are fractions of one.
use real_time_portfolio_risk.Prelude.{
  ◌≡◌, refl, sym, ◌∙◌, Str, str_lt, text_eq, List, [], ◌∷◌, none, some, Option, Option-cases,
  Bool-cases, ◌⊎◌, ℕ, inl, inr, All,
}
use mathlib.Core.Path.{subst}
use real_time_portfolio_risk.Prelude.Dict.{Dict, lookup}
use real_time_portfolio_risk.Prelude.Sort.{sort, All-sort}
use real_time_portfolio_risk.Decimal.{Decimal, IsDecimal, ◌≼◌, ◌≺◌}
use real_time_portfolio_risk.Decimal.Order
use real_time_portfolio_risk.Decimal.Ring
use real_time_portfolio_risk.Risk.{
  Float64, Constants, PositionInput, Input, SymbolRisk, Snapshot, Exposures, Built, built,
  missing_sigma, panicked, invalid_variance, expose, exposure_of, weigh, weights,
  sigma_portfolio_uncorrelated, assemble, build_snapshot, normalize_top_n,
}

module _ {D : Type 0} ⦃d : Decimal D⦄ where
  -- An exposure within a total.
  abbrev pub IsExposed : D → SymbolRisk D → Type 0
  IsExposed total s = (d.nought ≼ s.exposure) × (s.exposure ≼ total) × (s.weight ≡ d.nought)

  abbrev pub IsWeighed : SymbolRisk D → Type 0
  IsWeighed s = (d.nought ≼ s.exposure) × (d.nought ≼ s.weight) × (s.weight ≼ d.one)

  module _ (laws : IsDecimal D) where
    open laws use {add_comm, div-nonneg, div-le-one, lt_irrefl, nought-lt-one, greater_than-eq}

    abbrev OnBuilt : {A : Type 0} → (A → Type 0) → Built A → Type 0
    OnBuilt P (built a) = P a
    OnBuilt P (missing_sigma s) = Unit
    OnBuilt P invalid_variance = Unit
    OnBuilt P panicked = Unit

    abbrev OnSome : {A : Type 0} → (A → Type 0) → Option A → Type 0
    OnSome P (some a) = P a
    OnSome P none = Unit

    abbrev WithinTotal : D → Exposures D → Type 0
    WithinTotal total e = (total ≼ e.total) × All (IsExposed e.total) e.priced

    grows : (total x : D) → d.nought ≼ x → total ≼ d.add total x
    grows total x h =
        let e = Order.le-add laws d.nought x total h in
        rw (Ring.nought-add laws total, add_comm x total) at e

    skip :
        (total : D) (symbol : Str) (r : Built (Exposures D))
        → OnBuilt (WithinTotal total) r
        → OnBuilt (WithinTotal total) (elim r [
          | built e ↦ built (record e { unpriced = symbol ∷ e.unpriced })
          | missing_sigma s ↦ missing_sigma s
          | invalid_variance ↦ invalid_variance
          | panicked ↦ panicked
        ])
    skip total symbol (built e) h = h
    skip total symbol (missing_sigma s) h = tt
    skip total symbol invalid_variance h = tt
    skip total symbol panicked h = tt

    price_in :
        (total : D) (p : PositionInput D) (x sigma : D) (r : Built (Exposures D))
        → d.nought ≼ total
        → d.nought ≼ x
        → OnBuilt (WithinTotal (d.add total x)) r
        → OnBuilt (WithinTotal total) (elim r [
          | built e ↦ built (record e {
            priced =
                record { symbol = p.symbol; exposure = x; weight = d.nought; sigma_1d = sigma }
                ∷ e.priced;
          })
          | missing_sigma s ↦ missing_sigma s
          | invalid_variance ↦ invalid_variance
          | panicked ↦ panicked
        ])
    price_in total p x sigma (built e) ht hx (le, bs) =
        let x_le = rw (add_comm x total) at (grows x total ht) in
        (
          Order.le_trans laws _ _ _ (grows total x hx) le,
          ((hx, Order.le_trans laws _ _ _ x_le le, refl), bs),
        )
    price_in total p x sigma (missing_sigma s) ht hx h = tt
    price_in total p x sigma invalid_variance ht hx h = tt
    price_in total p x sigma panicked ht hx h = tt

    expose-WithinTotal :
        (prices sigmas : Dict Str D) (total : D) (positions : List (PositionInput D))
        → d.nought ≼ total
        → OnBuilt (WithinTotal total) (expose prices sigmas total positions)
    unfolding expose
    expose-WithinTotal prices sigmas total [] h = (lt_irrefl total, tt)
    expose-WithinTotal prices sigmas total (p ∷ positions) h =
        elim (Option-cases (lookup p.symbol prices)) [
          | inl e ↦
              rw (expose, e)
                (skip total p.symbol _ (expose-WithinTotal prices sigmas total positions h))
          | inr (price, e) ↦ elim (Option-cases (lookup p.symbol sigmas)) [
            | inl e' ↦ rw (expose, e, e') tt
            | inr (sigma, e') ↦
                let x = exposure_of p.quantity price in
                let hx = Order.abs_nonneg laws (d.mul p.quantity price) in
                rw (expose, e, e')
                  (price_in total p x sigma _ h hx (
                    expose-WithinTotal prices sigmas (d.add total x) positions
                      (Order.add_nonneg laws _ _ h hx)))
          ]
        ]

    weigh-IsWeighed :
        (total : D) (symbols : List (SymbolRisk D))
        → d.nought ≺ total
        → All (IsExposed total) symbols
        → OnSome (All IsWeighed) (weigh total symbols)
    unfolding weigh
    weigh-IsWeighed total [] pos b = tt
    weigh-IsWeighed total (s ∷ symbols) pos ((low, high, flat), bs) =
        elim (Option-cases (d.div s.exposure total)) [
          | inl e ↦ rw (weigh, e) tt
          | inr (w, e) ↦
              rw (weigh, e)
                (weighed s w (weigh total symbols)
                  (low, div-nonneg _ _ w low pos e, div-le-one _ _ w high pos e)
                  (weigh-IsWeighed total symbols pos bs))
        ]
      where
        weighed :
            (s : SymbolRisk D) (w : D) (r : Option (List (SymbolRisk D)))
            → IsWeighed (record s { weight = w })
            → OnSome (All IsWeighed) r
            → OnSome
                (All IsWeighed)
                (elim r [ none ↦ none | some rest ↦ some (record s { weight = w } ∷ rest) ])
        weighed s w none h hs = tt
        weighed s w (some rest) h hs = (h, hs)

    unweighed :
        (total : D) (symbols : List (SymbolRisk D))
        → All (IsExposed total) symbols
        → All IsWeighed symbols
    unweighed total [] b = tt
    unweighed total (s ∷ symbols) ((low, high, flat), bs) = (
      (low, rw flat (lt_irrefl d.nought), rw flat (Order.lt_asymm laws _ _ nought-lt-one)),
      unweighed total symbols bs,
    )

    weights-IsWeighed :
        (total : D) (symbols : List (SymbolRisk D))
        → All (IsExposed total) symbols
        → OnSome (All IsWeighed) (weights total symbols)
    unfolding weights
    weights-IsWeighed total symbols b = elim (Bool-cases (d.greater_than total d.nought)) [
      | inl e ↦ rw e (weigh-IsWeighed total symbols (sym (greater_than-eq total d.nought) ∙ e) b)
      | inr e ↦ rw e (unweighed total symbols b)
    ]

    Built-cases :
        {A : Type 0} (r : Built A)
        → ((a : A) × (r ≡ built a))
          ⊎ ((s : Str) × (r ≡ missing_sigma s))
          ⊎ (r ≡ invalid_variance)
          ⊎ (r ≡ panicked)
    Built-cases (built a) = inl (a, refl)
    Built-cases (missing_sigma s) = inr (inl (s, refl))
    Built-cases invalid_variance = inr (inr (inl refl))
    Built-cases panicked = inr (inr (inr refl))

    module _ {F : Type 0} (f : Float64 D F) (k : Constants D) where
      abbrev Weighed : Snapshot D → Type 0
      Weighed snap = All IsWeighed snap.exposure_by_symbol

      assemble-Weighed :
          (n : ℕ) (total : D) (unpriced : List Str) (symbols : List (SymbolRisk D))
          → All IsWeighed symbols
          → OnBuilt Weighed (assemble f k n total unpriced symbols)
      unfolding assemble
      assemble-Weighed n total unpriced symbols h =
          elim (Built-cases (sigma_portfolio_uncorrelated f symbols)) [
            | inl (sigma, e) ↦ rw (assemble, e) h
            | inr (inl (s, e)) ↦ rw (assemble, e) tt
            | inr (inr (inl e)) ↦ rw (assemble, e) tt
            | inr (inr (inr e)) ↦ rw (assemble, e) tt
          ]

      build_snapshot-Weighed : (input : Input D) → OnBuilt Weighed (build_snapshot f k input)
      unfolding build_snapshot
      build_snapshot-Weighed input =
          elim (Built-cases (expose input.prices input.sigma_1d d.nought input.positions)) [
            | inr (inl (s, e)) ↦ rw (build_snapshot, e) tt
            | inr (inr (inl e)) ↦ rw (build_snapshot, e) tt
            | inr (inr (inr e)) ↦ rw (build_snapshot, e) tt
            | inl (x, e) ↦
                let symbols = sort (λ a b. str_lt a.symbol b.symbol) x.priced in
                let within = subst (OnBuilt (WithinTotal d.nought)) e (
                  expose-WithinTotal input.prices input.sigma_1d d.nought input.positions
                    (lt_irrefl d.nought)) in
                let good = weights-IsWeighed x.total symbols (
                  All-sort (λ a b. str_lt a.symbol b.symbol) (IsExposed x.total) x.priced
                    within.1) in
                elim (Option-cases (weights x.total symbols)) [
                  | inl w ↦ rw (build_snapshot, e, w) tt
                  | inr (out, w) ↦
                      rw (build_snapshot, e, w)
                        (assemble-Weighed (normalize_top_n input.top_n) x.total x.unpriced out
                          (subst (OnSome (All IsWeighed)) w good))
                ]
          ]

      -- In every snapshot that is built, each exposure is nonnegative and each weight lies between
      -- zero and one, whatever the signs of the quantities and prices are.
      pub build_snapshot-IsWeighed :
          (input : Input D) (snap : Snapshot D)
          → build_snapshot f k input ≡ built snap
          → All IsWeighed snap.exposure_by_symbol
      build_snapshot-IsWeighed input snap e =
          subst (OnBuilt Weighed) e (build_snapshot-Weighed input)
