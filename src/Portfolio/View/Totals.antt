-- ===== src/Portfolio/View/Totals.antt =====
-- The totals of a view: market value is unrealized profit and the cost of what is priced.
use real_time_portfolio_risk.Prelude.{
  ◌≡◌, refl, sym, ap, ◌∙◌, Str, Bool, true, false, not, ◌&&◌, List, [], ◌∷◌, map, if◌then◌else◌,
  Bool-cases, inl, inr,
}
use real_time_portfolio_risk.Prelude.Dict.{Dict}
use real_time_portfolio_risk.Decimal.{Decimal, IsDecimal}
use real_time_portfolio_risk.Decimal.Ring
use real_time_portfolio_risk.Portfolio.View.{
  ProjectionRow, MarkToMarketRow, PortfolioTotals, PriceMarkInput, mark_to_market, add_totals,
  sum_from, sum_totals, marked, price_of,
}

module _ {D : Type 0} ⦃d : Decimal D⦄ where
  -- A row that counts: it is priced and open.
  abbrev pub counts : MarkToMarketRow D → Bool
  counts r = r.has_price && not (d.is_zero r.row.quantity)

  -- The cost of the rows that count.
  unfoldable pub priced_cost : List (MarkToMarketRow D) → D
  priced_cost [] = d.nought
  priced_cost (r ∷ rows) =
      d.add (if counts r then d.mul r.row.quantity r.row.average_cost else d.nought)
        (priced_cost rows)

  unfoldable pub realized : List (ProjectionRow D) → D
  realized [] = d.nought
  realized (p ∷ ps) = d.add p.realized_pnl (realized ps)

  module _ (laws : IsDecimal D) where
    open laws use {add_comm, add_assoc, add-nought, sub-add, mul_comm, mul-add}

    value_split :
        (price avg q : D) → d.mul price q ≡ d.add (d.mul (d.sub price avg) q) (d.mul q avg)
    value_split price avg q =
        ap (λ x. d.mul x q) (sym (sub-add price avg)) ∙ simp (Ring.add-mul laws, mul_comm, add_comm)

    -- One row keeps the books, from any totals.
    add_totals-split :
        (row : ProjectionRow D) (price : D) (has : Bool) (t : PortfolioTotals D) (c : D)
        → t.total_market_value ≡ d.add t.total_unrealized_pnl c
        → let r = mark_to_market row price has in
          let t' = add_totals t r in
          (t'.total_market_value
            ≡ d.add t'.total_unrealized_pnl
                (d.add c (if counts r then d.mul r.row.quantity r.row.average_cost else d.nought)))
          × (t'.total_realized_pnl ≡ d.add t.total_realized_pnl row.realized_pnl)
    unfolding mark_to_market add_totals
    add_totals-split row price false t c e = (e ∙ ap (d.add _) (sym (add-nought c)), refl)
    add_totals-split row price true t c e = elim (Bool-cases (d.is_zero row.quantity)) [
      | inl flat ↦ rw (flat, flat) (e ∙ ap (d.add _) (sym (add-nought c)), refl)
      | inr open_row ↦
          rw (open_row, open_row)
            (
              ap (λ x. d.add x (d.mul price row.quantity)) e
                  ∙ ap (d.add (d.add t.total_unrealized_pnl c))
                      (value_split price row.average_cost row.quantity)
                  ∙ Ring.add_swap laws _ _ _ _,
              refl,
            )
    ]

    sum_from-split :
        (prices : Dict Str (PriceMarkInput D)) (ps : List (ProjectionRow D)) (t : PortfolioTotals D)
        (c : D)
        → t.total_market_value ≡ d.add t.total_unrealized_pnl c
        → let t' = sum_from t (map (marked prices) ps) in
          (t'.total_market_value
            ≡ d.add t'.total_unrealized_pnl (d.add c (priced_cost (map (marked prices) ps))))
          × (t'.total_realized_pnl ≡ d.add t.total_realized_pnl (realized ps))
    unfolding sum_from priced_cost realized marked
    sum_from-split prices [] t c e = (rw add-nought e, sym (add-nought _))
    sum_from-split prices (p ∷ ps) t c e =
        let (price, has) = price_of p.symbol prices in
        let step = add_totals-split p price has t c e in
        let (value, profit) =
          sum_from-split prices ps (add_totals t (mark_to_market p price has)) _ step.0 in
        (
          value ∙ ap (d.add _) (add_assoc c _ _),
          profit ∙ ap (λ x. d.add x (realized ps)) step.1 ∙ add_assoc _ _ _,
        )

    -- The totals of the view of some positions under some prices: the market value is the
    -- unrealized profit and the cost of the rows that are priced and open, and the realized profit
    -- is that of all rows, priced or not.
    pub sum_totals-marked :
        (prices : Dict Str (PriceMarkInput D)) (positions : List (ProjectionRow D))
        → let rows = map (marked prices) positions in
          let tot = sum_totals rows in
          (tot.total_market_value ≡ d.add tot.total_unrealized_pnl (priced_cost rows))
          × (tot.total_realized_pnl ≡ realized positions)
    unfolding sum_totals
    sum_totals-marked prices positions =
        let (value, profit) =
          sum_from-split prices positions _ d.nought (sym (add-nought d.nought)) in
        (value ∙ ap (d.add _) (Ring.nought-add laws _), profit ∙ Ring.nought-add laws _)
