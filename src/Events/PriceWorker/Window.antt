-- ===== src/Events/PriceWorker/Window.antt =====
-- The rows of daily returns that the price batches keep.
use real_time_portfolio_risk.Prelude.{
  ℕ, suc, zero, ◌≤◌, ◌<◌, ◌≡◌, refl, text_eq, nat_eq, ◌==◌, ==_iff, ltb, List, [], ◌∷◌, length,
  take, some, Bool-cases, inl, inr, All, All-take, length-take, arith,
}
use real_time_portfolio_risk.Decimal.{Decimal, IsDecimal, ◌≺◌}
use real_time_portfolio_risk.Events.Store.{ReturnRow}
use real_time_portfolio_risk.Events.Store.Prices.{
  put_return, trim_symbol_returns_window, compute_daily_return,
}

module _ {D : Type 0} where
  abbrev pub IsBefore : ℕ → ReturnRow D → Type 0
  IsBefore date r = r.return_date < date

  -- One row for a date, the latest first.
  abbrev pub IsDescending : List (ReturnRow D) → Type 0
  IsDescending [] = Unit
  IsDescending (r ∷ rows) = All (IsBefore r.return_date) rows × IsDescending rows

  IsBefore-trans :
      (m n : ℕ) (rows : List (ReturnRow D)) → m ≤ n → All (IsBefore m) rows → All (IsBefore n) rows
  IsBefore-trans m n [] le h = tt
  IsBefore-trans m n (r ∷ rows) le (h, hs) = (omega (arith, h, le), IsBefore-trans m n rows le hs)

  All-put_return {κ} :
      (P : ReturnRow D → Type κ) (row : ReturnRow D) (rows : List (ReturnRow D))
      → P row
      → All P rows
      → All P (put_return row rows)
  unfolding put_return
  All-put_return P row [] p ps = (p, tt)
  All-put_return P row (r ∷ rows) p (q, ps) = elim (Bool-cases (r.return_date == row.return_date)) [
    | inl e ↦ rw e (p, ps)
    | inr e ↦ elim (Bool-cases (ltb r.return_date row.return_date)) [
      | inl l ↦ rw (e, l) (p, (q, ps))
      | inr l ↦ rw (e, l) (q, All-put_return P row rows p ps)
    ]
  ]

  put_return-IsDescending :
      (row : ReturnRow D) (rows : List (ReturnRow D))
      → IsDescending rows
      → IsDescending (put_return row rows)
  unfolding put_return
  put_return-IsDescending row [] h = (tt, tt)
  put_return-IsDescending row (r ∷ rows) (h, hs) =
      elim (Bool-cases (r.return_date == row.return_date)) [
        | inl e ↦ rw e (
          IsBefore-trans r.return_date row.return_date rows
              (ground (arith, e, ==_iff r.return_date row.return_date)) h,
          hs,
        )
        | inr e ↦ elim (Bool-cases (ltb r.return_date row.return_date)) [
          | inl l ↦
              rw (e, l)
                (
                  (
                    ground (arith, l),
                    IsBefore-trans r.return_date row.return_date rows (ground (arith, l)) h,
                  ),
                  (h, hs),
                )
          | inr l ↦
              rw (e, l)
                (
                  All-put_return (IsBefore r.return_date) row rows
                      (ground (arith, e, l, ==_iff r.return_date row.return_date)) h,
                  put_return-IsDescending row rows hs,
                )
        ]
      ]

  take-IsDescending :
      (n : ℕ) (rows : List (ReturnRow D)) → IsDescending rows → IsDescending (take n rows)
  take-IsDescending zero rows h = tt
  take-IsDescending (suc n) [] h = tt
  take-IsDescending (suc n) (r ∷ rows) (h, hs) =
      (All-take (IsBefore r.return_date) n rows h, take-IsDescending n rows hs)

module _ {D : Type 0} ⦃d : Decimal D⦄ where
  abbrev pub HasClose : ReturnRow D → Type 0
  HasClose r = d.nought ≺ r.close_price

  -- The rows of one symbol: at most sixty days, one row for a day, the latest first, and every close
  -- more than zero.
  pub record IsWindow (rows : List (ReturnRow D)) : Type 0 where
    pub short : length rows ≤ 60
    pub descending : IsDescending rows
    pub closes : All HasClose rows

  pub compute_daily_return-quotient :
      (laws : IsDecimal D) (prev close : D)
      → d.nought ≺ prev
      → d.nought ≺ close
      → (q : D) × (d.div close prev ≡ some q)
        × (compute_daily_return prev close ≡ some (d.sub q d.one))
  unfolding compute_daily_return
  compute_daily_return-quotient laws prev close p q = elim (laws.div_total close prev) [
    | inl z ↦ ground (arith, z, p, laws.lt_irrefl d.nought)
    | inr (quot, e) ↦ (
      quot,
      e,
      rw (laws.greater_than-eq prev d.nought, p, laws.greater_than-eq close d.nought, q, e) refl,
    )
  ]

  pub trim-IsWindow :
      (row : ReturnRow D) (rows : List (ReturnRow D))
      → HasClose row
      → IsWindow rows
      → IsWindow (trim_symbol_returns_window 60 (put_return row rows))
  unfolding trim_symbol_returns_window
  trim-IsWindow row rows c w = record {
    short = length-take 60 (put_return row rows);
    descending =
        take-IsDescending 60 (put_return row rows) (put_return-IsDescending row rows w.descending);
    closes =
        All-take HasClose 60 (put_return row rows) (All-put_return HasClose row rows c w.closes);
  }
