-- ===== src/Events/PriceWorker/Days.antt =====
-- The daily rows of a symbol after a price, described by the days before and after it, and what the
-- statements of postgres.go make of them.
use real_time_portfolio_risk.Prelude.{
  ℕ, ◌≤◌, ◌≡◌, ◌⊎◌, refl, ap, ◌∙◌, text_eq, nat_eq, ◌==◌, ==_iff, ltb, ◌&&◌, List, [], ◌∷◌, ◌++◌,
  take, some, none, Option, Bool-cases, inl, inr, All, if◌then◌else◌, arith,
}
use real_time_portfolio_risk.Clock.{Time}
use real_time_portfolio_risk.Decimal.{Decimal, IsDecimal, ◌≺◌}
use real_time_portfolio_risk.Events.Store.{ReturnRow}
use real_time_portfolio_risk.Events.Store.Prices.{
  event_utc_date, put_return, previous_close, fits_digits, fits_return, write_return,
  upsert_symbol_return, compute_daily_return,
}
use real_time_portfolio_risk.Events.PriceWorker.Window.{
  IsBefore, IsDescending, HasClose, compute_daily_return-quotient,
}

module _ {D : Type 0} where
  -- The rows of the days after a date, and of those before it.
  abbrev pub later : ℕ → List (ReturnRow D) → List (ReturnRow D)
  later date [] = []
  later date (r ∷ rows) = if ltb date r.return_date then r ∷ later date rows else later date rows

  abbrev pub earlier : ℕ → List (ReturnRow D) → List (ReturnRow D)
  earlier date [] = []
  earlier date (r ∷ rows) =
      if ltb r.return_date date then r ∷ earlier date rows else earlier date rows

  All-earlier_than :
      (n date : ℕ) (rows : List (ReturnRow D))
      → n ≤ date
      → All (IsBefore n) rows
      → (later date rows ≡ []) × (earlier date rows ≡ rows)
  All-earlier_than n date [] le h = (refl, refl)
  All-earlier_than n date (r ∷ rows) le (h, hs) =
      let (none_later, all_before) = All-earlier_than n date rows le hs in
      ground (arith, h, le, none_later, all_before)

  -- A row written by `ON CONFLICT` stands between the days after and before its own.
  pub put_return-later :
      (row : ReturnRow D) (rows : List (ReturnRow D))
      → IsDescending rows
      → put_return row rows ≡ later row.return_date rows ++ row ∷ earlier row.return_date rows
  unfolding put_return
  put_return-later row [] h = refl
  put_return-later row (r ∷ rows) (h, hs) = elim (Bool-cases (r.return_date == row.return_date)) [
    | inl e ↦
        let same = (==_iff r.return_date row.return_date).0 e in
        let (none_later, all_before) =
          All-earlier_than r.return_date row.return_date rows (omega (arith, same)) h in
        ground (arith, e, same, none_later, all_before)
    | inr e ↦ elim (Bool-cases (ltb r.return_date row.return_date)) [
      | inl l ↦
          let (none_later, all_before) =
            All-earlier_than r.return_date row.return_date rows (ground (arith, l)) h in
          ground (arith, e, l, none_later, all_before)
      | inr l ↦
          ground (arith, e, l, ==_iff r.return_date row.return_date, put_return-later row rows hs)
    ]
  ]

  -- The previous close is that of the first of the earlier rows.
  previous_close-earlier :
      (date : ℕ) (rows : List (ReturnRow D))
      → ((previous_close date rows ≡ none) × (earlier date rows ≡ []))
        ⊎ ((r : ReturnRow D) × (rest : List (ReturnRow D)) × (previous_close date rows
              ≡ some r.close_price)
            × (earlier date rows ≡ r ∷ rest))
  unfolding previous_close
  previous_close-earlier date [] = inl (refl, refl)
  previous_close-earlier date (r ∷ rows) = elim (Bool-cases (ltb r.return_date date)) [
    | inl l ↦ inr (r, earlier date rows, rw l refl, rw l refl)
    | inr l ↦ rw l (previous_close-earlier date rows)
  ]

  All-earlier {κ} :
      (P : ReturnRow D → Type κ) (date : ℕ) (rows : List (ReturnRow D))
      → All P rows
      → All P (earlier date rows)
  All-earlier P date [] h = tt
  All-earlier P date (r ∷ rows) (h, hs) = elim (Bool-cases (ltb r.return_date date)) [
    | inl l ↦ rw l (h, All-earlier P date rows hs)
    | inr l ↦ rw l (All-earlier P date rows hs)
  ]

module _ {D : Type 0} ⦃d : Decimal D⦄ where
  -- The return of a price on the close of the latest day before, if there is one.
  abbrev pub return_on : List (ReturnRow D) → D → Option D
  return_on [] price = none
  return_on (r ∷ rows) price = elim (d.div price r.close_price) [
    | none ↦ none
    | some q ↦ some (d.round_to_ten (d.sub q d.one))
  ]

  -- The row of the day of a price.
  abbrev pub day_row : D → Time → List (ReturnRow D) → ReturnRow D
  day_row price at rows = record {
    return_date = event_utc_date at;
    close_price = d.round price;
    daily_return = return_on (earlier (event_utc_date at) rows) price;
  }

  -- The latest sixty days, with that of the price written in.
  abbrev pub days_after : D → Time → List (ReturnRow D) → List (ReturnRow D)
  days_after price at rows =
      take 60
        (later (event_utc_date at) rows ++ day_row price at rows ∷ earlier (event_utc_date at) rows)

  return_on_quotient :
      (r : ReturnRow D) (rest : List (ReturnRow D)) (price q : D)
      → d.div price r.close_price ≡ some q
      → return_on (r ∷ rest) price ≡ some (d.round_to_ten (d.sub q d.one))
  return_on_quotient r rest price q e = rw (return_on, e) refl

  upsert_lem :
      (price : D) (at : Time) (rows : List (ReturnRow D)) (prev r : D)
      → previous_close (event_utc_date at) rows ≡ some prev
      → compute_daily_return prev price ≡ some r
      → upsert_symbol_return price at rows
        ≡ write_return
            (record {
              return_date = event_utc_date at;
              close_price = d.round price;
              daily_return = some (d.round_to_ten r);
            })
            rows
  unfolding upsert_symbol_return
  upsert_lem price at rows prev r before e = rw (upsert_symbol_return, before, e) refl

  -- The statements write this row, unless its close or its return does not fit.
  pub upsert_symbol_return-day_row :
      (laws : IsDecimal D) (price : D) (at : Time) (rows : List (ReturnRow D))
      → d.nought ≺ price
      → All HasClose rows
      → upsert_symbol_return price at rows ≡ (
          if fits_digits 12 (d.round price)
            && fits_return (return_on (earlier (event_utc_date at) rows) price)
          then some (put_return (day_row price at rows) rows)
          else none)
  unfolding upsert_symbol_return write_return
  upsert_symbol_return-day_row laws price at rows p closes =
      elim (previous_close-earlier (event_utc_date at) rows) [
        | inl (none_before, no_row) ↦ rw (upsert_symbol_return, none_before, no_row) refl
        | inr (r, rest, before, first) ↦
            let positive = rw first at (All-earlier HasClose (event_utc_date at) rows closes) in
            let (q, quot, e) =
              compute_daily_return-quotient laws r.close_price price positive.0 p in
            let written : return_on (earlier (event_utc_date at) rows) price
                ≡ some (d.round_to_ten (d.sub q d.one)) =
              ap (λ days. return_on days price) first ∙ return_on_quotient r rest price q quot in
            upsert_lem price at rows r.close_price (d.sub q d.one) before e
            ∙ rw (write_return, written) refl
      ]
