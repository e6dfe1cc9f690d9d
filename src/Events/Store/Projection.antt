-- ===== src/Events/Store/Projection.antt =====
-- The rows of `positions_projection` after a batch.
use real_time_portfolio_risk.Prelude.{
  Str, ◌==◌, text_eq, ◌≡◌, ap, ==_iff, ◌∙◌, true, false, Bool, Bool-cases, inl, inr, none, some,
  Option, if◌then◌else◌, List, [], ◌∷◌, arith,
}
use real_time_portfolio_risk.Prelude.Dict.{lookup, lookup-insert, lookup-erase}
use real_time_portfolio_risk.Decimal.{Decimal}
use real_time_portfolio_risk.Domain.Positions.{PositionLot, Positions}
use real_time_portfolio_risk.Portfolio.Aggregate.{Aggregate, aggregate_lot}
use real_time_portfolio_risk.Events.Store.{persist_lot, persist_lots}

abbrev pub contains : Str → List Str → Bool
contains x [] = false
contains x (y ∷ ys) = if y == x then true else contains x ys

module _ {D : Type 0} ⦃d : Decimal D⦄ where
  -- The row that the schema keeps for a lot: eight decimal places, and none for a lot that is flat
  -- and has no realized profit.
  unfoldable pub row_of : PositionLot D → Option (PositionLot D)
  row_of lot =
      if d.is_zero lot.quantity
      then if d.is_zero lot.realized_pnl
        then none
        else some (record {
          quantity = d.round d.nought;
          average_cost = d.round d.nought;
          realized_pnl = d.round lot.realized_pnl;
        })
      else some (record {
        quantity = d.round lot.quantity;
        average_cost = d.round lot.average_cost;
        realized_pnl = d.round lot.realized_pnl;
      })

  lookup-persist_lot :
      (s j : Str) (lot : PositionLot D) (rows : Positions D)
      → lookup j (persist_lot s lot rows) ≡ (if s == j then row_of lot else lookup j rows)
  unfolding persist_lot row_of
  lookup-persist_lot s j lot rows = grind (arith, lookup-insert, lookup-erase)

  -- The row of a symbol is the aggregate's lot.
  abbrev pub Mirrors : Str → Aggregate D → Positions D → Str → Type 0
  Mirrors pid agg rows j = lookup j rows ≡ row_of (aggregate_lot pid j agg)

  written :
      (pid : Str) (agg : Aggregate D) (s j : Str) (rows : Positions D)
      → (s == j) ≡ true
      → Mirrors pid agg (persist_lot s (aggregate_lot pid s agg) rows) j
  written pid agg s j rows e =
      lookup-persist_lot s j _ rows
      ∙ rw e (ap (λ k. row_of (aggregate_lot pid k agg)) ((==_iff s j).0 e))

  pub persist_lots-keeps :
      (pid : Str) (agg : Aggregate D) (symbols : List Str) (rows : Positions D) (j : Str)
      → Mirrors pid agg rows j
      → Mirrors pid agg (persist_lots pid agg symbols rows) j
  unfolding persist_lots
  persist_lots-keeps pid agg [] rows j m = m
  persist_lots-keeps pid agg (s ∷ symbols) rows j m =
      persist_lots-keeps pid agg symbols _ j (elim (Bool-cases (s == j)) [
        | inl e ↦ written pid agg s j rows e
        | inr e ↦ lookup-persist_lot s j _ rows ∙ rw e m
      ])

  pub persist_lots-writes :
      (pid : Str) (agg : Aggregate D) (symbols : List Str) (rows : Positions D) (j : Str)
      → contains j symbols ≡ true
      → Mirrors pid agg (persist_lots pid agg symbols rows) j
  unfolding persist_lots
  persist_lots-writes pid agg [] rows j m = absurd (ground arith)
  persist_lots-writes pid agg (s ∷ symbols) rows j m = elim (Bool-cases (s == j)) [
    | inl e ↦ persist_lots-keeps pid agg symbols _ j (written pid agg s j rows e)
    | inr e ↦ persist_lots-writes pid agg symbols _ j (rw e at m)
  ]
