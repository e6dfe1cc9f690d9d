-- ===== src/Portfolio/Snapshot/RoundTrip.antt =====
-- A written snapshot is read back as the positions rounded to eight places.
use real_time_portfolio_risk.Prelude.{
  ◌≡◌, refl, ap, ◌∙◌, Str, ◌==◌, ==_iff, ==_refl, text_eq, str_lt, Bool, false, ◌||◌, List, [], ◌∷◌,
  map, none, some, if◌then◌else◌, get_or_else, arith, inl, inr, Bool-cases,
}
use mathlib.Core.Option
use real_time_portfolio_risk.Prelude.Dict.{Dict, lookup, insert, lookup-insert}
use real_time_portfolio_risk.Prelude.Sort.{sort, insert_sorted}
use real_time_portfolio_risk.Decimal.{Decimal, IsDecimal}
use real_time_portfolio_risk.Domain.Positions.{PositionLot, Positions, lot_of, positions_from_lots}
use real_time_portfolio_risk.Portfolio.Aggregate.{Aggregate}
use real_time_portfolio_risk.Portfolio.Snapshot.{
  TradePositionsSnapshot, SnapshotJson, IsFaithful, parsed, keys, snapshot_row,
  marshal_trade_positions_snapshot, parse_lot, parse_rows, parse_trade_positions_snapshot,
}

abbrev among : Str → List Str → Bool
among s [] = false
among s (k ∷ ks) = k == s || among s ks

among-insert_sorted :
    (s k : Str) (ks : List Str) → among s (insert_sorted str_lt k ks) ≡ (k == s || among s ks)
unfolding insert_sorted
among-insert_sorted s k [] = refl
among-insert_sorted s k (j ∷ ks) = ground (arith, among-insert_sorted s k ks)

among-sort : (s : Str) (ks : List Str) → among s (sort str_lt ks) ≡ among s ks
unfolding sort
among-sort s [] = refl
among-sort s (k ∷ ks) =
    among-insert_sorted s k (sort str_lt ks) ∙ ap (λ b. k == s || b) (among-sort s ks)

among_tail : (k : Str) (ks : List Str) → among [] (k ∷ ks) ≡ false → among [] ks ≡ false
among_tail k ks h = ground arith

among_head : (k : Str) (ks : List Str) → among [] (k ∷ ks) ≡ false → (k == []) ≡ false
among_head k ks h = ground arith

-- No symbol is the empty text.
abbrev pub IsNamed : {D : Type 0} → Positions D → Type 0
IsNamed p = lookup [] p ≡ none

among_of_named : {D : Type 0} (p : Positions D) → lookup [] p ≡ none → among [] (keys p) ≡ false
unfolding lookup
among_of_named [] h = refl
among_of_named ((k, l) ∷ p) h = ground (arith, among_of_named p)

lookup-positions_from_lots :
    {D : Type 0} ⦃d : Decimal D⦄ (s : Str) (lots : Dict Str (PositionLot D))
    → lookup s (positions_from_lots lots) ≡ lookup s lots
unfolding lookup positions_from_lots
lookup-positions_from_lots s [] = refl
lookup-positions_from_lots s ((k, l) ∷ lots) =
    lookup-insert k s l (positions_from_lots lots)
    ∙ ap (λ o. if k == s then some l else o) (lookup-positions_from_lots s lots)

module _ {D : Type 0} ⦃d : Decimal D⦄ where
  -- The lot with its three numbers rounded to eight places.
  abbrev pub round_lot : PositionLot D → PositionLot D
  round_lot l = record {
    quantity = d.round l.quantity;
    average_cost = d.round l.average_cost;
    realized_pnl = d.round l.realized_pnl;
  }

  lookup-among :
      (s : Str) (p : Positions D)
      → lookup s p ≡ (if among s (keys p) then some (lot_of s p) else none)
  unfolding lookup lot_of
  lookup-among s [] = refl
  lookup-among s ((k, l) ∷ p) = elim (Bool-cases (k == s)) [
    | inl e ↦ rw e
    | inr e ↦ rw e (lookup-among s p)
  ]

  module _ (laws : IsDecimal D) where
    not_empty :
        (json : SnapshotJson)
        → IsFaithful json
        → (s : TradePositionsSnapshot) → (json.marshal s == []) ≡ false
    not_empty json faithful s =
        ground (arith, ==_iff (json.marshal s) [], faithful.marshal-ne-nil s)

    rounded :
        (s : Str) (p : Positions D)
        → (if among s (keys p) then some (round_lot (lot_of s p)) else none)
          ≡ Option.map round_lot (lookup s p)
    rounded s p = elim (Bool-cases (among s (keys p))) [
      | inl e ↦ rw (lookup-among s p, e)
      | inr e ↦ rw (lookup-among s p, e)
    ]

    parse_lot-row :
        (s : Str) (l : PositionLot D)
        → (s == []) ≡ false
        → parse_lot (snapshot_row (s, l)) ≡ parsed (round_lot l)
    unfolding parse_lot
    parse_lot-row s l e = rw (
      e,
      laws.from_string-fixed l.quantity,
      laws.from_string-fixed l.average_cost,
      laws.from_string-fixed l.realized_pnl,
    )

    parse_rows-map :
        (p : Positions D) (ks : List Str) (lots : Dict Str (PositionLot D))
        → among [] ks ≡ false
        → (out : Dict Str (PositionLot D)) × (parse_rows
              (map snapshot_row (map (λ s. (s, lot_of s p)) ks))
              lots
            ≡ parsed out)
          × ((s : Str)
              → lookup s out
                ≡ (if among s ks then some (round_lot (lot_of s p)) else lookup s lots))
    unfolding parse_rows
    parse_rows-map p [] lots h = (lots, refl, λ s. refl)
    parse_rows-map p (k ∷ ks) lots h =
        let l = round_lot (lot_of k p) in
        let (out, e, found) = parse_rows-map p ks (insert k l lots) (among_tail k ks h) in
        (
          out,
          rw (parse_lot-row k (lot_of k p) (among_head k ks h), parse_rows) e,
          λ s. ground (arith, ==_iff k s, found s, lookup-insert k s l lots),
        )

    -- The latest snapshot gives back, for every symbol, the lot that was written, rounded to eight
    -- places, and no other symbol. No symbol may be the empty text, which the parser refuses.
    pub parse-marshal :
        (json : SnapshotJson) (agg : Aggregate D) (pid : Str)
        → IsFaithful json
        → IsNamed (get_or_else (lookup pid agg) [])
        → (q : Positions D) × (parse_trade_positions_snapshot json
              (marshal_trade_positions_snapshot json agg pid)
            ≡ parsed q)
          × ((s : Str)
              → lookup s q ≡ Option.map round_lot (lookup s (get_or_else (lookup pid agg) [])))
    unfolding parse_trade_positions_snapshot marshal_trade_positions_snapshot lookup
    parse-marshal json agg pid faithful named =
        let p = get_or_else (lookup pid agg) [] in
        let ks = sort str_lt (keys p) in
        let (out, e, found) =
          parse_rows-map p ks [] (among-sort [] (keys p) ∙ among_of_named p named) in
        (
          positions_from_lots out,
          rw (not_empty json faithful _, faithful.unmarshal-marshal _, ==_refl, e),
          λ s.
              lookup-positions_from_lots s out
              ∙ found s
              ∙ ap (λ b. if b then some (round_lot (lot_of s p)) else none) (among-sort s (keys p))
              ∙ rounded s p,
        )
