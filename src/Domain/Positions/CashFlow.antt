-- ===== src/Domain/Positions/CashFlow.antt =====
-- What one applied trade does to the quantity and to the book value of every symbol.
use real_time_portfolio_risk.Prelude.{
  Str, str_eq, ◌≡◌, refl, sym, ◌∙◌, inl, inr, true, false, none, some, ap, arith, ==_iff, ==_refl,
  text_eq, ◌==◌, ◌&&◌, Bool-cases, Option-cases, if◌then◌else◌,
}
use mathlib.Core.Path.{subst, ◌≡⟨◌⟩◌, ◌∎}
use real_time_portfolio_risk.Decimal.{Decimal, IsDecimal}
use real_time_portfolio_risk.Decimal.Ring
use real_time_portfolio_risk.Domain.Types.{
  Error, TradePayload, side_buy, side_sell, position_underflow,
}
use real_time_portfolio_risk.Domain.Positions.{
  PositionLot, Positions, done, failed, panicked, lot_of, apply_buy, apply_sell, apply_trade,
}
use real_time_portfolio_risk.Domain.Positions.Lots.{
  lot_of-insert, lot_of-erase, apply_trade_buy, apply_trade_sell, apply_trade_invalid,
}

module _ {D : Type 0} ⦃d : Decimal D⦄ where
  -- The amounts of a trade that count for symbol `s` on one side.
  abbrev pub on_side : Str → Str → TradePayload D → D → D
  on_side side s t x = if t.symbol == s && t.side == side then x else d.nought

  abbrev pub bought : Str → TradePayload D → D
  bought s t = on_side side_buy s t t.quantity

  abbrev pub sold : Str → TradePayload D → D
  sold s t = on_side side_sell s t t.quantity

  abbrev pub paid : Str → TradePayload D → D
  paid s t = on_side side_buy s t (d.mul t.quantity t.price)

  abbrev pub received : Str → TradePayload D → D
  received s t = on_side side_sell s t (d.mul t.quantity t.price)

  abbrev pub cost : PositionLot D → D
  cost l = d.mul l.quantity l.average_cost

  -- What the units of a lot cost together after a buy, less their quantity at the average cost, which
  -- `Div` has rounded. A sell rounds nothing.
  abbrev residue : Positions D → TradePayload D → D
  residue p t =
      let cur = lot_of t.symbol p in
      let new_qty = d.add cur.quantity t.quantity in
      let numer = d.add (cost cur) (d.mul t.quantity t.price) in
      if t.side == side_buy
      then elim (d.div numer new_qty) [
        | none ↦ d.nought
        | some avg ↦ d.sub numer (d.mul new_qty avg)
      ]
      else d.nought

  -- The residue of a trade that counts for symbol `s`.
  abbrev pub rounding : Str → Positions D → TradePayload D → D
  rounding s p t = if t.symbol == s then residue p t else d.nought

  -- The quantity moves by what was traded, and realized profit less the cost of what is held moves
  -- by the cash of the trade.
  abbrev CashBooks : Str → TradePayload D → PositionLot D → PositionLot D → Type 0
  CashBooks s t l l' =
      (d.add l'.quantity (sold s t) ≡ d.add l.quantity (bought s t))
      × (d.add (d.add l'.realized_pnl (cost l)) (paid s t)
          ≡ d.add (d.add l.realized_pnl (cost l')) (received s t))

  -- The same with what the average cost has lost by rounding.
  abbrev pub Books : Str → TradePayload D → D → PositionLot D → PositionLot D → Type 0
  Books s t lost l l' =
      (d.add l'.quantity (sold s t) ≡ d.add l.quantity (bought s t))
      × (d.add (d.add l'.realized_pnl (cost l)) (paid s t)
          ≡ d.add (d.add (d.add l.realized_pnl (cost l')) (received s t)) lost)

  module _ (laws : IsDecimal D) where
    open laws use {add_comm, add_assoc, add-nought, sub-add, mul_comm, mul-add, is_zero_iff}

    -- Realized profit of a sell of `t` units at `u` above the average cost `a`, with `v` left.
    sell_identity :
        (r u a v t : D)
        → d.add (d.add r (d.mul u t)) (d.mul (d.add v t) a)
          ≡ d.add (d.add r (d.mul v a)) (d.mul t (d.add u a))
    sell_identity r u a v t =
        simp (mul-add, Ring.add-mul laws, mul_comm, add_comm, add_assoc, Ring.add_left_comm laws)

    -- The two equations of a sell at the symbol that it trades.
    sell_quantity : (q t : D) → d.add (d.sub q t) t ≡ d.add q d.nought
    sell_quantity q t = sub-add q t ∙ sym (add-nought q)

    sell_value :
        (q a r x t : D)
        → d.add (d.add (d.add r (d.mul (d.sub x a) t)) (d.mul q a)) d.nought
          ≡ d.add (d.add r (d.mul (d.sub q t) a)) (d.mul t x)
    sell_value q a r x t =
        add-nought _
        ∙ (rw (sub-add q t, sub-add x a) at (sell_identity r (d.sub x a) a (d.sub q t) t))

    -- The same when nothing is left and the lot keeps no cost.
    flat_books :
        (q a r x t real : D)
        → d.sub q t ≡ d.nought
        → d.add r (d.mul (d.sub x a) t) ≡ real
        → (d.add d.nought t ≡ d.add q d.nought)
          × (d.add (d.add real (d.mul q a)) d.nought
              ≡ d.add (d.add r (d.mul d.nought d.nought)) (d.mul t x))
    flat_books q a r x t real none_left e = (
      rw none_left at (sell_quantity q t),
      rw (Ring.nought-mul laws d.nought)
          (rw (none_left, Ring.nought-mul laws a, e) at (sell_value q a r x t)),
    )

    apply_sell-CashBooks :
        (p : Positions D) (t : TradePayload D)
        → t.side ≡ side_sell
        → (apply_sell p t).0 ≡ done
        → CashBooks t.symbol t (lot_of t.symbol p) (lot_of t.symbol (apply_sell p t).1)
    unfolding apply_sell str_eq
    apply_sell-CashBooks p t sell ends =
        let l = lot_of t.symbol p in
        let units = sell_quantity l.quantity t.quantity in
        let value = sell_value l.quantity l.average_cost l.realized_pnl t.price t.quantity in
        let new_qty = d.sub l.quantity t.quantity in
        let new_real = d.add l.realized_pnl (d.mul (d.sub t.price l.average_cost) t.quantity) in
        elim (Bool-cases (d.less_than l.quantity t.quantity)) [
          | inl short ↦ absurd (refused (rw short at ends))
          | inr enough ↦ elim (Bool-cases (d.is_zero new_qty)) [
            | inl flat ↦ elim (Bool-cases (d.is_zero new_real)) [
              | inl even ↦
                  rw (enough, flat, even, lot_of-erase, ==_refl, sell)
                    (flat_books l.quantity _ _ _ _ d.nought ((is_zero_iff new_qty).0 flat)
                      ((is_zero_iff new_real).0 even))
              | inr uneven ↦
                  rw (enough, flat, uneven, lot_of-insert, ==_refl, sell)
                    (flat_books l.quantity _ _ _ _ new_real ((is_zero_iff new_qty).0 flat) refl)
            ]
            | inr rest ↦ rw (enough, rest, lot_of-insert, ==_refl, sell) (units, value)
          ]
        ]
      where
        refused : failed position_underflow ≡ done → ⊥
        refused e = cc

    -- Realized profit and cost of a buy of `x` for a lot that cost `c`, at the cost `m` after it.
    buy_value :
        (r c x m : D)
        → d.add (d.add r c) x ≡ d.add (d.add (d.add r m) d.nought) (d.sub (d.add c x) m)
    buy_value r c x m =
        d.add (d.add r c) x
        ≡⟨ add_assoc r c x ⟩ d.add r (d.add c x)
        ≡⟨ ap (d.add r) (sym (sub-add (d.add c x) m) ∙ add_comm _ m) ⟩
          d.add r (d.add m (d.sub (d.add c x) m))
        ≡⟨ sym (add_assoc r m _) ⟩ d.add (d.add r m) (d.sub (d.add c x) m)
        ≡⟨ ap (λ y. d.add y (d.sub (d.add c x) m)) (sym (add-nought (d.add r m))) ⟩
          d.add (d.add (d.add r m) d.nought) (d.sub (d.add c x) m) ∎

    apply_buy-Books :
        (p : Positions D) (t : TradePayload D)
        → t.side ≡ side_buy
        → (apply_buy p t).0 ≡ done
        → Books t.symbol t (residue p t) (lot_of t.symbol p) (lot_of t.symbol (apply_buy p t).1)
    unfolding apply_buy str_eq
    apply_buy-Books p t buy ends =
        let l = lot_of t.symbol p in
        let new_qty = d.add l.quantity t.quantity in
        let numer = d.add (cost l) (d.mul t.quantity t.price) in
        elim (Option-cases (d.div numer new_qty)) [
          | inl e ↦ absurd (no_panic (rw (e, apply_buy) at ends))
          | inr (avg, e) ↦
              rw (e, apply_buy, lot_of-insert, ==_refl, buy) (add-nought new_qty, buy_value _ _ _ _)
        ]
      where
        no_panic : panicked ≡ done → ⊥
        no_panic e = cc

    -- The lots of the other symbols.
    apply_buy_other :
        (s : Str) (p : Positions D) (t : TradePayload D)
        → (t.symbol == s) ≡ false
        → lot_of s (apply_buy p t).1 ≡ lot_of s p
    unfolding apply_buy
    apply_buy_other s p t other =
        let l = lot_of t.symbol p in
        elim (Option-cases
          (d.div (d.add (cost l) (d.mul t.quantity t.price)) (d.add l.quantity t.quantity))) [
            | inl e ↦ rw (e, apply_buy)
            | inr (avg, e) ↦ rw (e, apply_buy, lot_of-insert, other)
          ]

    apply_sell_other :
        (s : Str) (p : Positions D) (t : TradePayload D)
        → (t.symbol == s) ≡ false
        → lot_of s (apply_sell p t).1 ≡ lot_of s p
    unfolding apply_sell
    apply_sell_other s p t other = grind (arith, lot_of-insert, lot_of-erase t.symbol s p)

    apply_trade_other :
        (s : Str) (p : Positions D) (t : TradePayload D)
        → (t.symbol == s) ≡ false
        → lot_of s (apply_trade p t).1 ≡ lot_of s p
    apply_trade_other s p t other = elim (Bool-cases (t.side == side_buy)) [
      | inl buy ↦
          rw (apply_trade_buy p t ((==_iff t.side side_buy).0 buy)) (apply_buy_other s p t other)
      | inr not_buy ↦ elim (Bool-cases (t.side == side_sell)) [
        | inl sell ↦
            rw (apply_trade_sell p t ((==_iff t.side side_sell).0 sell))
              (apply_sell_other s p t other)
        | inr not_sell ↦ rw (apply_trade_invalid p t not_buy not_sell)
      ]
    ]

    apply_trade-Books_self :
        (p : Positions D) (t : TradePayload D)
        → (apply_trade p t).0 ≡ done
        → Books t.symbol t (residue p t) (lot_of t.symbol p) (lot_of t.symbol (apply_trade p t).1)
    apply_trade-Books_self p t ends = elim (Bool-cases (t.side == side_buy)) [
      | inl is_buy ↦
          let buy = (==_iff t.side side_buy).0 is_buy in
          let e = apply_trade_buy p t buy in rw e (apply_buy-Books p t buy (rw e at ends))
      | inr not_buy ↦ elim (Bool-cases (t.side == side_sell)) [
        | inl is_sell ↦
            let sell = (==_iff t.side side_sell).0 is_sell in
            let e = apply_trade_sell p t sell in
            let (units, value) = apply_sell-CashBooks p t sell (rw e at ends) in
            rw e (units, value ∙ sym (add-nought _) ∙ ap (d.add _) (sym (residue_sell p t not_buy)))
        | inr not_sell ↦ absurd (refused (rw (apply_trade_invalid p t not_buy not_sell) at ends))
      ]
    ]
      where
        refused : {e : Error} → failed e ≡ done → ⊥
        refused h = cc

        residue_sell :
            (p : Positions D) (t : TradePayload D)
            → (t.side == side_buy) ≡ false
            → residue p t ≡ d.nought
        residue_sell p t e = rw e refl

    -- A trade that is applied changes each symbol's lot by the trade alone: the quantity by what was
    -- bought or sold, and realized profit less the cost of what is held by the cash received or
    -- paid and by what rounding the average cost of a buy takes off the cost of the units. The
    -- amounts are zero for every other symbol.
    pub apply_trade-Books :
        (s : Str) (p : Positions D) (t : TradePayload D)
        → (apply_trade p t).0 ≡ done
        → Books s t (rounding s p t) (lot_of s p) (lot_of s (apply_trade p t).1)
    apply_trade-Books s p t ends = elim (Bool-cases (t.symbol == s)) [
      | inl here ↦
          subst (λ lost. Books s t lost (lot_of s p) (lot_of s (apply_trade p t).1))
            (sym (rounding_here here))
            (subst (λ x. Books x t (residue p t) (lot_of x p) (lot_of x (apply_trade p t).1))
              ((==_iff t.symbol s).0 here) (apply_trade-Books_self p t ends))
      | inr other ↦ rw (apply_trade_other s p t other, other) (refl, sym (add-nought _))
    ]
      where
        rounding_here : (t.symbol == s) ≡ true → rounding s p t ≡ residue p t
        rounding_here e = rw e refl
