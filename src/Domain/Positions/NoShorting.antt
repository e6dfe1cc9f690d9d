-- ===== src/Domain/Positions/NoShorting.antt =====
-- The long-only invariant: no trade drives a quantity below zero, and none panics.
use real_time_portfolio_risk.Prelude.{
  Str, ◌≡◌, ◌≢◌, refl, ◌⊎◌, inl, inr, false, none, some, arith, text_eq, ◌==◌, Bool-cases,
  Option-cases,
}
use mathlib.Core.Path.{subst}
use mathlib.Core.Option.{some-injective}
use real_time_portfolio_risk.Prelude.Dict.{lookup, insert, erase, lookup-insert, lookup-erase}
use real_time_portfolio_risk.Decimal.{Decimal, IsDecimal, ◌≼◌, ◌≺◌}
use real_time_portfolio_risk.Decimal.Order
use real_time_portfolio_risk.Domain.Types.{TradePayload, side_sell, position_underflow}
use real_time_portfolio_risk.Domain.Validation.{validate_trade_payload}
use real_time_portfolio_risk.Domain.Validation.Sound.{validate_trade_payload_iff}
use real_time_portfolio_risk.Domain.Positions.Lots.{apply_trade_buy, apply_trade_sell}
use real_time_portfolio_risk.Domain.Positions.{
  PositionLot, Positions, Outcome, done, failed, lot_of, quantity_of, apply_buy, apply_sell,
  apply_trade,
}

module _ {D : Type 0} ⦃d : Decimal D⦄ where
  -- A lot that the map holds: an open one, or a flat one that carries realized profit.
  abbrev pub IsHeld : PositionLot D → Type 0
  IsHeld l =
      ((d.nought ≺ l.quantity) × (d.nought ≼ l.average_cost))
      ⊎ ((l.quantity ≡ d.nought) × (l.average_cost ≡ d.nought) × (l.realized_pnl ≢ d.nought))

  abbrev pub IsLongOnly : Positions D → Type 0
  IsLongOnly p = (s : Str) (l : PositionLot D) → lookup s p ≡ some l → IsHeld l

  module _ (laws : IsDecimal D) where
    open laws use {lt_irrefl, lt-add, add_comm, is_zero_iff, div-nonneg, sub-add, lt_total}

    IsHeld-nonneg :
        (l : PositionLot D) → IsHeld l → (d.nought ≼ l.quantity) × (d.nought ≼ l.average_cost)
    IsHeld-nonneg l (inl h) = (Order.lt_asymm laws _ _ h.0, h.1)
    IsHeld-nonneg l (inr h) = (rw h.0 (lt_irrefl _), rw h.1 (lt_irrefl _))

    -- What the zero value and a held lot have in common.
    pub lot_of_nonneg :
        (s : Str) (p : Positions D)
        → IsLongOnly p
        → (d.nought ≼ (lot_of s p).quantity) × (d.nought ≼ (lot_of s p).average_cost)
    unfolding lot_of
    lot_of_nonneg s p h = elim (Option-cases (lookup s p)) [
      | inl e ↦ rw e (lt_irrefl _, lt_irrefl _)
      | inr (l, e) ↦ rw e (IsHeld-nonneg l (h s l e))
    ]

    insert-IsLongOnly :
        (k : Str) (l : PositionLot D) (p : Positions D)
        → IsLongOnly p
        → IsHeld l
        → IsLongOnly (insert k l p)
    insert-IsLongOnly k l p h held s m e = elim (Bool-cases (k == s)) [
      | inl same ↦ subst IsHeld (some-injective _ _ (rw (lookup-insert, same) at e)) held
      | inr other ↦ h s m (rw (lookup-insert, other) at e)
    ]

    erase-IsLongOnly : (k : Str) (p : Positions D) → IsLongOnly p → IsLongOnly (erase k p)
    erase-IsLongOnly k p h s m e = elim (Bool-cases (k == s)) [
      | inl same ↦ cc (rw (lookup-erase, same) at e)
      | inr other ↦ h s m (rw (lookup-erase, other) at e)
    ]

    -- How a trade may end in long-only positions.
    abbrev pub IsSettled : Positions D → TradePayload D → Outcome × Positions D → Type 0
    IsSettled p t out =
        IsLongOnly out.1
        × ((out.0 ≡ done)
            ⊎ ((out.0 ≡ failed position_underflow)
                × (out.1 ≡ p)
                × (t.side ≡ side_sell)
                × (quantity_of t.symbol p ≺ t.quantity)))

    apply_buy-IsSettled :
        (p : Positions D) (t : TradePayload D)
        → IsLongOnly p
        → d.nought ≺ t.quantity
        → d.nought ≺ t.price
        → IsSettled p t (apply_buy p t)
    unfolding apply_buy
    apply_buy-IsSettled p t h hq hp =
        let cur = lot_of t.symbol p in
        let (q_nonneg, a_nonneg) = lot_of_nonneg t.symbol p h in
        let new_qty = d.add cur.quantity t.quantity in
        let numer = d.add (d.mul cur.quantity cur.average_cost) (d.mul t.quantity t.price) in
        let open_qty = Order.add_pos laws cur.quantity t.quantity q_nonneg hq in
        let paid =
          Order.add_nonneg laws _ _ (Order.mul_nonneg laws _ _ q_nonneg a_nonneg)
            (Order.mul_nonneg laws _ _ (Order.lt_asymm laws _ _ hq) (Order.lt_asymm laws _ _ hp)) in
        let (avg, e) = Order.div_some laws numer new_qty open_qty in
        rw (e, apply_buy)
          (
            insert-IsLongOnly _ _ p h
                (inl (open_qty, div-nonneg numer new_qty avg paid open_qty e)),
            inl refl,
          )

    apply_sell-IsSettled :
        (p : Positions D) (t : TradePayload D)
        → IsLongOnly p
        → t.side ≡ side_sell
        → IsSettled p t (apply_sell p t)
    unfolding apply_sell quantity_of
    apply_sell-IsSettled p t h sell =
        let cur = lot_of t.symbol p in
        let new_qty = d.sub cur.quantity t.quantity in
        let new_real = d.add cur.realized_pnl (d.mul (d.sub t.price cur.average_cost) t.quantity) in
        elim (Bool-cases (d.less_than cur.quantity t.quantity)) [
          | inl short ↦ rw short (h, inr (refl, refl, sell, refl))
          | inr enough ↦ elim (Bool-cases (d.is_zero new_qty)) [
            | inl flat ↦ elim (Bool-cases (d.is_zero new_real)) [
              | inl even ↦ rw (enough, flat, even) (erase-IsLongOnly _ p h, inl refl)
              | inr uneven ↦
                  rw (enough, flat, uneven)
                    (
                      insert-IsLongOnly _ _ p h
                          (inr (refl, refl, λ z. cc ((is_zero_iff new_real).1 z))),
                      inl refl,
                    )
            ]
            | inr rest ↦
                rw (enough, rest)
                  (
                    insert-IsLongOnly _ _ p h (
                        inl (
                          left_open new_qty rest (Order.sub_nonneg laws _ _ enough),
                          (lot_of_nonneg t.symbol p h).1,
                        )),
                    inl refl,
                  )
          ]
        ]
      where
        left_open : (q : D) → d.is_zero q ≡ false → d.nought ≼ q → d.nought ≺ q
        left_open q nz ge = ground (arith, is_zero_iff q, lt_total d.nought q)

    -- A trade that passed validation, applied to long-only positions, leaves them long-only and
    -- never panics. It is applied, or it is a sell of more than is held, which is refused as a
    -- position underflow with the positions as they were.
    pub apply_trade-IsLongOnly :
        (p : Positions D) (t : TradePayload D)
        → IsLongOnly p
        → validate_trade_payload t ≡ none
        → IsSettled p t (apply_trade p t)
    apply_trade-IsLongOnly p t h v =
        let ok = (validate_trade_payload_iff laws t).0 v in
        elim ok.side_ok [
          | inl buy ↦
              rw (apply_trade_buy p t buy) (apply_buy-IsSettled p t h ok.quantity_pos ok.price_pos)
          | inr sell ↦ rw (apply_trade_sell p t sell) (apply_sell-IsSettled p t h sell)
        ]
