-- ===== src/Events/Store/Touched.antt =====
-- The symbols of a batch, and what an event does to the lots of the aggregate.
use real_time_portfolio_risk.Prelude.{
  Str, ◌==◌, text_eq, ◌≡◌, refl, ap, ◌∙◌, false, Bool-cases, inl, inr, ◌⊎◌, some, Option-cases,
  List, [], ◌∷◌, ◌++◌, arith,
}
use real_time_portfolio_risk.Prelude.Dict.{insert, lookup-insert_self}
use real_time_portfolio_risk.Decimal.{Decimal}
use real_time_portfolio_risk.Domain.Types.{
  Codec, EventEnvelope, TradePayload, event_type_trade_executed,
}
use real_time_portfolio_risk.Domain.Positions.{Positions, done, lot_of, apply_trade}
use real_time_portfolio_risk.Domain.Positions.Frame.{apply_trade-IsFramed}
use real_time_portfolio_risk.Portfolio.Aggregate.{
  Aggregate, positions_for, aggregate_lot, apply_event,
}
use real_time_portfolio_risk.Events.Store.{touched}
use real_time_portfolio_risk.Events.Store.Projection.{contains}

module _ {D : Type 0} ⦃d : Decimal D⦄ (codec : Codec D) where
  pub touched-append :
      (evs : List EventEnvelope) (ev : EventEnvelope) (xs ys : List Str)
      → touched codec evs ≡ some xs
      → touched codec (ev ∷ []) ≡ some ys
      → touched codec (evs ++ (ev ∷ [])) ≡ some (xs ++ ys)
  unfolding touched
  touched-append [] ev xs ys e e' = ground (arith, e)
  touched-append (ev' ∷ evs) ev xs ys e e' = elim (Option-cases (touched codec evs)) [
    | inl n ↦ absurd (ground arith)
    | inr (rest, r) ↦ ground (arith, touched-append evs ev rest ys r e')
  ]

pub contains-append :
    (j : Str) (xs ys : List Str)
    → contains j (xs ++ ys) ≡ false
    → (contains j xs ≡ false) × (contains j ys ≡ false)
contains-append j [] ys e = (refl, e)
contains-append j (x ∷ xs) ys e = ground (arith, contains-append j xs ys)

module _ {D : Type 0} ⦃d : Decimal D⦄ (codec : Codec D) (pid : Str) where
  positions_for_stored :
      (p : Positions D) (a : Aggregate D) → (positions_for pid (insert pid p a)).0 ≡ p
  unfolding positions_for
  positions_for_stored p a = rw (positions_for, lookup-insert_self pid p a) refl

  aggregate_lot_stored :
      (j : Str) (p : Positions D) (a : Aggregate D)
      → aggregate_lot pid j (insert pid p a) ≡ lot_of j p
  unfolding aggregate_lot
  aggregate_lot_stored j p a = ap (lot_of j) (positions_for_stored p a)

  abbrev pub SameLots : Aggregate D → Aggregate D → Type 0
  SameLots a a' = (j : Str) → aggregate_lot pid j a' ≡ aggregate_lot pid j a

  -- The lots of the symbols that are not listed.
  abbrev pub SameOthers : List Str → Aggregate D → Aggregate D → Type 0
  SameOthers symbols a a' =
      (j : Str) → contains j symbols ≡ false → aggregate_lot pid j a' ≡ aggregate_lot pid j a

  -- A trade on the positions of the key.
  traded-frame :
      (t : TradePayload D) (a : Aggregate D)
      → let (p, a') = positions_for pid a in
        let out = apply_trade p t in
        SameOthers (t.symbol ∷ []) a (insert pid out.1 a')
        × ((out.0 ≡ done) ⊎ SameLots a (insert pid out.1 a'))
  unfolding aggregate_lot
  traded-frame t a =
      let (p, a') = positions_for pid a in
      (
        λ j other. aggregate_lot_stored j _ a' ∙ (apply_trade-IsFramed j p t).1 (absent j other),
        elim (apply_trade-IsFramed t.symbol p t).0 [
          | inl e ↦ inl e
          | inr e ↦ inr (λ j. aggregate_lot_stored j _ a' ∙ ap (lot_of j) e)
        ],
      )
    where
      absent : (j : Str) → contains j (t.symbol ∷ []) ≡ false → (t.symbol == j) ≡ false
      absent j e = ground arith

  -- The lots of the other symbols stay, and all of them where the event is refused.
  pub apply_event-frame :
      (ev : EventEnvelope) (a : Aggregate D)
      → let out = apply_event codec pid ev a in
        (out.0 ≡ done
          → (symbols : List Str) × (touched codec (ev ∷ []) ≡ some symbols)
            × SameOthers symbols a out.1)
        × ((out.0 ≡ done) ⊎ SameLots a out.1)
  unfolding apply_event touched
  apply_event-frame ev a = elim (Bool-cases (ev.event_type == event_type_trade_executed)) [
    | inr other ↦ rw other (λ _. ([], refl, λ j _. refl), inl refl)
    | inl trade ↦ elim (Option-cases (codec.unmarshal_trade ev.payload)) [
      | inl e ↦ rw (trade, e) (λ bad. absurd (ground arith), inr (λ j. refl))
      | inr (t, e) ↦
          let (others, whole) = traded-frame t a in
          rw (trade, e) (λ _. (t.symbol ∷ [], refl, others), whole)
    ]
  ]
