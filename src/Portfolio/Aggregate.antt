-- ===== src/Portfolio/Aggregate.antt =====
-- internal/portfolio/aggregate.go: the positions of each portfolio key.
use real_time_portfolio_risk.Prelude.{Str, ◌==◌, text_eq, [], none, some, Option, if◌then◌else◌}
use real_time_portfolio_risk.Prelude.Dict.{Dict, lookup, insert, erase}
use real_time_portfolio_risk.Decimal.{Decimal}
use real_time_portfolio_risk.Domain.Types.{
  invalid_payload, Codec, EventEnvelope, event_type_trade_executed,
}
use real_time_portfolio_risk.Domain.Positions.{
  PositionLot, Positions, Outcome, done, failed, lot_of, quantity_of, apply_trade,
}

abbrev pub Aggregate : Type 0 → Type 0
Aggregate D = Dict Str (Positions D)

module _ {D : Type 0} where
  unfoldable pub set_portfolio_positions : Str → Option (Positions D) → Aggregate D → Aggregate D
  set_portfolio_positions pid none a = erase pid a
  set_portfolio_positions pid (some p) a = insert pid p a

  -- The positions of a key, which are entered into the map when the key is new.
  unfoldable pub positions_for : Str → Aggregate D → Positions D × Aggregate D
  positions_for pid a = elim (lookup pid a) [ none ↦ ([], insert pid [] a) | some p ↦ (p, a) ]

module _ {D : Type 0} ⦃d : Decimal D⦄ where
  -- `Aggregate.Lot` and `Aggregate.Quantity`
  unfoldable pub aggregate_lot : Str → Str → Aggregate D → PositionLot D
  unfolding positions_for
  aggregate_lot pid symbol a = lot_of symbol (positions_for pid a).0

  unfoldable pub aggregate_quantity : Str → Str → Aggregate D → D
  unfolding positions_for
  aggregate_quantity pid symbol a = quantity_of symbol (positions_for pid a).0

  unfoldable pub apply_event : Codec D → Str → EventEnvelope → Aggregate D → Outcome × Aggregate D
  unfolding positions_for
  apply_event codec pid ev a =
      if ev.event_type == event_type_trade_executed
      then elim (codec.unmarshal_trade ev.payload) [
        | none ↦ (failed invalid_payload, a)
        | some t ↦
            let (p, a') = positions_for pid a in
            let (outcome, p') = apply_trade p t in (outcome, insert pid p' a')
      ]
      else (done, a)
