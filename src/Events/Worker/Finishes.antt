-- ===== src/Events/Worker/Finishes.antt =====
-- The worker on events that came through ingestion: nothing stops it.
use real_time_portfolio_risk.Prelude.{
  ◌≡◌, refl, sym, ap, ◌∙◌, text_eq, nat_eq, ◌==◌, List, [], ◌∷◌, none, some, get_or_else,
  Option-cases, Bool-cases, inl, inr, ◌⊎◌, All, arith,
}
use real_time_portfolio_risk.Prelude.Dict.{insert, lookup, lookup-insert_self}
use real_time_portfolio_risk.Decimal.{Decimal, IsDecimal}
use real_time_portfolio_risk.Domain.Types.{
  EventEnvelope, TradePayload, position_underflow, event_type_trade_executed,
}
use real_time_portfolio_risk.Domain.Validation.{validate_trade_payload}
use real_time_portfolio_risk.Domain.Positions.{Outcome, done, failed, apply_trade}
use real_time_portfolio_risk.Domain.Positions.NoShorting.{IsLongOnly, apply_trade-IsLongOnly}
use real_time_portfolio_risk.Portfolio.Aggregate.{Aggregate, apply_event, positions_for}
use real_time_portfolio_risk.Ingestion.{check_payload}
use real_time_portfolio_risk.Ingestion.Accepted.{IsAccepted}
use real_time_portfolio_risk.Events.Worker.{apply_eligible}
use real_time_portfolio_risk.Events.Worker.Monad.{Config, State, ok}
use real_time_portfolio_risk.Events.Worker.Consume.{
  Run, consume, continue, finished, broke, result_of,
}
use real_time_portfolio_risk.Events.Worker.Apply.{IsReady, IsConsumed}
use real_time_portfolio_risk.Events.Worker.Refines.{apply_eligible-IsRun}

module _ {D : Type 0} ⦃d : Decimal D⦄ (laws : IsDecimal D) (cfg : Config D) where
  -- The positions under the worker's key are long-only.
  abbrev pub HoldsLong : Aggregate D → Type 0
  HoldsLong a = IsLongOnly (get_or_else (lookup cfg.pid_str a) [])

  positions_for-eq :
      (a : Aggregate D) → (positions_for cfg.pid_str a).0 ≡ get_or_else (lookup cfg.pid_str a) []
  unfolding positions_for
  positions_for-eq a = elim (Option-cases (lookup cfg.pid_str a)) [
    | inl e ↦ rw (positions_for, e) refl
    | inr (p, e) ↦ rw (positions_for, e) refl
  ]

  -- An accepted event is applied, or it would oversell.
  abbrev IsOrderly : Outcome × Aggregate D → Type 0
  IsOrderly out = ((out.0 ≡ done) ⊎ (out.0 ≡ failed position_underflow)) × HoldsLong out.1

  traded-IsOrderly :
      (t : TradePayload D) (a : Aggregate D)
      → validate_trade_payload t ≡ none
      → HoldsLong a
      → let (p, a') = positions_for cfg.pid_str a in
        IsOrderly ((apply_trade p t).0, insert cfg.pid_str (apply_trade p t).1 a')
  traded-IsOrderly t a v h =
      let (p, a') = positions_for cfg.pid_str a in
      let (long, ends) = apply_trade-IsLongOnly laws p t (rw (positions_for-eq a) h) v in
      (
        elim ends [ inl e ↦ inl e | inr e ↦ inr e.0 ],
        rw (lookup-insert_self cfg.pid_str (apply_trade p t).1 a') long,
      )

  apply_event-IsOrderly :
      (ev : EventEnvelope) (a : Aggregate D)
      → IsAccepted cfg.codec ev
      → HoldsLong a
      → IsOrderly (apply_event cfg.codec cfg.pid_str ev a)
  unfolding apply_event check_payload
  apply_event-IsOrderly ev a good h =
      elim (Bool-cases (ev.event_type == event_type_trade_executed)) [
        | inr other ↦ rw (apply_event, other) (inl refl, h)
        | inl trade ↦ elim (Option-cases (cfg.codec.unmarshal_trade ev.payload)) [
          | inl bad ↦ absurd (refused (rw (check_payload, trade, bad) at good))
          | inr (t, e) ↦
              rw (apply_event, trade, e)
                (traded-IsOrderly t a (rw (check_payload, trade, e) at good) h)
        ]
      ]
    where
      refused : {A : Type 0} {x : A} → some x ≡ none → ⊥
      refused e = ground arith

  -- The whole list is gone through.
  abbrev pub IsWhole : List EventEnvelope → Run D → Type 0
  IsWhole evs run = (run.ending ≡ finished) × (run.consumed ≡ evs) × HoldsLong run.agg

  continue-IsWhole :
      (outcome : Outcome) (ev : EventEnvelope) (evs : List EventEnvelope) (a : Aggregate D)
      (rest : Run D)
      → (outcome ≡ done) ⊎ (outcome ≡ failed position_underflow)
      → IsWhole evs rest
      → IsWhole (ev ∷ evs) (continue outcome ev a rest)
  continue-IsWhole outcome ev evs a rest (inl e) (fin, all, long) =
      rw e (fin, ap (◌∷◌ ev) all, long)
  continue-IsWhole outcome ev evs a rest (inr e) (fin, all, long) =
      rw e (fin, ap (◌∷◌ ev) all, long)

  consume-IsWhole :
      (evs : List EventEnvelope) (a : Aggregate D)
      → All (IsAccepted cfg.codec) evs
      → HoldsLong a
      → IsWhole evs (consume cfg evs a)
  unfolding consume
  consume-IsWhole [] a good h = (refl, refl, h)
  consume-IsWhole (ev ∷ evs) a (good, goods) h =
      let out = apply_event cfg.codec cfg.pid_str ev a in
      let (ends, long) = apply_event-IsOrderly ev a good h in
      continue-IsWhole out.0 ev evs out.1 (consume cfg evs out.1) ends
        (consume-IsWhole evs out.1 goods long)

  -- A worker that agrees with the store, holds long-only positions and has no limit on the age of
  -- an event, is given events that passed the checks of ingestion, and the database answers every
  -- call. The round ends well, every event is applied or is an oversell in the dead letters, and
  -- the positions are long-only again.
  pub apply_eligible-finishes :
      (evs : List EventEnvelope) (s : State D)
      → cfg.max_event_age ≡ 0
      → IsReady cfg [] [] s
      → All (IsAccepted cfg.codec) evs
      → HoldsLong s.agg
      → let run = consume cfg evs s.agg in
        let out = apply_eligible cfg evs s in
        (out.0 ≡ ok tt) × IsConsumed cfg run [] s out.1 × (run.consumed ≡ evs) × HoldsLong out.1.agg
  apply_eligible-finishes evs s off ready goods long =
      let (fin, all, kept) = consume-IsWhole evs s.agg goods long in
      let (result, c) = apply_eligible-IsRun cfg evs s off ready (λ e. differ (sym fin ∙ e)) in
      (result ∙ ap result_of fin, c, all, rw c.agg_is kept)
    where
      differ : finished ≡ broke → ⊥
      differ e = ground arith
