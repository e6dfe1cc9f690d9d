-- ===== src/Events/Worker.antt =====
-- internal/events/trade_portfolio_apply.go: the worker of one portfolio partition. A log line or a
-- metric is no part of the model.
pub mod Monad
pub mod Quiet
pub mod Consume
pub mod Apply
pub mod Letters
pub mod Refines
pub mod Finishes
pub mod Pending
pub mod Pump
pub mod Retry
pub mod Rebuild
pub mod Spares
pub mod Confined
use real_time_portfolio_risk.Prelude.{
  ℕ, suc, zero, ◌+◌, ◌-◌, ◌==◌, nat_eq, ltb, leb, Bool, true, false, not, ◌&&◌, ◌||◌, List, [], ◌∷◌,
  ◌++◌, length, none, some, Option, if◌then◌else◌,
}
use real_time_portfolio_risk.Clock.{Time, is_zero_time, nil_uuid}
use real_time_portfolio_risk.Decimal.{Decimal}
use real_time_portfolio_risk.Domain.Types.{
  Error, position_underflow, invalid_payload, EventEnvelope,
}
use real_time_portfolio_risk.Domain.Positions.{Outcome, done, failed, panicked}
use real_time_portfolio_risk.Portfolio.Aggregate.{apply_event}
use real_time_portfolio_risk.Portfolio.Snapshot.{marshal_trade_positions_snapshot}
use real_time_portfolio_risk.Events.Cursor.{cursor_from_event, compare_cursors, is_same}
use real_time_portfolio_risk.Events.Eligible.{
  event_too_stale_for_apply, eligible_batch_after_watermark, fetch_after_page_limit,
}
use real_time_portfolio_risk.Events.Store.{
  Reason, touched, apply_batch, persist_apply_dlq, load_projection_cursor,
  insert_portfolio_snapshot, max_event_time, fetch_after,
}
use Monad.{
  Config, State, Action, Result, Failure, store_failed, apply_failed, crashed, out_of_fuel, ok, err,
  pure, raise, ◌>>=◌, ◌>>◌, get, modify, query, transact, best_effort, now,
}

-- The last event of a batch that begins with `ev`.
abbrev pub last_of : EventEnvelope → List EventEnvelope → EventEnvelope
last_of ev [] = ev
last_of ev (ev' ∷ evs) = last_of ev' evs

module _ {D : Type 0} ⦃d : Decimal D⦄ (cfg : Config D) where
  unfoldable pub snapshot_policy_enabled : Bool
  snapshot_policy_enabled = ltb 0 cfg.snapshot_min_events || ltb 0 cfg.snapshot_min_interval

  -- The clock is read only where the interval is set.
  unfoldable pub should_write_portfolio_snapshot : Action D Bool
  should_write_portfolio_snapshot = do
    s ← get
    let by_n =
        ltb 0 cfg.snapshot_min_events && leb cfg.snapshot_min_events s.events_applied_since_snapshot
    if ltb 0 cfg.snapshot_min_interval
        then (now >>= λ t. pure (by_n || leb cfg.snapshot_min_interval (t - s.last_snapshot_at)))
        else pure by_n

  -- The checkpoint at the end of the batch, if the stored cursor stands there.
  unfoldable pub write_portfolio_snapshot : EventEnvelope → Action D (Unit {0})
  write_portfolio_snapshot last = do
    s ← get
    let body = marshal_trade_positions_snapshot cfg.json s.agg cfg.pid_str
    db_cur ← query (load_projection_cursor cfg.pid)
    let aligned = is_same (compare_cursors (cursor_from_event last) db_cur)
    if not aligned
        then pure tt
        else if last.event_id == nil_uuid || is_zero_time last.event_time
        then raise store_failed
        else do
          transact (insert_portfolio_snapshot cfg.pid (cursor_from_event last) body)
          modify (λ s'. record s' { events_applied_since_snapshot = 0 })
          t ← now
          modify (λ s'. record s' { last_snapshot_at = t })

  unfoldable pub maybe_snapshot_after_apply :
      EventEnvelope → List EventEnvelope → Action D (Unit {0})
  unfolding snapshot_policy_enabled should_write_portfolio_snapshot write_portfolio_snapshot
  maybe_snapshot_after_apply ev evs = if not snapshot_policy_enabled then pure tt else do
    modify (λ s. record s {
      events_applied_since_snapshot = s.events_applied_since_snapshot + length (ev ∷ evs);
    })
    due ← should_write_portfolio_snapshot
    if not due then pure tt else best_effort (write_portfolio_snapshot (last_of ev evs))

  -- `Repository.ApplyBatch`
  unfoldable pub apply_batch_call : EventEnvelope → List EventEnvelope → Action D (Unit {0})
  apply_batch_call ev evs s = elim (touched cfg.codec (ev ∷ evs)) [
    | none ↦ (err (apply_failed invalid_payload), s)
    | some symbols ↦ transact (apply_batch cfg.pid cfg.pid_str symbols (last_of ev evs) s.agg) s
  ]

  unfoldable pub schedule : Action D (Unit {0})
  schedule =
      if cfg.has_risk_scheduler
      then modify (λ s. record s { scheduled = s.scheduled ++ (cfg.pid ∷ []) })
      else pure tt

  unfoldable pub move_cursor : EventEnvelope → Action D (Unit {0})
  move_cursor ev = modify (λ s. record s { cur = cursor_from_event ev })

  unfoldable pub flush_apply_batch : List EventEnvelope → Action D (Unit {0})
  flush_apply_batch [] = pure tt
  flush_apply_batch (ev ∷ evs) = do
    apply_batch_call ev evs
    schedule
    move_cursor (last_of ev evs)
    maybe_snapshot_after_apply ev evs

  -- An event that is set aside: what was applied before it is flushed first.
  unfoldable pub dead_letter :
      Reason → EventEnvelope → List EventEnvelope → Action D (List EventEnvelope)
  dead_letter reason ev ok_batch = do
    flush_apply_batch ok_batch
    transact (persist_apply_dlq cfg.pid ev reason)
    move_cursor ev
    pure []

  unfoldable pub is_stale : EventEnvelope → Action D Bool
  is_stale ev =
      if ltb 0 cfg.max_event_age
      then (now >>= λ t. pure (event_too_stale_for_apply ev cfg.max_event_age t))
      else pure false

  -- `ApplyEvent` changes the aggregate in place.
  unfoldable pub apply_to_aggregate : EventEnvelope → Action D Outcome
  apply_to_aggregate ev s =
      let (outcome, agg) = apply_event cfg.codec cfg.pid_str ev s.agg in
      (ok outcome, record s { agg = agg })

  unfoldable pub after_apply :
      Outcome → EventEnvelope → List EventEnvelope → Action D (List EventEnvelope)
  after_apply done ev ok_batch = pure (ok_batch ++ (ev ∷ []))
  after_apply panicked ev ok_batch = raise crashed
  after_apply (failed position_underflow) ev ok_batch =
      dead_letter Reason.position_underflow ev ok_batch
  after_apply (failed e) ev ok_batch = flush_apply_batch ok_batch >> raise (apply_failed e)

  -- One round of the loop, from the batch so far to the next.
  unfoldable pub apply_one : EventEnvelope → List EventEnvelope → Action D (List EventEnvelope)
  apply_one ev ok_batch = do
    stale ← is_stale ev
    if stale
        then dead_letter Reason.event_too_stale ev ok_batch
        else (apply_to_aggregate ev >>= λ outcome. after_apply outcome ev ok_batch)

  unfoldable pub apply_loop : List EventEnvelope → List EventEnvelope → Action D (Unit {0})
  apply_loop [] ok_batch = flush_apply_batch ok_batch
  apply_loop (ev ∷ evs) ok_batch = apply_one ev ok_batch >>= apply_loop evs

  unfoldable pub apply_eligible : List EventEnvelope → Action D (Unit {0})
  apply_eligible evs = apply_loop evs []

  -- One round of `pumpAfterCursor`; the result says whether there is another one.
  unfoldable pub pump_round : Action D Bool
  pump_round = do
    max_seen ← query (max_event_time cfg.pid)
    let cutoff = max_seen - cfg.watermark
    s ← get
    batch ← query (fetch_after cfg.pid s.cur fetch_after_page_limit)
    let eligible = eligible_batch_after_watermark batch cutoff cfg.watermark fetch_after_page_limit
    if length eligible == 0
        then pure false
        else (apply_eligible eligible
            >> pure (
                not (
                  ltb (length eligible) (length batch)
                  || ltb (length batch) fetch_after_page_limit)))

  unfoldable pub pump_after_cursor : ℕ → Action D (Unit {0})
  pump_after_cursor zero = raise out_of_fuel
  pump_after_cursor (suc fuel) =
      pump_round >>= λ again. if again then pump_after_cursor fuel else pure tt
