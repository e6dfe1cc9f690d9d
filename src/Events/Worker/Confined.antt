-- ===== src/Events/Worker/Confined.antt =====
-- A worker writes the rows of its own portfolio only.
use real_time_portfolio_risk.Prelude.{
  ℕ, suc, zero, ◌+◌, ◌-◌, nat_eq, ◌==◌, ◌≡◌, refl, ltb, not, length, Bool, false, List, [], ◌∷◌,
  Option-cases, inl, inr, if◌then◌else◌,
}
use real_time_portfolio_risk.Clock.{Uuid}
use real_time_portfolio_risk.Decimal.{Decimal}
use real_time_portfolio_risk.Domain.Types.{
  EventEnvelope, position_underflow, validation, invalid_payload, duplicate_event,
  out_of_order_event, invalid_event, unknown_type,
}
use real_time_portfolio_risk.Domain.Positions.{Outcome, done, failed, panicked}
use real_time_portfolio_risk.Portfolio.Snapshot.{marshal_trade_positions_snapshot}
use real_time_portfolio_risk.Events.Cursor.{cursor_from_event}
use real_time_portfolio_risk.Events.Eligible.{
  eligible_batch_after_watermark, fetch_after_page_limit,
}
use real_time_portfolio_risk.Events.Store.{
  Reason, max_event_time, fetch_after, touched, load_projection_cursor, insert_portfolio_snapshot,
  persist_apply_dlq,
}
use real_time_portfolio_risk.Events.Store.Untouched.{
  IsUntouched-refl, apply_batch-IsUntouched, persist_apply_dlq-IsUntouched,
  insert_portfolio_snapshot-IsUntouched,
}
use real_time_portfolio_risk.Events.Worker.{
  last_of, snapshot_policy_enabled, should_write_portfolio_snapshot, write_portfolio_snapshot,
  maybe_snapshot_after_apply, apply_batch_call, schedule, move_cursor, flush_apply_batch,
  dead_letter, is_stale, apply_to_aggregate, after_apply, apply_one, apply_loop, apply_eligible,
  pump_round, pump_after_cursor,
}
use real_time_portfolio_risk.Events.Worker.Monad.{
  Config, State, Action, Failure, crashed, out_of_fuel, store_failed, ◌>>=◌, ◌>>◌, pure, raise,
  query, transact, best_effort, now, modify,
}
use real_time_portfolio_risk.Events.Worker.Spares.{
  Spares, Spares-bind, Spares-query, Spares-transact, Spares-same, Spares-if,
}

module _ {D : Type 0} ⦃d : Decimal D⦄ (cfg : Config D) (j : Uuid)
    (other : (cfg.pid == j) ≡ false) where
  -- An action without a call of the store.
  idle : {A : Type 0} (m : Action D A) → ((s : State D) → (m s).1.tables ≡ s.tables) → Spares j m
  idle m same = Spares-same j m same

  best : {m : Action D (Unit {0})} → Spares j m → Spares j (best_effort m)
  best h = record { spares = λ s. h.spares s }

  write_portfolio_snapshot-Spares :
      (last : EventEnvelope) → Spares j (write_portfolio_snapshot cfg last)
  unfolding write_portfolio_snapshot now
  write_portfolio_snapshot-Spares last = record {
    spares = λ s.
        let body = marshal_trade_positions_snapshot cfg.json s.agg cfg.pid_str in
        (Spares-bind j (query (load_projection_cursor cfg.pid)) _ (Spares-query j _) (λ db_cur.
            Spares-if j _ _ _ (idle (pure tt) (λ s. refl)) (
              Spares-if j _ _ _ (idle (raise store_failed) (λ s. refl)) (
                Spares-bind j
                  (transact (insert_portfolio_snapshot cfg.pid (cursor_from_event last) body)) _
                  (Spares-transact j _ (
                    insert_portfolio_snapshot-IsUntouched cfg.pid j other (cursor_from_event last)
                      body))
                  (λ _. idle _ (λ s. refl)))))).spares
          s;
  }

  should_write-Spares : Spares j (should_write_portfolio_snapshot cfg)
  unfolding should_write_portfolio_snapshot now
  should_write-Spares = record {
    spares = λ s.
        (Spares-if j (ltb 0 cfg.snapshot_min_interval) _ _ (idle _ (λ s'. refl))
            (idle (pure _) (λ s'. refl))).spares
          s;
  }

  maybe_snapshot_after_apply-Spares :
      (ev : EventEnvelope) (evs : List EventEnvelope)
      → Spares j (maybe_snapshot_after_apply cfg ev evs)
  unfolding maybe_snapshot_after_apply
  maybe_snapshot_after_apply-Spares ev evs =
      let last = last_of ev evs in
      let write : Bool → Action D (Unit {0}) =
        λ due. if not due then pure tt else best_effort (write_portfolio_snapshot cfg last) in
      let written =
        Spares-bind j (should_write_portfolio_snapshot cfg) write should_write-Spares (λ due.
          Spares-if j (not due) (pure tt) (best_effort (write_portfolio_snapshot cfg last))
            (idle (pure tt) (λ s. refl)) (best (write_portfolio_snapshot-Spares last))) in
      Spares-if j (not (snapshot_policy_enabled cfg)) (pure tt) _ (idle (pure tt) (λ s. refl)) (
        Spares-bind j
          (modify (λ s. record s {
            events_applied_since_snapshot = s.events_applied_since_snapshot + length (ev ∷ evs);
          }))
          (λ _. should_write_portfolio_snapshot cfg >>= write) (idle _ (λ s. refl)) (λ _. written))

  apply_batch_call-Spares :
      (ev : EventEnvelope) (evs : List EventEnvelope) → Spares j (apply_batch_call cfg ev evs)
  unfolding apply_batch_call
  apply_batch_call-Spares ev evs = record {
    spares = λ s. elim (Option-cases (touched cfg.codec (ev ∷ evs))) [
      | inl bad ↦ rw (apply_batch_call, bad) (IsUntouched-refl j s.tables)
      | inr (symbols, e) ↦
          rw (apply_batch_call, e)
            ((Spares-transact j _ (
                apply_batch-IsUntouched cfg.pid j other cfg.pid_str symbols (last_of ev evs)
                  s.agg)).spares
              s)
    ];
  }

  schedule-Spares : Spares j (schedule cfg)
  unfolding schedule
  schedule-Spares =
      Spares-if j cfg.has_risk_scheduler _ (pure tt) (idle (modify _) (λ s. refl))
        (idle (pure tt) (λ s. refl))

  flush_apply_batch-Spares : (batch : List EventEnvelope) → Spares j (flush_apply_batch cfg batch)
  unfolding flush_apply_batch move_cursor
  flush_apply_batch-Spares [] = idle (pure tt) (λ s. refl)
  flush_apply_batch-Spares (ev ∷ evs) =
      Spares-bind j (apply_batch_call cfg ev evs) _ (apply_batch_call-Spares ev evs) (λ _.
        Spares-bind j (schedule cfg) _ schedule-Spares (λ _.
          Spares-bind j (move_cursor cfg (last_of ev evs)) _ (idle _ (λ s. refl))
            (λ _. maybe_snapshot_after_apply-Spares ev evs)))

  dead_letter-Spares :
      (reason : Reason) (ev : EventEnvelope) (batch : List EventEnvelope)
      → Spares j (dead_letter cfg reason ev batch)
  unfolding dead_letter move_cursor
  dead_letter-Spares reason ev batch =
      Spares-bind j (flush_apply_batch cfg batch) _ (flush_apply_batch-Spares batch) (λ _.
        Spares-bind j (transact (persist_apply_dlq cfg.pid ev reason)) _
          (Spares-transact j _ (persist_apply_dlq-IsUntouched cfg.pid j other ev reason))
          (λ _. idle _ (λ s. refl)))

  is_stale-Spares : (ev : EventEnvelope) → Spares j (is_stale cfg ev)
  unfolding is_stale now
  is_stale-Spares ev =
      Spares-if j (ltb 0 cfg.max_event_age) _ (pure false) (idle _ (λ s. refl))
        (idle (pure false) (λ s. refl))

  stops :
      (e : Failure) (batch : List EventEnvelope)
      → Spares j (flush_apply_batch cfg batch >> raise {A = List EventEnvelope} e)
  stops e batch =
      Spares-bind j (flush_apply_batch cfg batch) (λ _. raise e) (flush_apply_batch-Spares batch)
        (λ _. idle (raise e) (λ s. refl))

  after_apply-Spares :
      (outcome : Outcome) (ev : EventEnvelope) (batch : List EventEnvelope)
      → Spares j (after_apply cfg outcome ev batch)
  unfolding after_apply
  after_apply-Spares done ev batch = idle (pure _) (λ s. refl)
  after_apply-Spares panicked ev batch = idle (raise crashed) (λ s. refl)
  after_apply-Spares (failed position_underflow) ev batch =
      dead_letter-Spares Reason.position_underflow ev batch
  after_apply-Spares (failed (validation m)) ev batch = stops _ batch
  after_apply-Spares (failed invalid_payload) ev batch = stops _ batch
  after_apply-Spares (failed duplicate_event) ev batch = stops _ batch
  after_apply-Spares (failed out_of_order_event) ev batch = stops _ batch
  after_apply-Spares (failed invalid_event) ev batch = stops _ batch
  after_apply-Spares (failed unknown_type) ev batch = stops _ batch

  apply_one-Spares :
      (ev : EventEnvelope) (batch : List EventEnvelope) → Spares j (apply_one cfg ev batch)
  unfolding apply_one apply_to_aggregate
  apply_one-Spares ev batch = Spares-bind j (is_stale cfg ev) _ (is_stale-Spares ev) (λ stale.
      Spares-if j stale (dead_letter cfg Reason.event_too_stale ev batch) _
        (dead_letter-Spares Reason.event_too_stale ev batch)
        (Spares-bind j (apply_to_aggregate cfg ev) (λ outcome. after_apply cfg outcome ev batch)
          (idle (apply_to_aggregate cfg ev) (λ s. refl))
          (λ outcome. after_apply-Spares outcome ev batch)))

  apply_loop-Spares : (evs batch : List EventEnvelope) → Spares j (apply_loop cfg evs batch)
  unfolding apply_loop
  apply_loop-Spares [] batch = flush_apply_batch-Spares batch
  apply_loop-Spares (ev ∷ evs) batch =
      Spares-bind j (apply_one cfg ev batch) (apply_loop cfg evs) (apply_one-Spares ev batch)
        (apply_loop-Spares evs)

  pub apply_eligible-Spares : (evs : List EventEnvelope) → Spares j (apply_eligible cfg evs)
  unfolding apply_eligible
  apply_eligible-Spares evs = apply_loop-Spares evs []

  pump_round-Spares : Spares j (pump_round cfg)
  unfolding pump_round
  pump_round-Spares =
      Spares-bind j (query (max_event_time cfg.pid)) _ (Spares-query j (max_event_time cfg.pid))
        (λ max_seen. record {
          spares = λ s.
              (Spares-bind j (query (fetch_after cfg.pid s.cur fetch_after_page_limit)) _
                  (Spares-query j (fetch_after cfg.pid s.cur fetch_after_page_limit))
                  (λ batch.
                    let eligible =
                      eligible_batch_after_watermark batch (max_seen - cfg.watermark) cfg.watermark
                        fetch_after_page_limit in
                    Spares-if j (length eligible == 0) (pure false) _
                      (idle (pure false) (λ s. refl))
                      (Spares-bind j (apply_eligible cfg eligible) (λ _. pure _)
                        (apply_eligible-Spares eligible) (λ _. idle (pure _) (λ s. refl))))).spares
                s;
        })

  pub pump_after_cursor-Spares : (fuel : ℕ) → Spares j (pump_after_cursor cfg fuel)
  unfolding pump_after_cursor
  pump_after_cursor-Spares zero = idle (raise out_of_fuel) (λ s. refl)
  pump_after_cursor-Spares (suc fuel) = Spares-bind j (pump_round cfg) _ pump_round-Spares (λ again.
      Spares-if j again (pump_after_cursor cfg fuel) (pure tt) (pump_after_cursor-Spares fuel)
        (idle (pure tt) (λ s. refl)))
