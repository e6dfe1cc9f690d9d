-- ===== src/Events/Worker/Quiet.antt =====
-- The worker's calls while the database answers every one.
use real_time_portfolio_risk.Prelude.{
  ◌++◌, ℕ, ◌+◌, ◌-◌, ltb, leb, length, ◌&&◌, if◌then◌else◌, Str, not, ◌==◌, nat_eq, ◌||◌, ◌≡◌, refl,
  sym, ◌∙◌, true, false, Bool, List, [], ◌∷◌, arith, some, Bool-cases, inl, inr,
}
use real_time_portfolio_risk.Decimal.{Decimal}
use real_time_portfolio_risk.Domain.Types.{EventEnvelope}
use mathlib.Core.Path.{subst}
use real_time_portfolio_risk.Prelude.Dict.{insert}
use real_time_portfolio_risk.Clock.{Time, Uuid, nil_uuid, is_zero_time}
use real_time_portfolio_risk.Events.Cursor.{Cursor, cursor_from_event, is_same, compare_cursors}
use real_time_portfolio_risk.Events.Store.{
  Tables, rows_of, persist_lots, apply_batch, touched, insert_portfolio_snapshot, has_checkpoint,
  load_projection_cursor,
}
use real_time_portfolio_risk.Events.Worker.{
  last_of, write_portfolio_snapshot, maybe_snapshot_after_apply, apply_batch_call,
  flush_apply_batch, schedule, move_cursor,
}
use real_time_portfolio_risk.Events.Worker.Monad.{
  Config, State, ok, query, transact, now, best_effort, pure, bind_ok, ◌>>◌,
}

module _ {D : Type 0} where
  pub query-quiet :
      {A : Type 0} (f : Tables D → A) (s : State D)
      → s.verdicts ≡ []
      → query f s ≡ (ok (f s.tables), s)
  unfolding query
  query-quiet f s quiet = ground arith

  pub transact-quiet :
      (f : Tables D → Tables D) (s : State D)
      → s.verdicts ≡ []
      → transact f s ≡ (ok tt, record s { tables = f s.tables })
  unfolding transact
  transact-quiet f s quiet = ground arith

  -- What a snapshot leaves as it was.
  pub record Keeps (s s' : State D) : Type 0 where
    pub same_agg : s'.agg ≡ s.agg
    pub same_cur : s'.cur ≡ s.cur
    pub still_quiet : s'.verdicts ≡ []
    pub same_events : s'.tables.events ≡ s.tables.events
    pub same_cursors : s'.tables.projection_cursor ≡ s.tables.projection_cursor
    pub same_positions : s'.tables.positions_projection ≡ s.tables.positions_projection
    pub same_dlq : s'.tables.dlq_events ≡ s.tables.dlq_events

  -- The state with the database answering from now on.
  abbrev pub quieted : State D → State D
  quieted s = record s { verdicts = [] }

  pub quieted_eq : (s : State D) → s.verdicts ≡ [] → s ≡ quieted s
  quieted_eq s quiet = ground arith

  Keeps-refl : (s : State D) → Keeps (quieted s) (quieted s)
  Keeps-refl s = ground arith

  -- The counters of the snapshot policy are no part of what is kept.
  counted : ℕ → Time → ℕ → State D → State D
  counted n t r s = record s {
    events_applied_since_snapshot = n;
    last_snapshot_at = t;
    readings = r;
    verdicts = [];
  }

  Keeps-counted :
      (n : ℕ) (t : Time) (r : ℕ) (s s' : State D)
      → Keeps (counted n t r s) s'
      → Keeps (quieted s) s'
  unfolding counted
  Keeps-counted n t r s s' k = ground arith

  insert_snapshot-Keeps :
      (pid : Uuid) (c : Cursor) (body : Str) (n : ℕ) (t : Time) (r : ℕ) (s : State D)
      → let s' = counted n t r s in
        Keeps (quieted s) (record s' { tables = insert_portfolio_snapshot pid c body s.tables })
  unfolding insert_portfolio_snapshot counted
  insert_snapshot-Keeps pid c body n t r s =
      elim (Bool-cases (has_checkpoint pid c s.tables.portfolio_snapshots)) [
        | inl e ↦ rw e (ground arith)
        | inr e ↦ rw e (ground arith)
      ]

module _ {D : Type 0} ⦃d : Decimal D⦄ (cfg : Config D) where
  write_portfolio_snapshot-Keeps :
      (ev : EventEnvelope) (s : State D)
      → Keeps (quieted s) (write_portfolio_snapshot cfg ev (quieted s)).1
  unfolding write_portfolio_snapshot now query transact counted
  write_portfolio_snapshot-Keeps ev s =
      elim (Bool-cases (
        not (
          is_same
            (compare_cursors (cursor_from_event ev) (load_projection_cursor cfg.pid s.tables))))) [
              | inl e ↦ rw e (Keeps-refl s)
              | inr e ↦ elim (Bool-cases (ev.event_id == nil_uuid || is_zero_time ev.event_time)) [
                | inl z ↦ rw (e, z) (Keeps-refl s)
                | inr z ↦
                    rw (e, z)
                      (insert_snapshot-Keeps cfg.pid (cursor_from_event ev) _ 0 (s.clock s.readings)
                        (s.readings + 1) s)
              ]
            ]

  maybe_snapshot-Keeps :
      (ev : EventEnvelope) (evs : List EventEnvelope) (s : State D)
      → ((maybe_snapshot_after_apply cfg ev evs (quieted s)).0 ≡ ok tt)
        × Keeps (quieted s) (maybe_snapshot_after_apply cfg ev evs (quieted s)).1
  unfolding maybe_snapshot_after_apply now counted
  maybe_snapshot-Keeps ev evs s =
      let n = s.events_applied_since_snapshot + length (ev ∷ evs) in
      let by_n = ltb 0 cfg.snapshot_min_events && leb cfg.snapshot_min_events n in
      let timed = leb cfg.snapshot_min_interval (s.clock s.readings - s.last_snapshot_at) in
      elim (Bool-cases (ltb 0 cfg.snapshot_min_events || ltb 0 cfg.snapshot_min_interval)) [
        | inr off ↦ rw off (refl, Keeps-refl s)
        | inl on ↦ elim (Bool-cases (ltb 0 cfg.snapshot_min_interval)) [
          | inl interval ↦ rw (on, interval) (written (by_n || timed) n (s.readings + 1))
          | inr no_interval ↦ rw (on, no_interval) (written by_n n s.readings)
        ]
      ]
    where
      written :
          (due : Bool) (n r : ℕ)
          → let s' = counted n s.last_snapshot_at r s in
            let out =
              (if not due
                  then pure tt
                  else best_effort (write_portfolio_snapshot cfg (last_of ev evs)))
                s' in
            (out.0 ≡ ok tt) × Keeps (quieted s) out.1
      written true n r = (
        refl,
        Keeps-counted n s.last_snapshot_at r s _
            (write_portfolio_snapshot-Keeps (last_of ev evs) (counted n s.last_snapshot_at r s)),
      )
      written false n r = (
        refl,
        Keeps-counted n s.last_snapshot_at r s _ (Keeps-refl (counted n s.last_snapshot_at r s)),
      )

  -- The state after a batch was written: the rows of its symbols, its last event as the cursor in
  -- the store and in the worker, and nothing else.
  pub record IsFlushed (symbols : List Str) (last : EventEnvelope) (s s' : State D) : Type 0 where
    pub agg_kept : s'.agg ≡ s.agg
    pub cur_moved : s'.cur ≡ cursor_from_event last
    pub quiet_after : s'.verdicts ≡ []
    pub events_kept : s'.tables.events ≡ s.tables.events
    pub cursor_stored :
        s'.tables.projection_cursor
        ≡ insert cfg.pid (cursor_from_event last) s.tables.projection_cursor
    pub rows_stored :
        s'.tables.positions_projection
        ≡ insert cfg.pid
            (persist_lots cfg.pid_str s.agg symbols (rows_of cfg.pid s.tables))
            s.tables.positions_projection
    pub dlq_kept : s'.tables.dlq_events ≡ s.tables.dlq_events

  apply_batch_call-quiet :
      (ev : EventEnvelope) (evs : List EventEnvelope) (symbols : List Str) (s : State D)
      → touched cfg.codec (ev ∷ evs) ≡ some symbols
      → let tables = apply_batch cfg.pid cfg.pid_str symbols (last_of ev evs) s.agg s.tables in
        apply_batch_call cfg ev evs (quieted s)
        ≡ (ok tt, record s { tables = tables; verdicts = [] })
  unfolding apply_batch_call transact
  apply_batch_call-quiet ev evs symbols s decoded = rw (decoded, apply_batch_call)

  schedule_total :
      (s : State D)
      → (handed : List Uuid) × (schedule cfg s ≡ (ok tt, record s { scheduled = handed }))
  unfolding schedule
  schedule_total s = elim (Bool-cases cfg.has_risk_scheduler) [
    | inl e ↦ (s.scheduled ++ (cfg.pid ∷ []), rw e)
    | inr e ↦ (s.scheduled, rw e)
  ]

  pub flush-IsFlushed :
      (ev : EventEnvelope) (evs : List EventEnvelope) (symbols : List Str) (s : State D)
      → touched cfg.codec (ev ∷ evs) ≡ some symbols
      → let out = flush_apply_batch cfg (ev ∷ evs) (quieted s) in
        (out.0 ≡ ok tt) × IsFlushed symbols (last_of ev evs) s out.1
  unfolding flush_apply_batch move_cursor apply_batch
  flush-IsFlushed ev evs symbols s decoded =
      let (handed, e) = schedule_total (record s { tables = tables; verdicts = [] }) in
      subst (λ out. (out.0 ≡ ok tt) × IsFlushed symbols (last_of ev evs) s out.1)
        (sym (
          bind_ok (apply_batch_call cfg ev evs) _ (apply_batch_call-quiet ev evs symbols s decoded)
          ∙ bind_ok (schedule cfg)
              (λ _. move_cursor cfg (last_of ev evs) >> maybe_snapshot_after_apply cfg ev evs) e))
        (after handed)
    where
      tables : Tables D
      tables = apply_batch cfg.pid cfg.pid_str symbols (last_of ev evs) s.agg s.tables

      written : List Uuid → State D
      written scheduled = record s {
        cur = cursor_from_event (last_of ev evs);
        tables = apply_batch cfg.pid cfg.pid_str symbols (last_of ev evs) s.agg s.tables;
        verdicts = [];
        scheduled = scheduled;
      }

      after :
          (scheduled : List Uuid)
          → let out = maybe_snapshot_after_apply cfg ev evs (written scheduled) in
            (out.0 ≡ ok tt) × IsFlushed symbols (last_of ev evs) s out.1
      after scheduled =
          let (fine, k) = maybe_snapshot-Keeps ev evs (written scheduled) in
          (
            fine,
            record {
              agg_kept = k.same_agg;
              cur_moved = k.same_cur;
              quiet_after = k.still_quiet;
              events_kept = k.same_events;
              cursor_stored = k.same_cursors;
              rows_stored = k.same_positions;
              dlq_kept = k.same_dlq;
            },
          )
