-- ===== src/Events/Worker/Apply.antt =====
-- `applyEligible` against what it promises.
use real_time_portfolio_risk.Prelude.{
  nat_eq, append_nil, List, [], ◌∷◌, ◌++◌, map, ◌≡◌, refl, sym, ap, ◌∙◌, Str, false, Bool-cases,
  inl, inr, some, arith, get_or_else,
}
use mathlib.Core.Path.{subst}
use real_time_portfolio_risk.Prelude.Dict.{Dict, lookup-insert_self, insert, lookup}
use real_time_portfolio_risk.Decimal.{Decimal}
use real_time_portfolio_risk.Clock.{Uuid}
use real_time_portfolio_risk.Domain.Types.{EventEnvelope}
use real_time_portfolio_risk.Domain.Positions.{Positions}
use real_time_portfolio_risk.Events.Cursor.{Cursor, zero_cursor, cursor_from_event}
use real_time_portfolio_risk.Events.Store.{
  Tables, persist_lots, touched, rows_of, load_projection_cursor,
}
use real_time_portfolio_risk.Events.Store.Projection.{
  contains, Mirrors, persist_lots-keeps, persist_lots-writes,
}
use real_time_portfolio_risk.Events.Worker.{last_of, flush_apply_batch}
use real_time_portfolio_risk.Events.Worker.Monad.{Config, State, Result}
use real_time_portfolio_risk.Events.Worker.Quiet.{IsFlushed, flush-IsFlushed, quieted_eq}
use real_time_portfolio_risk.Events.Worker.Consume.{
  Run, finished, reached, letter, result_of, stopped,
}

module _ {D : Type 0} ⦃d : Decimal D⦄ (cfg : Config D) where
  -- Every stored row is the worker's lot, but for the symbols listed.
  abbrev pub MirrorsBut : List Str → State D → Type 0
  MirrorsBut symbols s =
      (j : Str)
      → contains j symbols ≡ false
      → Mirrors cfg.pid_str s.agg (rows_of cfg.pid s.tables) j

  -- A worker with a batch that is applied in memory and not yet written.
  pub record IsReady (batch : List EventEnvelope) (symbols : List Str) (s : State D) : Type 0 where
    pub quiet : s.verdicts ≡ []
    pub decoded : touched cfg.codec batch ≡ some symbols
    pub aligned : load_projection_cursor cfg.pid s.tables ≡ s.cur
    pub mirrored : MirrorsBut symbols s

  -- The state after a run that began with a batch not yet written.
  pub record IsConsumed (run : Run D) (batch : List EventEnvelope) (s s' : State D) : Type 0 where
    pub agg_is : s'.agg ≡ run.agg
    pub cur_is : s'.cur ≡ reached s.cur (batch ++ run.consumed)
    pub quiet_after : s'.verdicts ≡ []
    pub events_kept : s'.tables.events ≡ s.tables.events
    pub dlq_is : s'.tables.dlq_events ≡ s.tables.dlq_events ++ map (letter cfg.pid) run.refused
    pub aligned_after : load_projection_cursor cfg.pid s'.tables ≡ s'.cur
    pub mirrored_after : MirrorsBut [] s'

  abbrev pub IsRun : Run D → List EventEnvelope → State D → Result Unit × State D → Type 0
  IsRun run batch s out = (out.0 ≡ result_of run.ending) × IsConsumed run batch s out.1

  pub reached-last :
      (c : Cursor) (ev : EventEnvelope) (evs : List EventEnvelope)
      → cursor_from_event (last_of ev evs) ≡ reached c (ev ∷ evs)
  reached-last c ev [] = refl
  reached-last c ev (ev' ∷ evs) = reached-last (cursor_from_event ev) ev' evs

  pub stored_cursor :
      (c : Cursor) (old : Dict Uuid Cursor) (t : Tables D)
      → t.projection_cursor ≡ insert cfg.pid c old
      → load_projection_cursor cfg.pid t ≡ c
  unfolding load_projection_cursor
  stored_cursor c old t e =
      ap (λ m. get_or_else (lookup cfg.pid m) zero_cursor) e
      ∙ ap (λ o. get_or_else o zero_cursor) (lookup-insert_self cfg.pid c old)

  stored_rows :
      (rows : Positions D) (old : Dict Uuid (Positions D)) (t : Tables D)
      → t.positions_projection ≡ insert cfg.pid rows old
      → rows_of cfg.pid t ≡ rows
  stored_rows rows old t e =
      ap (λ m. get_or_else (lookup cfg.pid m) []) e
      ∙ ap (λ o. get_or_else o []) (lookup-insert_self cfg.pid rows old)

  -- Writing the listed symbols makes every row the worker's lot.
  persisted-MirrorsBut :
      (symbols : List Str) (s s' : State D)
      → MirrorsBut symbols s
      → s'.agg ≡ s.agg
      → rows_of cfg.pid s'.tables
        ≡ persist_lots cfg.pid_str s.agg symbols (rows_of cfg.pid s.tables)
      → MirrorsBut [] s'
  persisted-MirrorsBut symbols s s' m same rows j _ =
      rw (same, rows)
        (elim (Bool-cases (contains j symbols)) [
          | inl e ↦ persist_lots-writes cfg.pid_str s.agg symbols _ j e
          | inr e ↦ persist_lots-keeps cfg.pid_str s.agg symbols _ j (m j e)
        ])

  flushed-IsConsumed :
      (ev : EventEnvelope) (evs : List EventEnvelope) (symbols : List Str) (s s' : State D)
      → IsReady (ev ∷ evs) symbols s
      → IsFlushed cfg symbols (last_of ev evs) s s'
      → IsConsumed (stopped s.agg finished) (ev ∷ evs) s s'
  flushed-IsConsumed ev evs symbols s s' r f = record {
    agg_is = f.agg_kept;
    cur_is =
        f.cur_moved ∙ reached-last s.cur ev evs ∙ ap (reached s.cur) (sym (append_nil (ev ∷ evs)));
    quiet_after = f.quiet_after;
    events_kept = f.events_kept;
    dlq_is = f.dlq_kept ∙ sym (append_nil _);
    aligned_after = stored_cursor _ _ s'.tables f.cursor_stored ∙ sym f.cur_moved;
    mirrored_after =
        persisted-MirrorsBut symbols s s' r.mirrored f.agg_kept
          (stored_rows _ _ s'.tables f.rows_stored);
  }

  -- With no batch, nothing is left to write.
  idle-IsConsumed :
      (symbols : List Str) (s : State D)
      → IsReady [] symbols s
      → IsConsumed (stopped s.agg finished) [] s s
  unfolding touched
  idle-IsConsumed symbols s r = record {
    agg_is = refl;
    cur_is = refl;
    quiet_after = r.quiet;
    events_kept = refl;
    dlq_is = sym (append_nil _);
    aligned_after = r.aligned;
    mirrored_after = λ j _. r.mirrored j (none_touched symbols r.decoded j);
  }
    where
      none_touched : (xs : List Str) → some [] ≡ some xs → (j : Str) → contains j xs ≡ false
      none_touched xs e j = ground arith

  pub flush-IsRun :
      (batch : List EventEnvelope) (symbols : List Str) (s : State D)
      → IsReady batch symbols s
      → IsRun (stopped s.agg finished) batch s (flush_apply_batch cfg batch s)
  unfolding flush_apply_batch
  flush-IsRun [] symbols s r = (refl, idle-IsConsumed symbols s r)
  flush-IsRun (ev ∷ evs) symbols s r =
      let (fine, f) = flush-IsFlushed cfg ev evs symbols s r.decoded in
      subst (λ q. IsRun (stopped s.agg finished) (ev ∷ evs) s (flush_apply_batch cfg (ev ∷ evs) q))
        (sym (quieted_eq s r.quiet)) (fine, flushed-IsConsumed ev evs symbols s _ r f)
