-- ===== src/Events/Worker/Letters.antt =====
-- A dead letter in a run, and an event that is applied in memory.
use real_time_portfolio_risk.Prelude.{
  nat_eq, List, [], ◌∷◌, ◌++◌, map, ◌≡◌, refl, sym, append_nil, append_assoc, ap, ◌∙◌,
}
use real_time_portfolio_risk.Decimal.{Decimal}
use real_time_portfolio_risk.Domain.Types.{EventEnvelope, position_underflow}
use real_time_portfolio_risk.Domain.Positions.{done, failed}
use real_time_portfolio_risk.Events.Cursor.{Cursor, cursor_from_event}
use real_time_portfolio_risk.Events.Store.{
  Reason, touched, persist_apply_dlq, upsert_projection_cursor,
}
use real_time_portfolio_risk.Events.Worker.{flush_apply_batch, move_cursor, dead_letter}
use real_time_portfolio_risk.Events.Worker.Monad.{
  Config, State, Result, ok, bind_ok, transact, ◌>>◌, pure,
}
use real_time_portfolio_risk.Events.Worker.Quiet.{transact-quiet}
use real_time_portfolio_risk.Events.Worker.Consume.{
  Run, finished, reached, letter, stopped, continue,
}
use real_time_portfolio_risk.Events.Worker.Apply.{IsReady, IsConsumed, IsRun, stored_cursor}

module _ {D : Type 0} ⦃d : Decimal D⦄ (cfg : Config D) where
  -- The worker after a dead letter.
  unfoldable pub lettered : EventEnvelope → State D → State D
  lettered ev s = record s {
    tables = persist_apply_dlq cfg.pid ev Reason.position_underflow s.tables;
    cur = cursor_from_event ev;
  }

  pub dead_letter-lettered :
      (ev : EventEnvelope) (batch : List EventEnvelope) (s s' : State D)
      → flush_apply_batch cfg batch s ≡ (ok tt, s')
      → s'.verdicts ≡ []
      → dead_letter cfg Reason.position_underflow ev batch s ≡ (ok [], lettered ev s')
  unfolding dead_letter move_cursor lettered
  dead_letter-lettered ev batch s s' flushed quiet =
      bind_ok (flush_apply_batch cfg batch) _ flushed
      ∙ bind_ok (transact (persist_apply_dlq cfg.pid ev Reason.position_underflow))
          (λ _. move_cursor cfg ev >> pure []) (transact-quiet _ s' quiet)

  -- After the dead letter there is no batch left to write.
  pub lettered-IsReady :
      (ev : EventEnvelope) (batch : List EventEnvelope) (s s' : State D)
      → IsConsumed cfg (stopped s.agg finished) batch s s'
      → IsReady cfg [] [] (lettered ev s')
  unfolding lettered persist_apply_dlq upsert_projection_cursor touched
  lettered-IsReady ev batch s s' c = record {
    quiet = c.quiet_after;
    decoded = refl;
    aligned = stored_cursor cfg (cursor_from_event ev) s'.tables.projection_cursor _ refl;
    mirrored = c.mirrored_after;
  }

  reached-append :
      (c : Cursor) (xs : List EventEnvelope) (ev : EventEnvelope) (ys : List EventEnvelope)
      → reached c (xs ++ (ev ∷ ys)) ≡ reached (cursor_from_event ev) ys
  reached-append c [] ev ys = refl
  reached-append c (x ∷ xs) ev ys = reached-append (cursor_from_event x) xs ev ys

  -- The rest of a run, counted from before the dead letter.
  pub lettered-IsRun :
      (ev : EventEnvelope) (batch : List EventEnvelope) (s s' : State D) (rest : Run D)
      (out : Result Unit × State D)
      → IsConsumed cfg (stopped s.agg finished) batch s s'
      → IsRun cfg rest [] (lettered ev s') out
      → IsRun cfg (continue (failed position_underflow) ev s.agg rest) batch s out
  unfolding lettered persist_apply_dlq upsert_projection_cursor
  lettered-IsRun ev batch s s' rest out c (fine, k) = (
    fine,
    record {
      agg_is = k.agg_is;
      cur_is = k.cur_is ∙ sym (reached-append s.cur batch ev rest.consumed);
      quiet_after = k.quiet_after;
      events_kept = k.events_kept ∙ c.events_kept;
      dlq_is =
          k.dlq_is
          ∙ append_assoc s'.tables.dlq_events _ _
          ∙ ap (λ xs. xs ++ (letter cfg.pid ev ∷ map (letter cfg.pid) rest.refused))
              (c.dlq_is ∙ append_nil s.tables.dlq_events);
      aligned_after = k.aligned_after;
      mirrored_after = k.mirrored_after;
    },
  )

  -- The rest of a run, with an event applied in memory before it.
  pub applied-IsRun :
      (ev : EventEnvelope) (batch : List EventEnvelope) (s : State D) (rest : Run D)
      (out : Result Unit × State D)
      → IsRun cfg rest (batch ++ (ev ∷ [])) s out
      → IsRun cfg (continue done ev s.agg rest) batch s out
  applied-IsRun ev batch s rest out (fine, k) = (
    fine,
    record {
      agg_is = k.agg_is;
      cur_is = k.cur_is ∙ ap (reached s.cur) (append_assoc batch (ev ∷ []) rest.consumed);
      quiet_after = k.quiet_after;
      events_kept = k.events_kept;
      dlq_is = k.dlq_is;
      aligned_after = k.aligned_after;
      mirrored_after = k.mirrored_after;
    },
  )
