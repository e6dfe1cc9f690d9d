-- ===== src/Events/Worker/Refines.antt =====
-- `applyEligible` against what it promises: one event after the other.
use real_time_portfolio_risk.Prelude.{
  nat_eq, List, [], ◌∷◌, ◌++◌, ◌≡◌, ◌≢◌, refl, sym, ap, ◌∙◌, Str, if◌then◌else◌, false, inl, inr,
  arith, ltb,
}
use mathlib.Core.Path.{subst}
use real_time_portfolio_risk.Decimal.{Decimal}
use real_time_portfolio_risk.Domain.Types.{
  Error, EventEnvelope, position_underflow, validation, invalid_payload, duplicate_event,
  out_of_order_event, invalid_event, unknown_type,
}
use real_time_portfolio_risk.Domain.Positions.{Outcome, done, failed, panicked}
use real_time_portfolio_risk.Portfolio.Aggregate.{Aggregate, apply_event}
use real_time_portfolio_risk.Events.Store.{Reason}
use real_time_portfolio_risk.Events.Store.Projection.{row_of}
use real_time_portfolio_risk.Events.Eligible.{event_too_stale_for_apply}
use real_time_portfolio_risk.Events.Store.Touched.{
  touched-append, contains-append, apply_event-frame,
}
use real_time_portfolio_risk.Events.Worker.{
  flush_apply_batch, dead_letter, is_stale, apply_to_aggregate, after_apply, apply_one, apply_loop,
  apply_eligible,
}
use real_time_portfolio_risk.Events.Worker.Monad.{
  Config, State, Result, ok, apply_failed, and_then, bind_ok, ◌>>=◌, ◌>>◌, pure, now, raise,
}
use real_time_portfolio_risk.Events.Worker.Consume.{
  Run, finished, rejected, broke, stopped, continue, consume,
}
use real_time_portfolio_risk.Events.Worker.Apply.{IsReady, IsConsumed, IsRun, flush-IsRun}
use real_time_portfolio_risk.Events.Worker.Letters.{
  lettered, dead_letter-lettered, lettered-IsReady, lettered-IsRun, applied-IsRun,
}

module _ {D : Type 0} ⦃d : Decimal D⦄ (cfg : Config D) where
  -- What the loop promises for the events to come.
  abbrev IsKept : List EventEnvelope → Type 0
  IsKept evs =
      (batch : List EventEnvelope) (symbols : List Str) (s : State D)
      → IsReady cfg batch symbols s
      → (consume cfg evs s.agg).ending ≢ broke
      → IsRun cfg (consume cfg evs s.agg) batch s (apply_loop cfg evs batch s)

  -- The flush before a dead letter or an error.
  flushed_pair :
      (batch : List EventEnvelope) (symbols : List Str) (s : State D)
      → IsReady cfg batch symbols s
      → (s' : State D) × (flush_apply_batch cfg batch s ≡ (ok tt, s'))
        × IsConsumed cfg (stopped s.agg finished) batch s s'
  flushed_pair batch symbols s r =
      let out = flush_apply_batch cfg batch s in
      let (fine, c) = flush-IsRun cfg batch symbols s r in (out.1, ap (λ o. (o, out.1)) fine, c)

  rejected-IsRun :
      (e : Error) (evs batch : List EventEnvelope) (s : State D)
      → (symbols : List Str) × IsReady cfg batch symbols s
      → IsRun cfg (stopped s.agg (rejected e)) batch s (
          and_then (apply_loop cfg evs) ((flush_apply_batch cfg batch >> raise (apply_failed e)) s))
  rejected-IsRun e evs batch s (symbols, r) =
      let (s', flushed, c) = flushed_pair batch symbols s r in
      subst (IsRun cfg (stopped s.agg (rejected e)) batch s)
        (sym (ap (and_then (apply_loop cfg evs)) (bind_ok (flush_apply_batch cfg batch) _ flushed)))
        (
          refl,
          record {
            agg_is = c.agg_is;
            cur_is = c.cur_is;
            quiet_after = c.quiet_after;
            events_kept = c.events_kept;
            dlq_is = c.dlq_is;
            aligned_after = c.aligned_after;
            mirrored_after = c.mirrored_after;
          },
        )

  underflow-IsRun :
      (ev : EventEnvelope) (evs batch : List EventEnvelope) (symbols : List Str) (s : State D)
      → IsKept evs
      → IsReady cfg batch symbols s
      → (consume cfg evs s.agg).ending ≢ broke
      → IsRun cfg
          (continue (failed position_underflow) ev s.agg (consume cfg evs s.agg))
          batch
          s
          (and_then (apply_loop cfg evs) (dead_letter cfg Reason.position_underflow ev batch s))
  unfolding lettered
  underflow-IsRun ev evs batch symbols s kept r sound =
      let (s', flushed, c) = flushed_pair batch symbols s r in
      let run = consume cfg evs s.agg in
      let same = ap (consume cfg evs) c.agg_is in
      let ready = lettered-IsReady cfg ev batch s s' c in
      let after =
        kept [] [] (lettered cfg ev s') ready
          (λ e. sound (sym (ap (λ run. run.ending) same) ∙ e)) in
      subst (IsRun cfg (continue (failed position_underflow) ev s.agg run) batch s)
        (sym (
          ap (and_then (apply_loop cfg evs))
            (dead_letter-lettered cfg ev batch s s' flushed c.quiet_after)))
        (lettered-IsRun cfg ev batch s s' run _ c (
          subst
            (λ k. IsRun cfg k [] (lettered cfg ev s') (apply_loop cfg evs [] (lettered cfg ev s')))
            same after))

  -- One event, by how its application ended.
  after_apply-IsRun :
      (outcome : Outcome) (ev : EventEnvelope) (evs batch : List EventEnvelope) (s : State D)
      → IsKept evs
      → (outcome ≡ done → (symbols : List Str) × IsReady cfg (batch ++ (ev ∷ [])) symbols s)
      → (outcome ≢ done → (symbols : List Str) × IsReady cfg batch symbols s)
      → (continue outcome ev s.agg (consume cfg evs s.agg)).ending ≢ broke
      → IsRun cfg
          (continue outcome ev s.agg (consume cfg evs s.agg))
          batch
          s
          (and_then (apply_loop cfg evs) (after_apply cfg outcome ev batch s))
  unfolding after_apply
  after_apply-IsRun done ev evs batch s kept applied left sound =
      let (symbols, r) = applied refl in
      applied-IsRun cfg ev batch s (consume cfg evs s.agg) _
        (kept (batch ++ (ev ∷ [])) symbols s r sound)
  after_apply-IsRun panicked ev evs batch s kept applied left sound = absurd (sound refl)
  after_apply-IsRun (failed position_underflow) ev evs batch s kept applied left sound =
      let (symbols, r) = left (λ e. ground arith) in
      underflow-IsRun ev evs batch symbols s kept r sound
  after_apply-IsRun (failed (validation m)) ev evs batch s kept applied left sound =
      rejected-IsRun _ evs batch s (left (λ e. ground arith))
  after_apply-IsRun (failed invalid_payload) ev evs batch s kept applied left sound =
      rejected-IsRun _ evs batch s (left (λ e. ground arith))
  after_apply-IsRun (failed duplicate_event) ev evs batch s kept applied left sound =
      rejected-IsRun _ evs batch s (left (λ e. ground arith))
  after_apply-IsRun (failed out_of_order_event) ev evs batch s kept applied left sound =
      rejected-IsRun _ evs batch s (left (λ e. ground arith))
  after_apply-IsRun (failed invalid_event) ev evs batch s kept applied left sound =
      rejected-IsRun _ evs batch s (left (λ e. ground arith))
  after_apply-IsRun (failed unknown_type) ev evs batch s kept applied left sound =
      rejected-IsRun _ evs batch s (left (λ e. ground arith))

  pub apply_one-fresh :
      (ev : EventEnvelope) (batch : List EventEnvelope) (s : State D)
      → cfg.max_event_age ≡ 0
      → let out = apply_event cfg.codec cfg.pid_str ev s.agg in
        apply_one cfg ev batch s ≡ after_apply cfg out.0 ev batch (record s { agg = out.1 })
  unfolding apply_one is_stale apply_to_aggregate
  apply_one-fresh ev batch s off =
      ap
        (λ b.
          and_then
            (λ stale.
              if stale
              then dead_letter cfg Reason.event_too_stale ev batch
              else (apply_to_aggregate cfg ev >>= λ outcome. after_apply cfg outcome ev batch))
            ((if b
                then (now >>= λ t. pure (event_too_stale_for_apply ev cfg.max_event_age t))
                else pure false)
              s))
        (ap (ltb 0) off)

  applied-IsReady :
      (ev : EventEnvelope) (batch : List EventEnvelope) (symbols : List Str) (s : State D)
      → let out = apply_event cfg.codec cfg.pid_str ev s.agg in
        let s' = record s { agg = out.1 } in
        IsReady cfg batch symbols s
        → (out.0 ≡ done → (symbols' : List Str) × IsReady cfg (batch ++ (ev ∷ [])) symbols' s')
          × (out.0 ≢ done → (symbols' : List Str) × IsReady cfg batch symbols' s')
  applied-IsReady ev batch symbols s r =
      let (moved, whole) = apply_event-frame cfg.codec cfg.pid_str ev s.agg in
      (
        λ e.
            let (xs, decoded, others) = moved e in
            (
              symbols ++ xs,
              record {
                quiet = r.quiet;
                decoded = touched-append cfg.codec batch ev symbols xs r.decoded decoded;
                aligned = r.aligned;
                mirrored = λ j absent.
                    let (before, now) = contains-append j symbols xs absent in
                    r.mirrored j before ∙ ap row_of (sym (others j now));
              },
            ),
        λ e. elim whole [
          | inl d ↦ absurd (e d)
          | inr same ↦ (
            symbols,
            record {
              quiet = r.quiet;
              decoded = r.decoded;
              aligned = r.aligned;
              mirrored = λ j absent. r.mirrored j absent ∙ ap row_of (sym (same j));
            },
          )
        ],
      )

  -- A run is the same run seen from before the aggregate was changed.
  from_before :
      (batch : List EventEnvelope) (s : State D) (a : Aggregate D) (run : Run D)
      (out : Result Unit × State D)
      → IsRun cfg run batch (record s { agg = a }) out
      → IsRun cfg run batch s out
  from_before batch s a run out (fine, k) = (
    fine,
    record {
      agg_is = k.agg_is;
      cur_is = k.cur_is;
      quiet_after = k.quiet_after;
      events_kept = k.events_kept;
      dlq_is = k.dlq_is;
      aligned_after = k.aligned_after;
      mirrored_after = k.mirrored_after;
    },
  )

  apply_loop-IsRun : (evs : List EventEnvelope) → cfg.max_event_age ≡ 0 → IsKept evs
  unfolding apply_loop consume
  apply_loop-IsRun [] off batch symbols s r sound = flush-IsRun cfg batch symbols s r
  apply_loop-IsRun (ev ∷ evs) off batch symbols s r sound =
      let out = apply_event cfg.codec cfg.pid_str ev s.agg in
      let s' = record s { agg = out.1 } in
      let (applied, left) = applied-IsReady ev batch symbols s r in
      let after =
        after_apply-IsRun out.0 ev evs batch s' (apply_loop-IsRun evs off) applied left sound in
      subst (IsRun cfg (consume cfg (ev ∷ evs) s.agg) batch s)
        (sym (ap (and_then (apply_loop cfg evs)) (apply_one-fresh ev batch s off)))
        (from_before batch s out.1 _ _ after)

  -- A worker that agrees with the store, has no batch left to write and no limit on the age of an
  -- event, goes through the eligible events as `consume` says, where the database answers every
  -- call and no division panics: the call ends well or with the error of the event that stops it;
  -- the aggregate in memory is the one `consume` gives; each event that would oversell is a dead
  -- letter, in order; the cursor, in memory and in the store, is the last event applied or set
  -- aside; every stored row is the rounded lot in memory; and the stored events stay as they were.
  pub apply_eligible-IsRun :
      (evs : List EventEnvelope) (s : State D)
      → cfg.max_event_age ≡ 0
      → IsReady cfg [] [] s
      → (consume cfg evs s.agg).ending ≢ broke
      → IsRun cfg (consume cfg evs s.agg) [] s (apply_eligible cfg evs s)
  unfolding apply_eligible
  apply_eligible-IsRun evs s off r sound = apply_loop-IsRun evs off [] [] s r sound
