-- ===== src/Events/Worker/Retry.antt =====
-- A write that fails after the events were applied in memory, and the round after it.
use real_time_portfolio_risk.Prelude.{
  nat_eq, append_nil, append_assoc, List, [], ◌∷◌, ◌++◌, ◌≡◌, refl, sym, ap, ◌∙◌, Str, some,
}
use mathlib.Core.Path.{subst}
use real_time_portfolio_risk.Decimal.{Decimal}
use real_time_portfolio_risk.Domain.Types.{EventEnvelope}
use real_time_portfolio_risk.Domain.Positions.{done}
use real_time_portfolio_risk.Portfolio.Aggregate.{Aggregate, apply_event}
use real_time_portfolio_risk.Events.Verdict.{Verdict}
use real_time_portfolio_risk.Events.Store.{touched}
use real_time_portfolio_risk.Events.Store.Touched.{touched-append, apply_event-frame}
use real_time_portfolio_risk.Events.Worker.{
  flush_apply_batch, apply_batch_call, after_apply, apply_loop, apply_eligible,
}
use real_time_portfolio_risk.Events.Worker.Monad.{
  Config, State, ok, err, store_failed, and_then, transact,
}
use real_time_portfolio_risk.Events.Worker.Refines.{apply_one-fresh}
use real_time_portfolio_risk.Events.Worker.Quiet.{flush-IsFlushed, quieted, quieted_eq}

module _ {D : Type 0} ⦃d : Decimal D⦄ (cfg : Config D) where
  -- Every event of the list is applied and none is set aside.
  abbrev pub IsApplied : List EventEnvelope → Aggregate D → Type 0
  IsApplied [] a = Unit
  IsApplied (ev ∷ evs) a =
      let out = apply_event cfg.codec cfg.pid_str ev a in (out.0 ≡ done) × IsApplied evs out.1

  abbrev pub aggregate_after : List EventEnvelope → Aggregate D → Aggregate D
  aggregate_after [] a = a
  aggregate_after (ev ∷ evs) a = aggregate_after evs (apply_event cfg.codec cfg.pid_str ev a).1

  -- The loop over such events applies them all in memory and then writes once.
  apply_loop-applied :
      (evs batch : List EventEnvelope) (s : State D)
      → cfg.max_event_age ≡ 0
      → IsApplied evs s.agg
      → apply_loop cfg evs batch s
        ≡ flush_apply_batch cfg (batch ++ evs) (record s { agg = aggregate_after evs s.agg })
  unfolding apply_loop after_apply
  apply_loop-applied [] batch s off applied =
      ap (λ b. flush_apply_batch cfg b s) (sym (append_nil batch))
  apply_loop-applied (ev ∷ evs) batch s off (now, later) =
      let out = apply_event cfg.codec cfg.pid_str ev s.agg in
      let s' = record s { agg = out.1 } in
      ap (and_then (apply_loop cfg evs))
        (apply_one-fresh cfg ev batch s off ∙ ap (λ o. after_apply cfg o ev batch s') now)
      ∙ apply_loop-applied evs (batch ++ (ev ∷ [])) s' off later
      ∙ ap (λ b. flush_apply_batch cfg b (record s { agg = aggregate_after evs out.1 }))
          (append_assoc batch (ev ∷ []) evs)

  -- The payloads of such events decode.
  touched-applied :
      (evs batch : List EventEnvelope) (a : Aggregate D) (symbols : List Str)
      → touched cfg.codec batch ≡ some symbols
      → IsApplied evs a
      → (symbols' : List Str) × (touched cfg.codec (batch ++ evs) ≡ some symbols')
  touched-applied [] batch a symbols t applied =
      (symbols, ap (touched cfg.codec) (append_nil batch) ∙ t)
  touched-applied (ev ∷ evs) batch a symbols t (now, later) =
      let (xs, decoded, _) = (apply_event-frame cfg.codec cfg.pid_str ev a).0 now in
      let (ys, e) =
        touched-applied evs (batch ++ (ev ∷ [])) _ (symbols ++ xs)
          (touched-append cfg.codec batch ev symbols xs t decoded) later in
      (ys, ap (touched cfg.codec) (sym (append_assoc batch (ev ∷ []) evs)) ∙ e)

  -- A transaction that is rolled back.
  flush-failed :
      (ev : EventEnvelope) (evs : List EventEnvelope) (symbols : List Str) (s : State D)
      → touched cfg.codec (ev ∷ evs) ≡ some symbols
      → flush_apply_batch cfg (ev ∷ evs) (record s { verdicts = Verdict.rolls_back ∷ [] })
        ≡ (err store_failed, quieted s)
  unfolding flush_apply_batch apply_batch_call transact
  flush-failed ev evs symbols s e = rw (e, apply_batch_call) refl

  first_fails :
      (ev : EventEnvelope) (evs : List EventEnvelope) (s : State D)
      → cfg.max_event_age ≡ 0
      → s.verdicts ≡ Verdict.rolls_back ∷ []
      → IsApplied (ev ∷ evs) s.agg
      → apply_eligible cfg (ev ∷ evs) s
        ≡ (err store_failed, record s { agg = aggregate_after (ev ∷ evs) s.agg; verdicts = [] })
  unfolding apply_eligible touched
  first_fails ev evs s off verdict applied =
      let s' = record s { agg = aggregate_after (ev ∷ evs) s.agg } in
      let (symbols, e) = touched-applied (ev ∷ evs) [] s.agg [] refl applied in
      apply_loop-applied (ev ∷ evs) [] s off applied
      ∙ ap (λ v. flush_apply_batch cfg (ev ∷ evs) (record s' { verdicts = v })) verdict
      ∙ flush-failed ev evs symbols s' e

  second_succeeds :
      (ev : EventEnvelope) (evs : List EventEnvelope) (s : State D)
      → cfg.max_event_age ≡ 0
      → s.verdicts ≡ []
      → IsApplied (ev ∷ evs) s.agg
      → let out = apply_eligible cfg (ev ∷ evs) s in
        (out.0 ≡ ok tt) × (out.1.agg ≡ aggregate_after (ev ∷ evs) s.agg)
  unfolding apply_eligible touched
  second_succeeds ev evs s off verdict applied =
      let s' = record s { agg = aggregate_after (ev ∷ evs) s.agg } in
      let (symbols, e) = touched-applied (ev ∷ evs) [] s.agg [] refl applied in
      let (fine, f) = flush-IsFlushed cfg ev evs symbols s' e in
      subst (λ out. (out.0 ≡ ok tt) × (out.1.agg ≡ s'.agg))
        (sym (
          apply_loop-applied (ev ∷ evs) [] s off applied
          ∙ ap (flush_apply_batch cfg (ev ∷ evs)) (quieted_eq s' verdict)))
        (fine, f.agg_kept)

  -- A worker applies events in memory, their transaction is rolled back, and the next round gets
  -- them again: the first call fails and leaves the tables and the cursor as they were, and the
  -- aggregate holds the events; the second call ends well and the aggregate holds them twice.
  pub retry_applies_twice :
      (ev : EventEnvelope) (evs : List EventEnvelope) (s : State D)
      → cfg.max_event_age ≡ 0
      → s.verdicts ≡ Verdict.rolls_back ∷ []
      → IsApplied (ev ∷ evs) s.agg
      → IsApplied (ev ∷ evs) (aggregate_after (ev ∷ evs) s.agg)
      → let once = aggregate_after (ev ∷ evs) s.agg in
        let first = apply_eligible cfg (ev ∷ evs) s in
        let second = apply_eligible cfg (ev ∷ evs) first.1 in
        (first ≡ (err store_failed, record s { agg = once; verdicts = [] }))
        × (second.0 ≡ ok tt)
        × (second.1.agg ≡ aggregate_after (ev ∷ evs) once)
  retry_applies_twice ev evs s off verdict applied again =
      let failure = first_fails ev evs s off verdict applied in
      let once = aggregate_after (ev ∷ evs) s.agg in
      let s' = record s { agg = once; verdicts = [] } in
      let (fine, twice) =
        subst
          (λ first.
            let second = apply_eligible cfg (ev ∷ evs) first.1 in
            (second.0 ≡ ok tt) × (second.1.agg ≡ aggregate_after (ev ∷ evs) once))
          (sym failure) (second_succeeds ev evs s' off refl again) in
      (failure, fine, twice)
