-- ===== src/Events/PriceWorker.antt =====
-- internal/events/price_worker_pool.go: the worker of one price partition. It is a worker whose
-- state has no positions: of `State` it uses the cursor, the tables and the rest of the outside
-- world.
pub mod Window
pub mod Days
pub mod Batch
use real_time_portfolio_risk.Prelude.{
  ℕ, suc, zero, ◌-◌, ◌==◌, nat_eq, text_eq, ltb, Bool, true, false, not, ◌||◌, List, [], ◌∷◌, ◌++◌,
  length, Str, none, some, Option, if◌then◌else◌,
}
use real_time_portfolio_risk.Decimal.{Decimal}
use real_time_portfolio_risk.Domain.Types.{EventEnvelope, event_type_price_updated}
use real_time_portfolio_risk.Events.Verdict.{Verdict}
use real_time_portfolio_risk.Events.Cursor.{zero_cursor, is_zero_cursor}
use real_time_portfolio_risk.Events.Eligible.{
  eligible_batch_after_watermark, fetch_after_page_limit,
}
use real_time_portfolio_risk.Events.Store.{
  Tables, Reason, persist_apply_dlq, load_projection_cursor, max_event_time, fetch_after, fetch_all,
}
use real_time_portfolio_risk.Events.Store.Prices.{
  apply_price_batch, list_portfolio_ids_by_open_symbols,
}
use real_time_portfolio_risk.Events.Worker.{last_of, move_cursor, is_stale}
use real_time_portfolio_risk.Events.Worker.Monad.{
  Config, State, Action, Result, store_failed, out_of_fuel, ok, err, pure, raise, ◌>>=◌, ◌>>◌, get,
  modify, query, transact, best_effort, next_verdict, later_verdicts,
}

-- The events that are to be written, and their symbols.
pub record PriceBatch : Type 0 where
  pub ok_batch : List EventEnvelope
  pub batch_symbols : List Str

abbrev pub no_batch : PriceBatch
no_batch = record { ok_batch = []; batch_symbols = [] }

-- `batchSymbols[p.Symbol] = struct{}{}`
abbrev pub add_symbol : Str → List Str → List Str
add_symbol s [] = s ∷ []
add_symbol s (t ∷ ts) = if t == s then t ∷ ts else t ∷ add_symbol s ts

module _ {D : Type 0} where
  -- A transaction whose statements may fail.
  unfoldable pub transact_if : (Tables D → Option (Tables D)) → Action D (Unit {0})
  transact_if f s =
      let s' = record s { verdicts = later_verdicts s.verdicts } in
      elim (f s.tables) [
        | none ↦ (err store_failed, s')
        | some tables ↦ elim (next_verdict s.verdicts) [
          | Verdict.answers ↦ (ok tt, record s' { tables = tables })
          | Verdict.rolls_back ↦ (err store_failed, s')
          | Verdict.commits_unseen ↦ (err store_failed, record s' { tables = tables })
        ]
      ]

module _ {D : Type 0} ⦃d : Decimal D⦄ (cfg : Config D) where
  -- `scheduleRiskForSymbols`
  unfoldable pub schedule_risk_for_symbols : List Str → Action D (Unit {0})
  schedule_risk_for_symbols [] = pure tt
  schedule_risk_for_symbols (sym ∷ symbols) =
      if not cfg.has_risk_scheduler
      then pure tt
      else (query (list_portfolio_ids_by_open_symbols (sym ∷ symbols)) >>= λ pids.
          modify (λ s. record s { scheduled = s.scheduled ++ pids }))

  -- Where there is a batch: it is written, risk is scheduled (a failure is logged), and the cursor
  -- moves.
  unfoldable pub flush_price_batch : PriceBatch → Action D (Unit {0})
  flush_price_batch b = elim b.ok_batch [
    | [] ↦ pure tt
    | ev ∷ evs ↦
        transact_if (apply_price_batch cfg.codec cfg.pid (ev ∷ evs) (last_of ev evs))
        >> (best_effort (schedule_risk_for_symbols b.batch_symbols)
            >> move_cursor cfg (last_of ev evs))
  ]

  unfoldable pub price_dead_letter : Reason → EventEnvelope → PriceBatch → Action D PriceBatch
  price_dead_letter reason ev b = do
    flush_price_batch b
    transact (persist_apply_dlq cfg.pid ev reason)
    move_cursor cfg ev
    pure no_batch

  -- One round of the loop of `applyPriceEligible`.
  unfoldable pub apply_price_one : EventEnvelope → PriceBatch → Action D PriceBatch
  apply_price_one ev b = do
    stale ← is_stale cfg ev
    if stale
        then price_dead_letter Reason.event_too_stale ev b
        else if not (ev.event_type == event_type_price_updated)
        then pure b
        else elim (cfg.codec.unmarshal_price ev.payload) [
          | none ↦ price_dead_letter Reason.bad_price_payload ev b
          | some p ↦ pure (record {
            ok_batch = b.ok_batch ++ (ev ∷ []);
            batch_symbols = add_symbol p.symbol b.batch_symbols;
          })
        ]

  unfoldable pub apply_price_loop : List EventEnvelope → PriceBatch → Action D (Unit {0})
  apply_price_loop [] b = flush_price_batch b
  apply_price_loop (ev ∷ evs) b = apply_price_one ev b >>= apply_price_loop evs

  unfoldable pub apply_price_eligible : List EventEnvelope → Action D (Unit {0})
  apply_price_eligible evs = apply_price_loop evs no_batch

  -- One round of `pumpAfterCursor`; the result says whether there is another one.
  unfoldable pub price_pump_round : Action D Bool
  price_pump_round = do
    max_t ← query (max_event_time cfg.pid)
    let cutoff = max_t - cfg.watermark
    s ← get
    batch ← query (fetch_after cfg.pid s.cur fetch_after_page_limit)
    let eligible = eligible_batch_after_watermark batch cutoff cfg.watermark fetch_after_page_limit
    if length batch == 0
        then pure false
        else if length eligible == 0
        then pure false
        else (apply_price_eligible eligible
            >> pure (
                not (
                  ltb (length eligible) (length batch)
                  || ltb (length batch) fetch_after_page_limit)))

  unfoldable pub price_pump_after_cursor : ℕ → Action D (Unit {0})
  price_pump_after_cursor zero = raise out_of_fuel
  price_pump_after_cursor (suc fuel) =
      price_pump_round >>= λ again. if again then price_pump_after_cursor fuel else pure tt

  -- `rebuild` of a price partition.
  unfoldable pub price_rebuild : ℕ → Action D (Unit {0})
  price_rebuild fuel = do
    cur ← query (load_projection_cursor cfg.pid)
    modify (λ s. record s { cur = zero_cursor })
    if is_zero_cursor cur
        then (query (fetch_all cfg.pid) >>= apply_price_eligible)
        else (modify (λ s. record s { cur = cur }) >> price_pump_after_cursor fuel)
