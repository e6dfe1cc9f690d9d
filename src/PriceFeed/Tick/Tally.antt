-- ===== src/PriceFeed/Tick/Tally.antt =====
-- What a tick records.
use real_time_portfolio_risk.Prelude.{ℕ, ◌+◌, ◌≤◌, ◌≡◌, ◌⊎◌, Bool, true, false, length, none, some}
use real_time_portfolio_risk.Decimal.{Decimal}
use real_time_portfolio_risk.Domain.Types.{EventEnvelope}
use real_time_portfolio_risk.Events.Store.Append.{Reply}
use real_time_portfolio_risk.PriceFeed.Fetch.{Fed, fed, starved}
use real_time_portfolio_risk.PriceFeed.Emit.{Feed}
use real_time_portfolio_risk.PriceFeed.Tick.{Counts, no_counts, TickState, emit_all, read_clock}

abbrev pub total : Counts → ℕ
total c = c.ingested_count + c.dropped_stale_count + c.dedup_skipped_count + c.failed_count

module _ {D S : Type 0} ⦃d : Decimal D⦄ (feed : Feed D) (service : EventEnvelope → S → Reply × S)
    (interrupted : ℕ → Bool) where
  -- A loop that was not stopped has counted every quote once.
  abbrev IsTallied : ℕ → Bool → Counts → Type 0
  IsTallied n true c = total c ≤ n
  IsTallied n false c = total c ≡ n

  -- What is recorded of a tick, by what the fetch gave: `before` is the state at its start.
  abbrev pub IsRecorded : Fed D → TickState D S → TickState D S → Type 0
  IsRecorded (starved e) before after =
      (after.feed_state.store ≡ before.feed_state.store)
      × (after.runtime.last_error ≡ some e)
      × (after.runtime.last_tick_ingested ≡ 0)
      × (after.runtime.last_success_at ≡ before.runtime.last_success_at)
  IsRecorded (fed qs name failed_over) before after =
      let out =
        emit_all feed service interrupted name qs no_counts (read_clock before).feed_state in
      (after.feed_state.store ≡ out.2.store)
      × (((out.0 ≡ true) × (after.runtime.last_error ≡ before.runtime.last_error))
          ⊎ ((total out.1 ≡ length qs)
              × (after.runtime.last_error ≡ none)
              × (after.runtime.active_provider ≡ name)
              × (after.runtime.last_tick_used_failover ≡ failed_over)
              × (after.runtime.last_tick_ingested ≡ out.1.ingested_count)))
