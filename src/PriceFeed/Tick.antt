-- ===== src/PriceFeed/Tick.antt =====
-- `runTick`, and runtime_tracker.go, which records what the ticks did.
pub mod Tally
use real_time_portfolio_risk.Prelude.{
  ℕ, suc, zero, ◌+◌, Str, ltb, Bool, true, false, List, [], ◌∷◌, none, some, Option, if◌then◌else◌,
}
use real_time_portfolio_risk.Clock.{Time}
use real_time_portfolio_risk.Decimal.{Decimal}
use real_time_portfolio_risk.Domain.Types.{EventEnvelope}
use real_time_portfolio_risk.Events.Store.Append.{Reply}
use real_time_portfolio_risk.PriceFeed.Fetch.{
  PriceQuote, Provider, FetchError, Fed, fed, starved, Calls, fetch_with_failover,
}
use real_time_portfolio_risk.PriceFeed.Emit.{
  Feed, FeedState, Emission, ingested, dropped_stale, dedup_skipped, failed, emit_quote,
}

-- `RuntimeTracker`; an error is there or not, without its text.
pub record RuntimeTracker : Type 0 where
  pub last_tick_started_at : Option Time
  pub last_tick_finished_at : Option Time
  pub last_success_at : Option Time
  pub last_error : Option FetchError
  pub active_provider : Str
  pub last_tick_used_failover : Bool
  pub last_tick_ingested : ℕ

abbrev pub on_tick_start : Time → RuntimeTracker → RuntimeTracker
on_tick_start at t = record t { last_tick_started_at = some at }

abbrev pub on_tick_failure : Time → FetchError → RuntimeTracker → RuntimeTracker
on_tick_failure at e t = record t {
  last_tick_finished_at = some at;
  last_error = some e;
  last_tick_ingested = 0;
}

abbrev pub on_tick_success : Time → Str → Bool → ℕ → RuntimeTracker → RuntimeTracker
on_tick_success at provider used_failover n t = record t {
  last_tick_finished_at = some at;
  last_success_at = some at;
  last_error = none;
  active_provider = provider;
  last_tick_used_failover = used_failover;
  last_tick_ingested = n;
}

-- The counters of a tick, with the quotes whose emission failed.
pub record Counts : Type 0 where
  pub ingested_count : ℕ
  pub dropped_stale_count : ℕ
  pub dedup_skipped_count : ℕ
  pub failed_count : ℕ

abbrev pub no_counts : Counts
no_counts = record {
  ingested_count = 0;
  dropped_stale_count = 0;
  dedup_skipped_count = 0;
  failed_count = 0;
}

abbrev pub count : Emission → Counts → Counts
count ingested c = record c { ingested_count = c.ingested_count + 1 }
count dropped_stale c = record c { dropped_stale_count = c.dropped_stale_count + 1 }
count dedup_skipped c = record c { dedup_skipped_count = c.dedup_skipped_count + 1 }
count (failed interrupted) c = record c { failed_count = c.failed_count + 1 }

-- `errors.Is(err, context.Canceled)`
abbrev pub is_interruption : Emission → Bool
is_interruption (failed b) = b
is_interruption ingested = false
is_interruption dropped_stale = false
is_interruption dedup_skipped = false

-- The tick of a feed: the maps, the calls of the providers, and the tracker.
pub record TickState (D : Type 0) (S : Type 0) : Type 0 where
  pub feed_state : FeedState D S
  pub calls : Calls
  pub runtime : RuntimeTracker

abbrev pub read_clock : {D S : Type 0} → TickState D S → TickState D S
read_clock t = record t {
  feed_state = record t.feed_state { readings = t.feed_state.readings + 1 };
}

module _ {D S : Type 0} ⦃d : Decimal D⦄ (feed : Feed D) (service : EventEnvelope → S → Reply × S)
    (interrupted : ℕ → Bool) where
  -- The loop over the quotes; the Boolean says that it ended at a cancelled context.
  unfoldable pub emit_all :
      Str → List (PriceQuote D) → Counts → FeedState D S → Bool × Counts × FeedState D S
  emit_all provider [] c st = (false, c, st)
  emit_all provider (q ∷ qs) c st =
      let out = emit_quote feed service interrupted provider q st in
      let rest = emit_all provider qs (count out.0 c) out.1 in
      if is_interruption out.0 then (true, count out.0 c, out.1) else rest

  -- `runTick`, with a tracker. A tick that ends at a cancelled context leaves the tracker as the
  -- start of the tick did.
  unfoldable pub run_tick :
      ℕ → List (Provider D) → (ℕ → Bool) → List Str → TickState D S → TickState D S
  unfolding emit_all
  run_tick max_retries providers is_cancelled symbols t =
      let start = feed.clock t.feed_state.readings in
      let t1 = read_clock t in
      let got = fetch_with_failover is_cancelled symbols max_retries providers t1.calls in
      elim got.0 [
        | starved e ↦ record t1 {
          feed_state = record t1.feed_state { readings = t1.feed_state.readings + 1 };
          calls = got.1;
          runtime =
              on_tick_failure (feed.clock t1.feed_state.readings) e (on_tick_start start t.runtime);
        }
        | fed quotes name used_failover ↦
            let (stopped, c, st) = emit_all name quotes no_counts t1.feed_state in
            if stopped
            then record t1 {
              feed_state = st;
              calls = got.1;
              runtime = on_tick_start start t.runtime;
            }
            else record t1 {
              feed_state = record st { readings = st.readings + 1 };
              calls = got.1;
              runtime =
                  on_tick_success (feed.clock st.readings) name used_failover c.ingested_count
                    (on_tick_start start t.runtime);
            }
      ]
