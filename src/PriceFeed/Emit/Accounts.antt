-- ===== src/PriceFeed/Emit/Accounts.antt =====
-- What the emission of a quote does, by what it returns.
use real_time_portfolio_risk.Prelude.{
  ℕ, ◌+◌, ◌-◌, ◌≤◌, ltb, ◌≡◌, ◌&&◌, true, false, ◌⊎◌, Str, text_eq, Bool, not, some, if◌then◌else◌,
}
use real_time_portfolio_risk.Prelude.Int.{ℤ}
use real_time_portfolio_risk.Prelude.Dict.{Dict, lookup, insert}
use real_time_portfolio_risk.Clock.{Time, Uuid}
use real_time_portfolio_risk.Decimal.{Decimal}
use real_time_portfolio_risk.Domain.Types.{EventEnvelope, event_type_price_updated}
use real_time_portfolio_risk.Events.Store.Append.{Reply, AppendResult, appended}
use real_time_portfolio_risk.Fnv.{price_partition_for_symbol}
use real_time_portfolio_risk.PriceFeed.Symbols.{normalize_to_internal_symbol}
use real_time_portfolio_risk.PriceFeed.Fetch.{PriceQuote}
use real_time_portfolio_risk.PriceFeed.Emit.{
  Feed, FeedState, Emission, ingested, dropped_stale, dedup_skipped, failed, idempotency_key,
}

module _ {D S : Type 0} ⦃d : Decimal D⦄ (feed : Feed D) (service : EventEnvelope → S → Reply × S)
    (interrupted : ℕ → Bool) (provider : Str) (q : PriceQuote D) where
  -- The quote is older than the limit, where there is one.
  abbrev pub is_old : Time → Time → Bool
  is_old at as_of = ltb 0 feed.max_quote_age && ltb feed.max_quote_age (at - as_of)

  -- Its price is the one remembered for the symbol, from a time at most the window before.
  abbrev pub IsRepeat : Str → Time → Dict Str (D × Time) → Type 0
  IsRepeat symbol as_of dedup =
      (prev : D × Time) × (ltb 0 feed.dedup_window ≡ true)
      × (lookup symbol dedup ≡ some prev)
      × (as_of - prev.1 ≤ feed.dedup_window)
      × (d.equal prev.0 q.price ≡ true)

  -- The event for the quote with time `as_of`, where the numbers given so far are `last_seq`: it is
  -- not too old at the time `at`, it is no repetition of what is in `dedup`, and its payload is the
  -- quote's under the number just given.
  pub record IsEventOf (at as_of : Time) (dedup : Dict Str (D × Time)) (last_seq : Dict Str ℤ)
      (symbol : Str) (ev : EventEnvelope) : Type 0 where
    pub partition : Uuid
    pub seq : ℤ
    pub named : normalize_to_internal_symbol q.symbol ≡ some symbol
    pub routed : price_partition_for_symbol feed.price_stream_partitions symbol ≡ some partition
    pub young : is_old at as_of ≡ false
    pub new : ¬ IsRepeat symbol as_of dedup
    pub numbered : lookup symbol last_seq ≡ some seq
    pub encoded :
        feed.marshal_price (record {
          symbol = symbol;
          price = q.price;
          currency = q.currency;
          source_sequence = seq;
        })
        ≡ some ev.payload
    pub timed : ev.event_time ≡ as_of
    pub addressed : ev.portfolio_id ≡ feed.uuid_text partition
    pub typed : ev.event_type ≡ event_type_price_updated
    pub keyed : ev.idempotency_key ≡ idempotency_key feed.interval provider symbol as_of

  -- The store and the remembered prices after an emission, from those before it.
  abbrev pub IsAccounted :
      Time → Time → S → Dict Str (D × Time) → ℕ → Emission × FeedState D S → Type 0
  IsAccounted at as_of store dedup drawn (ingested, st) =
      (symbol : Str) × (ev : EventEnvelope) × (r : AppendResult) × IsEventOf at as_of dedup
        st.last_seq symbol ev
      × (service ev store ≡ (appended r, st.store))
      × (st.drawn ≡ drawn + 1)
      × (st.dedup
          ≡ (if not (ltb 0 feed.dedup_window) then dedup else insert symbol (q.price, as_of) dedup))
  IsAccounted at as_of store dedup drawn (dropped_stale, st) =
      (is_old at as_of ≡ true) × (st.store ≡ store) × (st.dedup ≡ dedup) × (st.drawn ≡ drawn)
  IsAccounted at as_of store dedup drawn (dedup_skipped, st) =
      (is_old at as_of ≡ false)
      × ((symbol : Str) × (normalize_to_internal_symbol q.symbol ≡ some symbol)
          × IsRepeat symbol as_of dedup)
      × (st.store ≡ store)
      × (st.dedup ≡ dedup)
      × (st.drawn ≡ drawn)
  IsAccounted at as_of store dedup drawn (failed b, st) =
      (st.dedup ≡ dedup)
      × (((st.store ≡ store) × (st.drawn ≡ drawn))
          ⊎ ((symbol : Str) × (ev : EventEnvelope) × IsEventOf at as_of dedup st.last_seq symbol ev
              × ((service ev store).1 ≡ st.store)
              × (st.drawn ≡ drawn + 1)))
