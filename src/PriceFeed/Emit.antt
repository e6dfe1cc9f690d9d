-- ===== src/PriceFeed/Emit.antt =====
-- `emitQuote` with the sequence numbers, the deduplication and the idempotency key.
pub mod Sequence
pub mod Accounts
use real_time_portfolio_risk.Prelude.{
  ℕ, suc, zero, ◌+◌, ◌-◌, ◌*◌, ◌/◌, ◌%◌, ◌^◌, Str, codes, text_eq, nat_eq, ◌==◌, ltb, leb, Bool,
  true, false, not, List, [], ◌∷◌, ◌++◌, none, some, Option, if◌then◌else◌, get_or_else,
}
use real_time_portfolio_risk.Prelude.Int.{ℤ, pos, negsuc, ◌+ℤ◌, ltb_ℤ, beq_ℤ}
use real_time_portfolio_risk.Prelude.Dict.{Dict, lookup, insert}
use real_time_portfolio_risk.Clock.{Time, Duration, Uuid, zero_time, is_zero_time}
use real_time_portfolio_risk.Decimal.{Decimal}
use real_time_portfolio_risk.Domain.Types.{
  Codec, EventEnvelope, PricePayload, event_type_price_updated,
}
use real_time_portfolio_risk.Events.Store.Append.{Reply, appended, refused, unavailable}
use real_time_portfolio_risk.Fnv.{price_partition_for_symbol}
use real_time_portfolio_risk.PriceFeed.Symbols.{normalize_to_internal_symbol}
use real_time_portfolio_risk.PriceFeed.Fetch.{PriceQuote}

-- The settings of `PriceIngestor` that an emission reads, and what it takes from outside: the JSON
-- encoder of a payload, the text of a UUID, the UUIDs that are drawn and the clock.
pub record Feed (D : Type 0) : Type 0 where
  pub interval : Duration
  pub price_stream_partitions : List Uuid
  pub source_prefix : Str
  pub max_quote_age : Duration
  pub dedup_window : Duration
  pub marshal_price : PricePayload D → Option Str
  pub uuid_text : Uuid → Str
  pub new_uuid : ℕ → Uuid
  pub clock : ℕ → Time

-- The maps of `PriceIngestor`, the readings of the clock, the UUIDs drawn, and the state `S` of the
-- ingestion service.
pub record FeedState (D : Type 0) (S : Type 0) : Type 0 where
  pub last_seq : Dict Str ℤ
  pub dedup : Dict Str (D × Time)
  pub readings : ℕ
  pub drawn : ℕ
  pub store : S

-- The first instant of 1970, from which `Unix` and `UnixMilli` count.
abbrev pub unix_epoch : Time
unix_epoch = zero_time + 62135596800 * 10 ^ 9

-- The whole units between the epoch and an instant, rounded down.
abbrev pub since_epoch : ℕ → Time → ℤ
since_epoch unit t =
    if leb unix_epoch t then pos ((t - unix_epoch) / unit) else negsuc ((unix_epoch - t - 1) / unit)

-- `t.Truncate(d)`: down to a multiple of `d` since the zero time.
abbrev pub truncate : Duration → Time → Time
truncate d t = if ltb 0 d then t - (t + (d - zero_time % d)) % d else t

-- The decimal digits of a number, as `%d` prints them; twenty are enough for 64 bits.
unfoldable pub digits : ℕ → ℕ → Str → Str
digits zero n s = s
digits (suc more) n s =
    let s' = (48 + n % 10) ∷ s in
    let rest = digits more (n / 10) s' in if n / 10 == 0 then s' else rest

abbrev pub print_int : ℤ → Str
print_int (pos n) = digits 20 n []
print_int (negsuc n) = 45 ∷ digits 20 (n + 1) []

-- `last + 1` on an `int64`.
unfoldable pub int64_succ : ℤ → ℤ
int64_succ z = if beq_ℤ z (pos (2 ^ 63 - 1)) then negsuc (2 ^ 63 - 1) else z +ℤ pos 1

-- The choice of `nextMonotonicSequence`, after the candidate is known.
unfoldable pub above : ℤ → ℤ → ℤ
above last candidate = if ltb_ℤ last candidate then candidate else int64_succ last

-- `idempotencyKey`
unfoldable pub idempotency_key : Duration → Str → Str → Time → Str
idempotency_key interval provider symbol t =
    provider
    ++ codes ":"
    ++ symbol
    ++ codes ":"
    ++ print_int (since_epoch (10 ^ 9) (truncate interval t))

-- What `emitQuote` returns: one of its three flags, or an error, which is `context.Canceled` or not.
pub data Emission : Type 0 where
  ingested dropped_stale dedup_skipped : Emission
  failed : Bool → Emission

module _ {D S : Type 0} ⦃d : Decimal D⦄ (feed : Feed D) where
  -- `time.Now()`
  abbrev pub now_of : FeedState D S → Time
  now_of st = feed.clock st.readings

  abbrev pub ticked : FeedState D S → FeedState D S
  ticked st = record st { readings = st.readings + 1 }

  -- `nextMonotonicSequence`
  unfoldable pub next_monotonic_sequence : Str → ℤ → FeedState D S → ℤ × FeedState D S
  next_monotonic_sequence symbol candidate st =
      let last = get_or_else (lookup symbol st.last_seq) (pos 0) in
      let given = ltb_ℤ (pos 0) candidate in
      let c = if given then candidate else since_epoch (10 ^ 6) (now_of st) in
      let st' = if given then st else ticked st in
      (above last c, record st' { last_seq = insert symbol (above last c) st.last_seq })

  -- `shouldDedup`
  unfoldable pub should_dedup : Str → D → Time → FeedState D S → Bool
  should_dedup symbol price as_of st =
      if not (ltb 0 feed.dedup_window) then false else elim (lookup symbol st.dedup) [
        | none ↦ false
        | some prev ↦ if ltb feed.dedup_window (as_of - prev.1) then false else d.equal prev.0 price
      ]

  -- `recordDedup`
  unfoldable pub record_dedup : Str → D → Time → FeedState D S → FeedState D S
  record_dedup symbol price as_of st =
      if not (ltb 0 feed.dedup_window)
      then st
      else record st { dedup = insert symbol (price, as_of) st.dedup }

  -- The event of a quote whose payload is encoded.
  unfoldable pub price_event_of : Str → Str → Uuid → Time → Str → FeedState D S → EventEnvelope
  unfolding idempotency_key
  price_event_of provider symbol partition as_of payload st = record {
    event_id = feed.new_uuid st.drawn;
    event_type = event_type_price_updated;
    event_time = as_of;
    processing_time = now_of st;
    source = feed.source_prefix ++ codes ":" ++ provider;
    portfolio_id = feed.uuid_text partition;
    idempotency_key = idempotency_key feed.interval provider symbol as_of;
    payload = payload;
  }

  module _ (service : EventEnvelope → S → Reply × S) (interrupted : ℕ → Bool) where
    -- The call of the service; `interrupted` says of the n-th event whether its call failed with
    -- `context.Canceled`, where it failed.
    unfoldable pub send :
        Str → Str → D → Uuid → Time → Str → FeedState D S → Emission × FeedState D S
    unfolding price_event_of record_dedup
    send provider symbol price partition as_of payload st =
        let out = service (price_event_of provider symbol partition as_of payload st) st.store in
        let st' = record st { readings = st.readings + 1; drawn = st.drawn + 1; store = out.1 } in
        elim out.0 [
          | appended r ↦ (ingested, record_dedup symbol price as_of st')
          | refused e ↦ (failed false, st')
          | unavailable ↦ (failed (interrupted st.drawn), st')
        ]

    -- The part after the sequence number.
    unfoldable pub emit_numbered :
        Str → Str → PriceQuote D → Uuid → Time → ℤ × FeedState D S → Emission × FeedState D S
    unfolding send
    emit_numbered provider symbol q partition as_of (seq, st) =
        elim (feed.marshal_price (record {
          symbol = symbol;
          price = q.price;
          currency = q.currency;
          source_sequence = seq;
        })) [
          | none ↦ (failed false, st)
          | some payload ↦ send provider symbol q.price partition as_of payload st
        ]

    -- The part for a quote that is not too old.
    unfoldable pub emit_fresh :
        Str → Str → PriceQuote D → Uuid → Time → FeedState D S → Emission × FeedState D S
    unfolding emit_numbered should_dedup next_monotonic_sequence
    emit_fresh provider symbol q partition as_of st =
        if should_dedup symbol q.price as_of st
        then (dedup_skipped, st)
        else emit_numbered provider symbol q partition as_of
            (next_monotonic_sequence symbol q.source_sequence st)

    -- The part after the time of the quote is known; the clock is read where an age is set.
    unfoldable pub emit_at :
        Str → Str → PriceQuote D → Uuid → Time → FeedState D S → Emission × FeedState D S
    unfolding emit_fresh
    emit_at provider symbol q partition as_of st =
        if not (ltb 0 feed.max_quote_age)
        then emit_fresh provider symbol q partition as_of st
        else if ltb feed.max_quote_age (now_of st - as_of)
        then (dropped_stale, ticked st)
        else emit_fresh provider symbol q partition as_of (ticked st)

    unfoldable pub emit_quote : Str → PriceQuote D → FeedState D S → Emission × FeedState D S
    unfolding emit_at
    emit_quote provider q st = elim (normalize_to_internal_symbol q.symbol) [
      | none ↦ (failed false, st)
      | some symbol ↦ elim (price_partition_for_symbol feed.price_stream_partitions symbol) [
        | none ↦ (failed false, st)
        | some partition ↦
            if is_zero_time q.as_of
            then emit_at provider symbol q partition (now_of st) (ticked st)
            else emit_at provider symbol q partition q.as_of st
      ]
    ]
