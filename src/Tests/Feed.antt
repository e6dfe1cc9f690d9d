-- ===== src/Tests/Feed.antt =====
-- A feed with a provider that refuses and one that answers.
use real_time_portfolio_risk.Prelude.{
  codes, ℕ, ◌+◌, ◌*◌, ◌^◌, ◌≤◌, not, ◌&&◌, Str, text_eq, ◌==◌, List, [], ◌∷◌, length, ◌≡◌, true,
  false, Bool, none, some, arith,
}
use real_time_portfolio_risk.Prelude.Int.{ℤ, pos}
use real_time_portfolio_risk.Decimal.Integers.{integers}
use real_time_portfolio_risk.Domain.Types.{EventEnvelope}
use real_time_portfolio_risk.Events.Verdict.{Verdict}
use real_time_portfolio_risk.Events.Store.{EventRow}
use real_time_portfolio_risk.Events.Store.Append.{Reply, append}
use real_time_portfolio_risk.Ingestion.{ingest}
use real_time_portfolio_risk.PriceFeed.Symbols.{
  has_text, names_of, HasNoRepeats, normalize_symbols, normalize_symbols_iff,
}
use real_time_portfolio_risk.PriceFeed.Fetch.{
  PriceQuote, quotes, refused, Provider, Calls, backoff_delay, fetch_with_failover,
}
use real_time_portfolio_risk.PriceFeed.Fetch.Failover.{IsFed, fetch_with_failover-IsFed}
use real_time_portfolio_risk.PriceFeed.Fetch.Backoff.{backoff_delay-bounds}
use real_time_portfolio_risk.PriceFeed.Emit.{Feed, FeedState}
use real_time_portfolio_risk.PriceFeed.Emit.Sequence.{
  IsRising, last_sequence, sequence_run, sequence_run-IsRising,
}
use real_time_portfolio_risk.PriceFeed.Tick.{TickState}
use real_time_portfolio_risk.Tests.Data.{codec}
use real_time_portfolio_risk.Tests.Ingestion.{cols}

abbrev names : List Str
names = codes " acme" ∷ codes "ACME" ∷ codes "  " ∷ codes "brk/b" ∷ []

normalize_symbols_iff_example :
    HasNoRepeats (normalize_symbols names)
    × ((t : Str)
        → has_text t (normalize_symbols names) ≡ (not (t == []) && has_text t (names_of names)))
normalize_symbols_iff_example = normalize_symbols_iff names

abbrev quote : PriceQuote ℤ
quote = record {
  symbol = codes "acme";
  price = pos 5;
  currency = codes "USD";
  as_of = 2 ^ 64 * 10 ^ 9;
  source_sequence = pos 3;
}

-- One that refuses and may be asked again, and one that answers.
abbrev providers : List (Provider ℤ)
providers =
    record { name = codes "one"; fetch_quotes = λ n symbols. refused true }
    ∷ record { name = codes "two"; fetch_quotes = λ n symbols. quotes (quote ∷ []) }
    ∷ []

abbrev no_calls : Calls
no_calls = record { fetches = 0; sleeps = 0 }

abbrev never : ℕ → Bool
never n = false

fetch_with_failover-IsFed_example :
    let out = fetch_with_failover never names 2 providers no_calls in
    IsFed never names 0 out.1.fetches providers false out.0
    × (out.1.fetches ≤ 0 + 3 * length providers)
fetch_with_failover-IsFed_example = fetch_with_failover-IsFed never names 2 providers no_calls

backoff_delay-bounds_example : (backoff_delay 7 5 ≡ pos 112) × (7 ≤ 112) × (112 ≤ 16 * 7)
backoff_delay-bounds_example = backoff_delay-bounds 7 5 (omega arith) (omega arith)

abbrev feed : Feed ℤ
feed = record {
  interval = 60 * 10 ^ 9;
  price_stream_partitions = 7 ∷ [];
  source_prefix = codes "pricefeed";
  max_quote_age = 0;
  dedup_window = 10;
  marshal_price = λ p. some (codes "p");
  uuid_text = λ n. codes "7";
  new_uuid = λ n. n + 1;
  clock = λ n. 2 ^ 64 * 10 ^ 9 + n;
}

abbrev feed_state : FeedState ℤ (List EventRow)
feed_state = record { last_seq = []; dedup = []; readings = 0; drawn = 0; store = [] }

sequence_run-IsRising_example :
    let candidates = pos 3 ∷ pos 3 ∷ pos 0 ∷ [] in
    IsRising
      (last_sequence feed (codes "ACME") feed_state)
      (sequence_run feed (codes "ACME") candidates feed_state)
sequence_run-IsRising_example =
    sequence_run-IsRising feed (codes "ACME") (pos 3 ∷ pos 3 ∷ pos 0 ∷ []) feed_state

abbrev service : EventEnvelope → List EventRow → Reply × List EventRow
service = ingest codec (λ ev. append cols ev Verdict.answers)

abbrev tick_state : TickState ℤ (List EventRow)
tick_state = record {
  feed_state = feed_state;
  calls = no_calls;
  runtime = record {
    last_tick_started_at = none;
    last_tick_finished_at = none;
    last_success_at = none;
    last_error = none;
    active_provider = [];
    last_tick_used_failover = false;
    last_tick_ingested = 0;
  };
}
