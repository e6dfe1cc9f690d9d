-- ===== src/Tests/Events.antt =====
-- A worker that applies a buy, an oversell and a sell, and one whose transaction is rolled back.
use real_time_portfolio_risk.Prelude.{
  codes, ℕ, ◌≤◌, ◌<◌, ◌⊎◌, ◌↔◌, List, [], ◌∷◌, length, ◌≡◌, ◌≢◌, refl, sym, str_eq, true, text_eq,
  nat_eq, arith, All, map,
}
use real_time_portfolio_risk.Prelude.Sort.{sort, insert_sorted}
use mathlib.Core.Path.{subst}
use real_time_portfolio_risk.Events.Worker.Pending.{awaiting, awaits}
use Prim.Native.Nat.{lt, eq, gt}
use real_time_portfolio_risk.Prelude.Dict.{lookup, insert, erase}
use real_time_portfolio_risk.Prelude.Int.{ℤ, div_ℤ, ◌+ℤ◌, ◌-ℤ◌, ◌*ℤ◌}
use real_time_portfolio_risk.Decimal.Integers.{integers, Integers-IsDecimal}
use real_time_portfolio_risk.Domain.Types.{EventEnvelope}
use real_time_portfolio_risk.Domain.Positions.{apply_trade, apply_buy, apply_sell, lot_of}
use real_time_portfolio_risk.Portfolio.Aggregate.{positions_for, aggregate_lot, apply_event}
use real_time_portfolio_risk.Events.Cursor.{
  zero_cursor, cursor_from_event, compare_cursors, is_after, is_zero_cursor,
}
use real_time_portfolio_risk.Events.Cursor.Order.{reversed, compare_cursors_order, is_after_iff}
use real_time_portfolio_risk.Events.Eligible.{eligible_prefix, eligible_batch_after_watermark}
use real_time_portfolio_risk.Events.Eligible.Prefix.{IsCut, eligible_batch-IsCut}
use real_time_portfolio_risk.Events.Verdict.{Verdict}
use real_time_portfolio_risk.Events.Store.{touched, fetch_all, of_partition, load_projection_cursor}
use real_time_portfolio_risk.Events.Store.Projection.{row_of}
use real_time_portfolio_risk.Events.Worker.{apply_eligible}
use real_time_portfolio_risk.Events.Worker.Monad.{Config, State, ok, err, store_failed}
use real_time_portfolio_risk.Events.Worker.Consume.{consume, broke}
use real_time_portfolio_risk.Events.Worker.Apply.{IsReady, IsRun}
use real_time_portfolio_risk.Events.Worker.Refines.{apply_eligible-IsRun}
use real_time_portfolio_risk.Events.Worker.Retry.{IsApplied, aggregate_after, retry_applies_twice}
use real_time_portfolio_risk.Domain.Types.{is_valid_symbol, is_valid_side}
use real_time_portfolio_risk.Domain.Validation.{
  validate_trade_payload, validate_symbol, validate_side, validate_quantity, validate_price,
}
use real_time_portfolio_risk.Ingestion.{check_payload}
use real_time_portfolio_risk.Ingestion.Accepted.{IsAccepted}
use real_time_portfolio_risk.Events.Worker.{pump_after_cursor}
use real_time_portfolio_risk.Events.Worker.Apply.{IsConsumed}
use real_time_portfolio_risk.Events.Worker.Finishes.{HoldsLong, apply_eligible-finishes}
use real_time_portfolio_risk.Events.Worker.Pump.{
  IsRunning, IsGood, remaining, IsPumped, pump_after_cursor-IsPumped,
}
use real_time_portfolio_risk.Tests.Data.{codec, bought_event, oversold_event, sold_event}
use real_time_portfolio_risk.Tests.Json.{json}

compare_cursors_order_example :
    let a = cursor_from_event bought_event in
    let b = cursor_from_event oversold_event in
    let c = cursor_from_event sold_event in
    ((compare_cursors a b ≡ eq) ↔ (a ≡ b))
    × (compare_cursors b a ≡ reversed (compare_cursors a b))
    × (compare_cursors a b ≡ lt → compare_cursors b c ≡ lt → compare_cursors a c ≡ lt)
compare_cursors_order_example =
    compare_cursors_order (cursor_from_event bought_event) (cursor_from_event oversold_event)
      (cursor_from_event sold_event)

is_after_iff_example :
    let c = cursor_from_event bought_event in
    (is_after c sold_event ≡ true) ↔ (compare_cursors (cursor_from_event sold_event) c ≡ gt)
is_after_iff_example = is_after_iff (cursor_from_event bought_event) sold_event

abbrev watermark : ℕ
watermark = 50

abbrev page : List EventEnvelope
page = bought_event ∷ oversold_event ∷ sold_event ∷ []

eligible_batch-IsCut_example :
    let out = eligible_batch_after_watermark page 250 watermark 200 in
    (IsCut 250 page out
      ⊎ ((out ≡ page) × (length page < 200) × (0 < watermark) × (eligible_prefix page 250 ≡ [])))
    × (out ≡ [] → (page ≡ []) ⊎ (200 ≤ length page) ⊎ (watermark ≡ 0))
eligible_batch-IsCut_example = eligible_batch-IsCut page 250 watermark 200

abbrev cfg : Config ℤ
cfg = record {
  pid = 7;
  pid_str = codes "7";
  watermark = watermark;
  max_event_age = 0;
  snapshot_min_events = 2;
  snapshot_min_interval = 0;
  has_risk_scheduler = true;
  codec = codec;
  json = json;
}

abbrev worker : List Verdict → State ℤ
worker verdicts = record {
  agg = [];
  cur = zero_cursor;
  events_applied_since_snapshot = 0;
  last_snapshot_at = 0;
  tables = record {
    events = [];
    projection_cursor = [];
    positions_projection = [];
    dlq_events = [];
    portfolio_snapshots = [];
    prices_projection = [];
    symbol_returns = [];
  };
  verdicts = verdicts;
  clock = λ n. n;
  readings = 0;
  scheduled = [];
}

worker-IsReady : IsReady cfg [] [] (worker [])
unfolding touched load_projection_cursor lookup row_of aggregate_lot positions_for lot_of insert
worker-IsReady = record { quiet = refl; decoded = refl; aligned = refl; mirrored = λ j _. refl }

page_sound : (consume cfg page []).ending ≢ broke
unfolding consume apply_event positions_for apply_trade apply_buy apply_sell lot_of lookup insert
    erase str_eq div_ℤ ◌+ℤ◌ ◌-ℤ◌ ◌*ℤ◌
page_sound e = ground arith

apply_eligible-IsRun_example :
    IsRun cfg (consume cfg page []) [] (worker []) (apply_eligible cfg page (worker []))
apply_eligible-IsRun_example =
    apply_eligible-IsRun cfg page (worker []) refl worker-IsReady page_sound

buy_IsApplied : IsApplied cfg (bought_event ∷ []) []
unfolding apply_event positions_for apply_trade apply_buy lot_of lookup insert str_eq div_ℤ ◌+ℤ◌
    ◌*ℤ◌
buy_IsApplied = (refl, tt)

buy_again_IsApplied : IsApplied cfg (bought_event ∷ []) (aggregate_after cfg (bought_event ∷ []) [])
unfolding apply_event positions_for apply_trade apply_buy lot_of lookup insert str_eq div_ℤ ◌+ℤ◌
    ◌*ℤ◌
buy_again_IsApplied = (refl, tt)

retry_applies_twice_example :
    let s = worker (Verdict.rolls_back ∷ []) in
    let once = aggregate_after cfg (bought_event ∷ []) [] in
    let first = apply_eligible cfg (bought_event ∷ []) s in
    let second = apply_eligible cfg (bought_event ∷ []) first.1 in
    (first ≡ (err store_failed, record s { agg = once; verdicts = [] }))
    × (second.0 ≡ ok tt)
    × (second.1.agg ≡ aggregate_after cfg (bought_event ∷ []) once)
retry_applies_twice_example =
    retry_applies_twice cfg bought_event [] (worker (Verdict.rolls_back ∷ [])) refl refl
      buy_IsApplied buy_again_IsApplied

page-IsAccepted : All (IsAccepted cfg.codec) page
unfolding check_payload validate_trade_payload validate_symbol validate_side validate_quantity
    validate_price str_eq is_valid_symbol is_valid_side
page-IsAccepted = (refl, (refl, (refl, tt)))

flat-HoldsLong : HoldsLong Integers-IsDecimal cfg []
unfolding lookup
flat-HoldsLong s l e = absurd (ground arith)

apply_eligible-finishes_example :
    let run = consume cfg page [] in
    let out = apply_eligible cfg page (worker []) in
    (out.0 ≡ ok tt)
    × IsConsumed cfg run [] (worker []) out.1
    × (run.consumed ≡ page)
    × HoldsLong Integers-IsDecimal cfg out.1.agg
apply_eligible-finishes_example =
    apply_eligible-finishes Integers-IsDecimal cfg page (worker []) refl worker-IsReady
      page-IsAccepted flat-HoldsLong

abbrev loaded : State ℤ
loaded =
    let s = worker [] in
    record s {
      tables = record s.tables { events = map (λ ev. record { partition = 7; event = ev }) page };
    }

loaded_page : fetch_all cfg.pid loaded.tables ≡ page
unfolding fetch_all of_partition sort insert_sorted compare_cursors cursor_from_event
loaded_page = refl

page-IsGood : All (IsGood Integers-IsDecimal cfg) page
unfolding is_zero_cursor cursor_from_event
page-IsGood = let (a, (b, (c, _))) = page-IsAccepted in ((a, refl), ((b, refl), ((c, refl), tt)))

loaded-IsRunning : IsRunning Integers-IsDecimal cfg loaded
unfolding touched load_projection_cursor lookup row_of aggregate_lot positions_for lot_of insert
loaded-IsRunning = record {
  ready = record { quiet = refl; decoded = refl; aligned = refl; mirrored = λ j _. refl };
  long = flat-HoldsLong;
  good = subst (All (IsGood Integers-IsDecimal cfg)) (sym loaded_page) page-IsGood;
}

three_awaited : length (awaiting zero_cursor page) ≡ 3
unfolding awaiting awaits is_after compare_cursors cursor_from_event is_zero_cursor
three_awaited = refl

enough : remaining Integers-IsDecimal cfg loaded < 4
enough = rw (loaded_page, three_awaited) (omega arith)

pump_after_cursor-IsPumped_example :
    IsPumped Integers-IsDecimal cfg (pump_after_cursor cfg 4 loaded)
pump_after_cursor-IsPumped_example =
    pump_after_cursor-IsPumped Integers-IsDecimal cfg 4 loaded refl loaded-IsRunning enough
