-- ===== src/Events/Worker/Pump.antt =====
-- `pumpAfterCursor` ends: each round but the last brings the cursor nearer to the last event.
use real_time_portfolio_risk.Prelude.{
  ℕ, nat_beq, suc, zero, ◌<◌, ◌≤◌, ◌-◌, ◌≡◌, refl, sym, ap, ◌∙◌, text_eq, nat_eq, ◌==◌, Bool, true,
  false, ◌||◌, not, List, [], ◌∷◌, length, Bool-cases, inl, inr, if◌then◌else◌, All, All-take, ltb,
  arith,
}
use mathlib.Core.Path.{subst}
use real_time_portfolio_risk.Clock.{Time}
use real_time_portfolio_risk.Decimal.{Decimal, IsDecimal}
use real_time_portfolio_risk.Domain.Types.{EventEnvelope}
use real_time_portfolio_risk.Events.Cursor.{Cursor, cursor_from_event, is_zero_cursor}
use real_time_portfolio_risk.Events.Eligible.{
  eligible_prefix, eligible_batch_after_watermark, fetch_after_page_limit,
}
use real_time_portfolio_risk.Events.Eligible.Prefix.{eligible_batch-cases}
use real_time_portfolio_risk.Events.Store.{
  Tables, fetch_all, of_partition, precedes, fetch_after, max_event_time,
}
use real_time_portfolio_risk.Prelude.Sort.{sort}
use real_time_portfolio_risk.Ingestion.Accepted.{IsAccepted}
use real_time_portfolio_risk.Events.Worker.{last_of, apply_eligible, pump_round, pump_after_cursor}
use real_time_portfolio_risk.Events.Worker.Monad.{
  Config, State, Result, ok, and_then, bind_ok, query, pure, ◌>>◌,
}
use real_time_portfolio_risk.Events.Worker.Quiet.{query-quiet}
use real_time_portfolio_risk.Events.Worker.Consume.{reached}
use real_time_portfolio_risk.Events.Worker.Apply.{IsReady, reached-last}
use real_time_portfolio_risk.Events.Worker.Finishes.{HoldsLong, apply_eligible-finishes}
use real_time_portfolio_risk.Events.Worker.Pending.{
  awaits, awaiting, fetch_after-eq, IsAwaited, awaiting-IsAwaited, All-last_of, awaiting_lt,
}

module _ {D : Type 0} ⦃d : Decimal D⦄ (laws : IsDecimal D) (cfg : Config D) where
  -- An event that passed ingestion: its checks, and a time and an id that are set.
  abbrev pub IsGood : EventEnvelope → Type 0
  IsGood ev = IsAccepted cfg.codec ev × (is_zero_cursor (cursor_from_event ev) ≡ false)

  abbrev pub events_of : State D → List EventEnvelope
  events_of s = fetch_all cfg.pid s.tables

  -- A worker between two rounds.
  pub record IsRunning (s : State D) : Type 0 where
    pub ready : IsReady cfg [] [] s
    pub long : HoldsLong laws cfg s.agg
    pub good : All IsGood (events_of s)

  -- The events that a round applies.
  abbrev eligible_of : State D → List EventEnvelope
  eligible_of s =
      eligible_batch_after_watermark (fetch_after cfg.pid s.cur fetch_after_page_limit s.tables)
        (max_event_time cfg.pid s.tables - cfg.watermark) cfg.watermark fetch_after_page_limit

  -- The round without the queries.
  pump_round-eq :
      (s : State D)
      → s.verdicts ≡ []
      → let eligible = eligible_of s in
        let batch = fetch_after cfg.pid s.cur fetch_after_page_limit s.tables in
        pump_round cfg s
        ≡ (if length eligible == 0
              then pure false
              else (apply_eligible cfg eligible
                  >> pure (
                      not (
                        ltb (length eligible) (length batch)
                        || ltb (length batch) fetch_after_page_limit))))
            s
  unfolding pump_round
  pump_round-eq s quiet =
      bind_ok (query (max_event_time cfg.pid)) _ (query-quiet (max_event_time cfg.pid) s quiet)
      ∙ bind_ok (query (fetch_after cfg.pid s.cur fetch_after_page_limit)) _
          (query-quiet (fetch_after cfg.pid s.cur fetch_after_page_limit) s quiet)

  All-eligible_prefix {ℓ} :
      (P : EventEnvelope → Type ℓ) (batch : List EventEnvelope) (cutoff : Time)
      → All P batch
      → All P (eligible_prefix batch cutoff)
  unfolding eligible_prefix
  All-eligible_prefix P [] cutoff h = tt
  All-eligible_prefix P (ev ∷ batch) cutoff (h, hs) = elim (Bool-cases (ltb cutoff ev.event_time)) [
    | inl e ↦ rw e tt
    | inr e ↦ rw e (h, All-eligible_prefix P batch cutoff hs)
  ]

  All-eligible {ℓ} :
      (P : EventEnvelope → Type ℓ) (s : State D)
      → All P (awaiting s.cur (events_of s))
      → All P (eligible_of s)
  All-eligible P s h =
      let batch = fetch_after cfg.pid s.cur fetch_after_page_limit s.tables in
      let cutoff = max_event_time cfg.pid s.tables - cfg.watermark in
      let fetched =
        subst (All P)
          (sym (fetch_after-eq cfg.pid s.cur fetch_after_page_limit s.tables (omega arith)))
          (All-take P fetch_after_page_limit _ h) in
      elim (eligible_batch-cases batch cutoff cfg.watermark fetch_after_page_limit) [
        | inl h' ↦ subst (All P) (sym h'.0) fetched
        | inr h' ↦ subst (All P) (sym h'.0) (All-eligible_prefix P batch cutoff fetched)
      ]

  -- The events that are selected are good as well.
  awaiting-IsGood :
      (c : Cursor) (evs : List EventEnvelope) → All IsGood evs → All IsGood (awaiting c evs)
  unfolding awaiting
  awaiting-IsGood c [] h = tt
  awaiting-IsGood c (ev ∷ evs) (h, hs) = elim (Bool-cases (awaits c ev)) [
    | inl e ↦ rw e (h, awaiting-IsGood c evs hs)
    | inr e ↦ rw e (awaiting-IsGood c evs hs)
  ]

  abbrev pub remaining : State D → ℕ
  remaining s = length (awaiting s.cur (events_of s))

  All-zip {ℓ κ} :
      {A : Type 0} (P : A → Type ℓ) (Q : A → Type κ) (xs : List A)
      → All P xs
      → All Q xs
      → All (λ x. P x × Q x) xs
  All-zip P Q [] p q = tt
  All-zip P Q (x ∷ xs) (p, ps) (q, qs) = ((p, q), All-zip P Q xs ps qs)

  All-fst {ℓ κ} :
      {A : Type 0} (P : A → Type ℓ) (Q : A → Type κ) (xs : List A)
      → All (λ x. P x × Q x) xs
      → All P xs
  All-fst P Q [] h = tt
  All-fst P Q (x ∷ xs) ((p, q), hs) = (p, All-fst P Q xs hs)

  events_of-eq :
      (t t' : Tables D) → t'.events ≡ t.events → fetch_all cfg.pid t' ≡ fetch_all cfg.pid t
  unfolding fetch_all
  events_of-eq t t' e = ap (λ rows. sort precedes (of_partition cfg.pid rows)) e

  -- After some events were applied the worker goes on, with fewer events before it.
  advanced :
      (ev : EventEnvelope) (evs : List EventEnvelope) (s : State D)
      → cfg.max_event_age ≡ 0
      → IsRunning s
      → All IsGood (ev ∷ evs)
      → All (IsAwaited s.cur (events_of s)) (ev ∷ evs)
      → let out = apply_eligible cfg (ev ∷ evs) s in
        (out.0 ≡ ok tt) × IsRunning out.1 × (remaining out.1 < remaining s)
  advanced ev evs s off r good awaited =
      let out = apply_eligible cfg (ev ∷ evs) s in
      let accepted =
        All-fst (IsAccepted cfg.codec) (λ e. is_zero_cursor (cursor_from_event e) ≡ false)
          (ev ∷ evs) good in
      let (fine, c, all, long) =
        apply_eligible-finishes laws cfg (ev ∷ evs) s off r.ready accepted r.long in
      let last = last_of ev evs in
      let here = All-last_of (IsAwaited s.cur (events_of s)) ev evs awaited in
      let known = (All-last_of IsGood ev evs good).1 in
      let moved : out.1.cur ≡ cursor_from_event last =
        c.cur_is ∙ ap (reached s.cur) all ∙ sym (reached-last cfg s.cur ev evs) in
      let same : events_of out.1 ≡ events_of s = events_of-eq s.tables out.1.tables c.events_kept in
      (
        fine,
        record {
          ready = record {
            quiet = c.quiet_after;
            decoded = r.ready.decoded;
            aligned = c.aligned_after;
            mirrored = c.mirrored_after;
          };
          long = long;
          good = subst (All IsGood) (sym same) r.good;
        },
        rw (moved, same) (awaiting_lt s.cur last (events_of s) known here),
      )

  -- A call of the pump that ended well, in a state from which it may be called again.
  abbrev pub IsPumped : Result Unit × State D → Type 0
  IsPumped out = (out.0 ≡ ok tt) × IsRunning out.1

  -- The rounds to come, after a round over `eligible`.
  abbrev rounds : ℕ → Bool → List EventEnvelope → State D → Result Unit × State D
  rounds fuel again eligible s =
      and_then (λ more. if more then pump_after_cursor cfg fuel else pure tt)
        ((if length eligible == 0 then pure false else (apply_eligible cfg eligible >> pure again))
          s)

  rounds-IsPumped :
      (fuel : ℕ) (again : Bool) (eligible : List EventEnvelope) (s : State D)
      → cfg.max_event_age ≡ 0
      → IsRunning s
      → All IsGood eligible
      → All (IsAwaited s.cur (events_of s)) eligible
      → remaining s ≤ fuel
      → ((s' : State D)
          → IsRunning s'
          → remaining s' < fuel
          → IsPumped (pump_after_cursor cfg fuel s'))
      → IsPumped (rounds fuel again eligible s)
  rounds-IsPumped fuel again [] s off r good awaited enough later = (refl, r)
  rounds-IsPumped fuel again (ev ∷ evs) s off r good awaited enough later =
      let out = apply_eligible cfg (ev ∷ evs) s in
      let (fine, running, fewer) = advanced ev evs s off r good awaited in
      let e =
        bind_ok (apply_eligible cfg (ev ∷ evs)) (λ _. pure again) (ap (λ o. (o, out.1)) fine) in
      rw (not_empty (length evs)) (
        subst IsPumped
          (sym (ap (and_then (λ more. if more then pump_after_cursor cfg fuel else pure tt)) e))
          (goes_on again running fewer))
    where
      not_empty : (n : ℕ) → nat_beq (suc n) 0 ≡ false
      not_empty n = ground arith

      goes_on :
          (b : Bool)
          → let s' = (apply_eligible cfg (ev ∷ evs) s).1 in
            IsRunning s'
            → remaining s' < remaining s
            → IsPumped ((if b then pump_after_cursor cfg fuel else pure tt) s')
      goes_on true running fewer = later _ running (omega (arith, fewer, enough))
      goes_on false running fewer = (refl, running)

  -- A worker that agrees with the store, holds long-only positions and has no limit on the age of
  -- an event pumps a partition of good events, and the database answers every call. With fuel for
  -- more rounds than there are events after the cursor the pump returns, without an error, and the
  -- worker agrees with the store again.
  pub pump_after_cursor-IsPumped :
      (fuel : ℕ) (s : State D)
      → cfg.max_event_age ≡ 0
      → IsRunning s
      → remaining s < fuel
      → IsPumped (pump_after_cursor cfg fuel s)
  unfolding pump_after_cursor
  pump_after_cursor-IsPumped zero s off r enough = absurd (omega (arith, enough))
  pump_after_cursor-IsPumped (suc fuel) s off r enough =
      let batch = fetch_after cfg.pid s.cur fetch_after_page_limit s.tables in
      let eligible = eligible_of s in
      let again =
        not (ltb (length eligible) (length batch) || ltb (length batch) fetch_after_page_limit) in
      let good = All-eligible IsGood s (awaiting-IsGood s.cur (events_of s) r.good) in
      let awaited =
        All-eligible (IsAwaited s.cur (events_of s)) s (awaiting-IsAwaited s.cur (events_of s)) in
      subst IsPumped
        (sym (
          ap (and_then (λ more. if more then pump_after_cursor cfg fuel else pure tt))
            (pump_round-eq s r.ready.quiet)))
        (rounds-IsPumped fuel again eligible s off r good awaited (omega (arith, enough))
          (λ s' r' fewer. pump_after_cursor-IsPumped fuel s' off r' fewer))
