-- ===== src/Events/Worker/Monad.antt =====
-- The state of a partition worker with the store it talks to, and actions on it that may fail.
use real_time_portfolio_risk.Prelude.{ℕ, ◌+◌, ◌≡◌, ap, Str, Bool, List, [], ◌∷◌}
use real_time_portfolio_risk.Clock.{Time, Duration, Uuid}
use real_time_portfolio_risk.Domain.Types.{Error, Codec}
use real_time_portfolio_risk.Portfolio.Aggregate.{Aggregate}
use real_time_portfolio_risk.Portfolio.Snapshot.{SnapshotJson}
use real_time_portfolio_risk.Events.Verdict.{Verdict}
use real_time_portfolio_risk.Events.Cursor.{Cursor}
use real_time_portfolio_risk.Events.Store.{Tables}

pub data Failure : Type 0 where
  store_failed : Failure
  apply_failed : Error → Failure
  -- A division by zero in the decimal library, which no caller recovers from.
  crashed : Failure
  -- The fuel of a loop ran out.
  out_of_fuel : Failure

pub data Result (A : Type 0) : Type 0 where
  ok : A → Result A
  err : Failure → Result A

-- The fields of `partitionWorker` that do not change.
pub record Config (D : Type 0) : Type 0 where
  pub pid : Uuid
  pub pid_str : Str
  pub watermark : Duration
  pub max_event_age : Duration
  pub snapshot_min_events : ℕ
  pub snapshot_min_interval : Duration
  pub has_risk_scheduler : Bool
  pub codec : Codec D
  pub json : SnapshotJson

-- The fields that change, the tables, what the database will do with the calls to come (it answers
-- once the list is used up), the wall clock as a function of the number of readings, and the
-- portfolios handed to the risk scheduler.
pub record State (D : Type 0) : Type 0 where
  pub agg : Aggregate D
  pub cur : Cursor
  pub events_applied_since_snapshot : ℕ
  pub last_snapshot_at : Time
  pub tables : Tables D
  pub verdicts : List Verdict
  pub clock : ℕ → Time
  pub readings : ℕ
  pub scheduled : List Uuid

abbrev pub Action : Type 0 → Type 0 → Type 0
Action D A = State D → Result A × State D

abbrev pub next_verdict : List Verdict → Verdict
next_verdict [] = Verdict.answers
next_verdict (v ∷ vs) = v

abbrev pub later_verdicts : List Verdict → List Verdict
later_verdicts [] = []
later_verdicts (v ∷ vs) = vs

module _ {D : Type 0} where
  abbrev pub pure : {A : Type 0} → A → Action D A
  pure a s = (ok a, s)

  abbrev pub raise : {A : Type 0} → Failure → Action D A
  raise e s = (err e, s)

  abbrev pub and_then : {A B : Type 0} → (A → Action D B) → Result A × State D → Result B × State D
  and_then f (ok a, s) = f a s
  and_then f (err e, s) = (err e, s)

  infixl 5 ◌>>=◌ ◌>>◌
  abbrev pub ◌>>=◌ : {A B : Type 0} → Action D A → (A → Action D B) → Action D B
  ◌>>=◌ m f s = and_then f (m s)

  abbrev pub ◌>>◌ : {B : Type 0} → Action D (Unit {0}) → Action D B → Action D B
  m >> k = m >>= λ _. k

  abbrev pub get : Action D (State D)
  get s = (ok s, s)

  abbrev pub modify : (State D → State D) → Action D (Unit {0})
  modify f s = (ok tt, f s)

  -- A query.
  unfoldable pub query : {A : Type 0} → (Tables D → A) → Action D A
  query f s =
      let s' = record s { verdicts = later_verdicts s.verdicts } in
      elim (next_verdict s.verdicts) [
        | Verdict.answers ↦ (ok (f s.tables), s')
        | _ ↦ (err store_failed, s')
      ]

  -- A transaction.
  unfoldable pub transact : (Tables D → Tables D) → Action D (Unit {0})
  transact f s =
      let s' = record s { verdicts = later_verdicts s.verdicts } in
      elim (next_verdict s.verdicts) [
        | Verdict.answers ↦ (ok tt, record s' { tables = f s.tables })
        | Verdict.rolls_back ↦ (err store_failed, s')
        | Verdict.commits_unseen ↦ (err store_failed, record s' { tables = f s.tables })
      ]

  -- An action whose failure is logged and passed over.
  abbrev pub best_effort : Action D (Unit {0}) → Action D (Unit {0})
  best_effort m s = (ok tt, (m s).1)

  -- `time.Now()`
  unfoldable pub now : Action D Time
  now s = (ok (s.clock s.readings), record s { readings = s.readings + 1 })

  -- A bind whose first action ended well goes on with the second.
  pub bind_ok :
      {A B : Type 0} (m : Action D A) (f : A → Action D B) {a : A} {s s' : State D}
      → m s ≡ (ok a, s')
      → (m >>= f) s ≡ f a s'
  bind_ok m f e = ap (and_then f) e

  pub bind_err :
      {A B : Type 0} (m : Action D A) (f : A → Action D B) {e : Failure} {s s' : State D}
      → m s ≡ (err e, s')
      → (m >>= f) s ≡ (err e, s')
  bind_err m f e = ap (and_then f) e
