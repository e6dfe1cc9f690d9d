-- ===== src/Events/RiskTrigger.antt =====
-- internal/events/risk_trigger.go: the scheduler that debounces the computation of risk. Its mutex
-- makes each of its steps one; a timer that has fired runs the trigger first and only then takes
-- the lock, so between the two other steps may come.
pub mod Heard
use real_time_portfolio_risk.Prelude.{
  ℕ, ◌+◌, nat_eq, ◌==◌, ◌≡◌, Bool, true, false, ◌&&◌, List, [], ◌∷◌, none, some, Option,
  if◌then◌else◌,
}
use real_time_portfolio_risk.Prelude.Dict.{Dict, lookup, insert, erase}
use real_time_portfolio_risk.Clock.{Uuid}

-- A timer: its number, and the portfolio that its callback is for.
pub record Timer : Type 0 where
  pub id : ℕ
  pub portfolio : Uuid

-- The map of timers, the timers that run, the callbacks that have begun, and the timers made. The
-- last field is a record of what was asked for: the portfolios that were scheduled after their last
-- trigger began.
pub record Scheduler : Type 0 where
  pub timers : Dict Uuid Timer
  pub running : List Timer
  pub firing : List Timer
  pub made : ℕ
  pub wanted : List Uuid

abbrev pub is_same_timer : Timer → Timer → Bool
is_same_timer t u = (t.id == u.id) && (t.portfolio == u.portfolio)

-- A list of timers without one; `Stop` of a timer that does not run has no effect.
unfoldable pub without : Timer → List Timer → List Timer
without t [] = []
without t (u ∷ us) = if is_same_timer t u then without t us else u ∷ without t us

abbrev pub has_timer_for : Uuid → List Timer → Bool
has_timer_for pid [] = false
has_timer_for pid (t ∷ ts) = if t.portfolio == pid then true else has_timer_for pid ts

abbrev pub is_listed : Uuid → List Uuid → Bool
is_listed pid [] = false
is_listed pid (p ∷ pids) = if p == pid then true else is_listed pid pids

unfoldable pub unlist : Uuid → List Uuid → List Uuid
unlist pid [] = []
unlist pid (p ∷ pids) = if p == pid then unlist pid pids else p ∷ unlist pid pids

abbrev pub cancel : Option Timer → List Timer → List Timer
cancel none running = running
cancel (some t) running = without t running

abbrev pub cancel_all : Dict Uuid Timer → List Timer → List Timer
cancel_all [] running = running
cancel_all ((pid, t) ∷ timers) running = cancel_all timers (without t running)

-- `NewDebouncedRiskScheduler`
abbrev pub new_scheduler : Scheduler
new_scheduler = record { timers = []; running = []; firing = []; made = 0; wanted = [] }

-- `Schedule`
unfoldable pub schedule_risk : Uuid → Scheduler → Scheduler
schedule_risk pid s =
    let t : Timer = record { id = s.made; portfolio = pid } in
    record {
      timers = insert pid t s.timers;
      running = t ∷ cancel (lookup pid s.timers) s.running;
      firing = s.firing;
      made = s.made + 1;
      wanted = pid ∷ s.wanted;
    }

-- A running timer fires: its callback begins with the trigger.
unfoldable pub fire : Timer → Scheduler → Scheduler
fire t s = record s {
  running = without t s.running;
  firing = t ∷ s.firing;
  wanted = unlist t.portfolio s.wanted;
}

-- The callback ends: it deletes the entry of its portfolio, whichever timer that is.
unfoldable pub finish : Timer → Scheduler → Scheduler
finish t s = record s { timers = erase t.portfolio s.timers; firing = without t s.firing }

-- `Stop`
unfoldable pub stop : Scheduler → Scheduler
stop s = record s { timers = []; running = cancel_all s.timers s.running; wanted = [] }

abbrev pub has_timer : Timer → List Timer → Bool
has_timer t [] = false
has_timer t (u ∷ us) = if is_same_timer t u then true else has_timer t us

pub data Step : Scheduler → Scheduler → Type 0 where
  schedules : (pid : Uuid) (s : Scheduler) → Step s (schedule_risk pid s)
  fires : (t : Timer) (s : Scheduler) → has_timer t s.running ≡ true → Step s (fire t s)
  finishes : (t : Timer) (s : Scheduler) → has_timer t s.firing ≡ true → Step s (finish t s)
  stops : (s : Scheduler) → Step s (stop s)

pub data Reaches : Scheduler → Type 0 where
  here : Reaches new_scheduler
  next : {s s' : Scheduler} → Reaches s → Step s s' → Reaches s'
