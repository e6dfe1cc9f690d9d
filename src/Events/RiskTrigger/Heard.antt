-- ===== src/Events/RiskTrigger/Heard.antt =====
-- No portfolio that was scheduled is forgotten.
use real_time_portfolio_risk.Prelude.{
  nat_eq, ◌==◌, ==_iff, ◌≡◌, refl, sym, ap, ◌∙◌, true, false, Bool-cases, inl, inr, List, [], ◌∷◌,
  none, some, Option, Option-cases, arith,
}
use real_time_portfolio_risk.Prelude.Dict.{lookup, lookup-insert, lookup-erase}
use real_time_portfolio_risk.Clock.{Uuid}
use real_time_portfolio_risk.Events.RiskTrigger.{
  Timer, Scheduler, without, has_timer_for, is_listed, unlist, cancel, new_scheduler, schedule_risk,
  fire, finish, stop, Step, schedules, fires, finishes, stops, Reaches, here, next,
}

-- The map has timers under their portfolios, and what is wanted has a timer that runs.
pub record IsHeard (s : Scheduler) : Type 0 where
  pub owned : (pid : Uuid) (t : Timer) → lookup pid s.timers ≡ some t → t.portfolio ≡ pid
  pub heard : (pid : Uuid) → is_listed pid s.wanted ≡ true → has_timer_for pid s.running ≡ true

-- Taking a timer away leaves those of other portfolios.
without-has_timer_for :
    (j : Uuid) (t : Timer) (ts : List Timer)
    → (t.portfolio == j) ≡ false
    → has_timer_for j ts ≡ true
    → has_timer_for j (without t ts) ≡ true
unfolding without
without-has_timer_for j t [] other h = h
without-has_timer_for j t (u ∷ us) other h = ground (
  arith,
  without-has_timer_for j t us other,
  ==_iff t.portfolio u.portfolio,
  ==_iff t.portfolio j,
  ==_iff u.portfolio j,
)

unlist-is_listed :
    (j pid : Uuid) (pids : List Uuid)
    → is_listed j (unlist pid pids) ≡ true
    → ((pid == j) ≡ false) × (is_listed j pids ≡ true)
unfolding unlist
unlist-is_listed j pid [] h = absurd (ground (arith, h))
unlist-is_listed j pid (p ∷ pids) h = (
  ground (arith, h, unlist-is_listed j pid pids, ==_iff p pid, ==_iff p j, ==_iff pid j),
  ground (arith, h, unlist-is_listed j pid pids, ==_iff p pid, ==_iff p j, ==_iff pid j),
)

schedule_risk-IsHeard : (pid : Uuid) (s : Scheduler) → IsHeard s → IsHeard (schedule_risk pid s)
unfolding schedule_risk
schedule_risk-IsHeard pid s h = record {
  owned = λ j t e.
      let found =
        sym (lookup-insert pid j (record { id = s.made; portfolio = pid }) s.timers) ∙ e in
      elim (Bool-cases (pid == j)) [
        | inl same ↦
            ap (λ o. timer_portfolio o pid) (sym (rw same at found)) ∙ (==_iff pid j).0 same
        | inr other ↦ h.owned j t (rw other at found)
      ];
  heard = λ j listed. elim (Bool-cases (pid == j)) [
    | inl same ↦ rw same refl
    | inr other ↦ rw other (kept j other (rw other at listed))
  ];
}
  where
    timer_portfolio : Option Timer → Uuid → Uuid
    timer_portfolio none other = other
    timer_portfolio (some t) other = t.portfolio

    kept :
        (j : Uuid)
        → (pid == j) ≡ false
        → is_listed j s.wanted ≡ true
        → has_timer_for j (cancel (lookup pid s.timers) s.running) ≡ true
    kept j other was = elim (Option-cases (lookup pid s.timers)) [
      | inl e ↦ rw e (h.heard j was)
      | inr (t, e) ↦ rw e (
          without-has_timer_for j t s.running (ap (λ p. p == j) (h.owned pid t e) ∙ other)
            (h.heard j was))
    ]

fire-IsHeard : (t : Timer) (s : Scheduler) → IsHeard s → IsHeard (fire t s)
unfolding fire
fire-IsHeard t s h = record {
  owned = h.owned;
  heard = λ j listed.
      let (other, was) = unlist-is_listed j t.portfolio s.wanted listed in
      without-has_timer_for j t s.running other (h.heard j was);
}

finish-IsHeard : (t : Timer) (s : Scheduler) → IsHeard s → IsHeard (finish t s)
unfolding finish
finish-IsHeard t s h = record {
  owned = λ pid u e. h.owned pid u (ground (arith, e, lookup-erase t.portfolio pid s.timers));
  heard = h.heard;
}

stop-IsHeard : (s : Scheduler) → IsHeard (stop s)
unfolding stop lookup
stop-IsHeard s = record {
  owned = λ pid t e. absurd (ground (arith, e));
  heard = λ pid e. absurd (ground (arith, e));
}

Step-IsHeard : {s s' : Scheduler} → Step s s' → IsHeard s → IsHeard s'
Step-IsHeard (schedules pid s) h = schedule_risk-IsHeard pid s h
Step-IsHeard (fires t s there) h = fire-IsHeard t s h
Step-IsHeard (finishes t s there) h = finish-IsHeard t s h
Step-IsHeard (stops s) h = stop-IsHeard s

new-IsHeard : IsHeard new_scheduler
unfolding lookup
new-IsHeard = record {
  owned = λ pid t e. absurd (ground (arith, e));
  heard = λ pid e. absurd (ground (arith, e));
}

-- In every state that the scheduler reaches, in whatever order its calls, its timers and its
-- callbacks come: a portfolio that was scheduled, and whose trigger has not begun since, has a
-- timer that runs, unless the scheduler was stopped after.
pub Reaches-IsHeard : {s : Scheduler} → Reaches s → IsHeard s
Reaches-IsHeard here = new-IsHeard
Reaches-IsHeard (next r step) = Step-IsHeard step (Reaches-IsHeard r)
