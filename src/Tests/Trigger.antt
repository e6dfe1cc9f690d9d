-- ===== src/Tests/Trigger.antt =====
-- A portfolio that is scheduled again while its first callback runs.
use real_time_portfolio_risk.Prelude.{ℕ, nat_eq, ◌∷◌, [], ◌≡◌, refl}
use real_time_portfolio_risk.Prelude.Dict.{lookup, insert, erase}
use real_time_portfolio_risk.Events.RiskTrigger.{
  Timer, Scheduler, new_scheduler, schedule_risk, fire, finish, stop, without, unlist, schedules,
  fires, Reaches, here, next,
}
use real_time_portfolio_risk.Events.RiskTrigger.Heard.{IsHeard, Reaches-IsHeard}

abbrev timer : ℕ → Timer
timer n = record { id = n; portfolio = 7 }

abbrev rescheduled : Scheduler
rescheduled = schedule_risk 7 (fire (timer 0) (schedule_risk 7 new_scheduler))

rescheduled_is_reached : Reaches rescheduled
unfolding schedule_risk fire lookup insert
rescheduled_is_reached =
    next (next (next here (schedules 7 _)) (fires (timer 0) (schedule_risk 7 new_scheduler) refl))
      (schedules 7 _)

Reaches-IsHeard_example : IsHeard rescheduled
Reaches-IsHeard_example = Reaches-IsHeard rescheduled_is_reached

-- The end of the first callback deletes the entry of the second timer, so `Stop` leaves it running.
second_timer_outlives_stop : (stop (finish (timer 0) rescheduled)).running ≡ timer 1 ∷ []
unfolding schedule_risk fire finish stop lookup insert erase without unlist
second_timer_outlives_stop = refl
