-- ===== src/Events/Worker/Consume.antt =====
-- What `applyEligible` promises, without the database: the events in order, each applied, set aside
-- or the end of the round.
use real_time_portfolio_risk.Prelude.{List, [], ◌∷◌}
use real_time_portfolio_risk.Decimal.{Decimal}
use real_time_portfolio_risk.Clock.{Uuid}
use real_time_portfolio_risk.Domain.Types.{Error, position_underflow, EventEnvelope}
use real_time_portfolio_risk.Domain.Positions.{Outcome, done, failed, panicked}
use real_time_portfolio_risk.Portfolio.Aggregate.{Aggregate, apply_event}
use real_time_portfolio_risk.Events.Cursor.{Cursor, cursor_from_event}
use real_time_portfolio_risk.Events.Store.{DlqRow, Reason}
use real_time_portfolio_risk.Events.Worker.Monad.{Config, Result, ok, err, apply_failed, crashed}

pub data Ending : Type 0 where
  finished : Ending
  rejected : Error → Ending
  broke : Ending

-- The aggregate at the end, the events that were applied or set aside, and those set aside.
pub record Run (D : Type 0) : Type 0 where
  pub agg : Aggregate D
  pub consumed : List EventEnvelope
  pub refused : List EventEnvelope
  pub ending : Ending

-- The cursor after some events.
abbrev pub reached : Cursor → List EventEnvelope → Cursor
reached c [] = c
reached c (ev ∷ evs) = reached (cursor_from_event ev) evs

abbrev pub letter : Uuid → EventEnvelope → DlqRow
letter pid ev = record { partition = pid; event = ev; reason = Reason.position_underflow }

abbrev pub result_of : Ending → Result Unit
result_of finished = ok tt
result_of (rejected e) = err (apply_failed e)
result_of broke = err crashed

module _ {D : Type 0} where
  abbrev pub stopped : Aggregate D → Ending → Run D
  stopped a ending = record { agg = a; consumed = []; refused = []; ending = ending }

  abbrev pub continue : Outcome → EventEnvelope → Aggregate D → Run D → Run D
  continue done ev a rest = record rest { consumed = ev ∷ rest.consumed }
  continue panicked ev a rest = stopped a broke
  continue (failed position_underflow) ev a rest = record rest {
    consumed = ev ∷ rest.consumed;
    refused = ev ∷ rest.refused;
  }
  continue (failed e) ev a rest = stopped a (rejected e)

module _ {D : Type 0} ⦃d : Decimal D⦄ (cfg : Config D) where
  unfoldable pub consume : List EventEnvelope → Aggregate D → Run D
  consume [] a = stopped a finished
  consume (ev ∷ evs) a =
      let (outcome, a') = apply_event cfg.codec cfg.pid_str ev a in
      continue outcome ev a' (consume evs a')
