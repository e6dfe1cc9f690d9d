-- ===== src/Events/Store/Append.antt =====
-- internal/events/postgres.go: `Append`, with what the columns of the table `events` do to the
-- values, and the unique keys of its migration: the event id, and the portfolio with the
-- idempotency key.
pub mod Rows
use real_time_portfolio_risk.Prelude.{
  Str, codes, ◌==◌, text_eq, nat_eq, Bool, true, false, ◌&&◌, List, [], ◌∷◌, ◌++◌, none, some,
  Option, if◌then◌else◌,
}
use real_time_portfolio_risk.Clock.{Time, Uuid}
use real_time_portfolio_risk.Domain.Types.{Error, validation, EventEnvelope}
use real_time_portfolio_risk.Events.Store.{EventRow, Tables}
use real_time_portfolio_risk.Events.Verdict.{Verdict}

-- `uuid.Parse` and `UUID.String`, and what a JSONB and a TIMESTAMPTZ column give back; `none` from
-- `jsonb` is the error of the cast.
pub record Columns : Type 0 where
  pub parse_uuid : Str → Option Uuid
  pub uuid_text : Uuid → Str
  pub jsonb : Str → Option Str
  pub timestamptz : Time → Time

pub record AppendResult : Type 0 where
  pub event_id : Uuid
  pub inserted : Bool

-- What `Append` returns: a result, an error of the domain, or a failure of the database.
pub data Reply : Type 0 where
  appended : AppendResult → Reply
  refused : Error → Reply
  unavailable : Reply

-- The row under the unique index on the portfolio and the idempotency key.
unfoldable pub find_key : Uuid → Str → List EventRow → Option EventRow
find_key pid key [] = none
find_key pid key (row ∷ rows) =
    if row.partition == pid && row.event.idempotency_key == key
    then some row
    else find_key pid key rows

unfoldable pub has_event_id : Uuid → List EventRow → Bool
has_event_id id [] = false
has_event_id id (row ∷ rows) = if row.event.event_id == id then true else has_event_id id rows

-- The row that is written, as `scanEventRows` gives it back.
abbrev pub event_row : Columns → Uuid → Str → EventEnvelope → EventRow
event_row cols pid payload ev = record {
  partition = pid;
  event = record ev {
    event_time = cols.timestamptz ev.event_time;
    processing_time = cols.timestamptz ev.event_time;
    portfolio_id = cols.uuid_text pid;
    payload = payload;
  };
}

-- The statements of the transaction: `INSERT ... ON CONFLICT DO NOTHING`, and on a conflict the
-- `SELECT` of the row that is there. A second use of an event id is an error.
unfoldable pub insert_event : EventRow → List EventRow → Option (AppendResult × List EventRow)
insert_event row rows = elim (find_key row.partition row.event.idempotency_key rows) [
  | some old ↦ some (record { event_id = old.event.event_id; inserted = false }, rows)
  | none ↦
      if has_event_id row.event.event_id rows
      then none
      else some (record { event_id = row.event.event_id; inserted = true }, rows ++ (row ∷ []))
]

-- The transaction under what the database does with it.
unfoldable pub commit_event : EventRow → Verdict → List EventRow → Reply × List EventRow
commit_event row verdict rows = elim (insert_event row rows) [
  | none ↦ (unavailable, rows)
  | some (result, rows') ↦ elim verdict [
    | Verdict.answers ↦ (appended result, rows')
    | Verdict.rolls_back ↦ (unavailable, rows)
    | Verdict.commits_unseen ↦ (unavailable, rows')
  ]
]

unfoldable pub append : Columns → EventEnvelope → Verdict → List EventRow → Reply × List EventRow
append cols ev verdict rows = elim (cols.parse_uuid ev.portfolio_id) [
  | none ↦ (refused (validation (codes "portfolio_id must be UUID")), rows)
  | some pid ↦
      let text = if ev.payload == [] then codes "{}" else ev.payload in
      elim (cols.jsonb text) [
        | none ↦ (unavailable, rows)
        | some payload ↦ commit_event (event_row cols pid payload ev) verdict rows
      ]
]
