-- ===== src/Ingestion/Idempotent.antt =====
-- An event that is sent again is stored once.
use real_time_portfolio_risk.Prelude.{
  ◌≡◌, refl, Str, codes, text_eq, nat_eq, ◌==◌, List, [], none, some, Option-cases, inl, inr,
  if◌then◌else◌,
}
use real_time_portfolio_risk.Clock.{Uuid}
use real_time_portfolio_risk.Decimal.{Decimal}
use real_time_portfolio_risk.Domain.Types.{Codec, EventEnvelope}
use real_time_portfolio_risk.Events.Verdict.{Verdict}
use real_time_portfolio_risk.Events.Store.{EventRow}
use real_time_portfolio_risk.Events.Store.Append.{Columns, append, event_row, commit_event}
use real_time_portfolio_risk.Events.Store.Append.Rows.{
  IsUnique, IsPossible, IsSettled, commit_event-IsUnique, commit_event-retry,
}
use real_time_portfolio_risk.Ingestion.{check_event, ingest}

module _ {D : Type 0} ⦃d : Decimal D⦄ (codec : Codec D) (cols : Columns) where
  -- Whatever is ingested, and whatever the database does with the call, no two rows share an event
  -- id or a portfolio and idempotency key.
  pub ingest-IsUnique :
      (e : EventEnvelope) (verdict : Verdict) (rows : List EventRow)
      → IsUnique rows
      → IsUnique (ingest codec (λ ev. append cols ev verdict) e rows).1
  unfolding ingest append
  ingest-IsUnique e verdict rows u = elim (Option-cases (check_event codec e)) [
    | inr (err, bad) ↦ rw (ingest, bad) u
    | inl ok ↦ elim (Option-cases (cols.parse_uuid e.portfolio_id)) [
      | inl no_id ↦ rw (ingest, ok, append, no_id) u
      | inr (pid, id) ↦
          elim (Option-cases (cols.jsonb (if e.payload == [] then codes "{}" else e.payload))) [
            | inl no_json ↦ rw (ingest, ok, append, id, no_json) u
            | inr (stored, j) ↦
                rw (ingest, ok, append, id, j)
                  (commit_event-IsUnique (event_row cols pid stored e) verdict rows u)
          ]
    ]
  ]

  ingest-reaches :
      (e : EventEnvelope) (verdict : Verdict) (rows : List EventRow) (pid : Uuid) (stored : Str)
      → check_event codec e ≡ none
      → cols.parse_uuid e.portfolio_id ≡ some pid
      → cols.jsonb (if e.payload == [] then codes "{}" else e.payload) ≡ some stored
      → ingest codec (λ ev. append cols ev verdict) e rows
        ≡ commit_event (event_row cols pid stored e) verdict rows
  unfolding ingest append
  ingest-reaches e verdict rows pid stored ok id j = rw (ingest, ok, append, id, j) refl

  -- A valid event for a portfolio is sent, the database does anything with that call, and the event
  -- is sent again to a database that answers, its id used by no row under another key. The second
  -- call answers with the id of the row stored under the event's key, and where the first call had
  -- answered, it was with that id, and the second writes nothing.
  pub ingest-IsSettled :
      (e : EventEnvelope) (verdict : Verdict) (rows : List EventRow) (pid : Uuid) (stored : Str)
      → check_event codec e ≡ none
      → cols.parse_uuid e.portfolio_id ≡ some pid
      → cols.jsonb (if e.payload == [] then codes "{}" else e.payload) ≡ some stored
      → let row = event_row cols pid stored e in
        IsPossible row rows
        → let first = ingest codec (λ ev. append cols ev verdict) e rows in
          IsSettled row first (ingest codec (λ ev. append cols ev Verdict.answers) e first.1)
  ingest-IsSettled e verdict rows pid stored ok id j possible =
      let row = event_row cols pid stored e in
      rw
        (
          ingest-reaches e verdict rows pid stored ok id j,
          ingest-reaches e Verdict.answers (commit_event row verdict rows).1 pid stored ok id j,
        )
        (commit_event-retry row verdict rows possible)
