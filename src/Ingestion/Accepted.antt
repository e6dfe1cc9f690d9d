-- ===== src/Ingestion/Accepted.antt =====
-- Every event in the store came through validation.
use real_time_portfolio_risk.Prelude.{
  ◌≡◌, Str, text_eq, nat_eq, ◌==◌, false, List, [], ◌∷◌, none, some, Option-cases, inl, inr, All,
  All-append, arith,
}
use real_time_portfolio_risk.Decimal.{Decimal}
use real_time_portfolio_risk.Domain.Types.{Codec, EventEnvelope}
use real_time_portfolio_risk.Domain.Validation.{validate_event_envelope}
use real_time_portfolio_risk.Events.Verdict.{Verdict}
use real_time_portfolio_risk.Events.Store.{EventRow}
use real_time_portfolio_risk.Events.Store.Append.{Columns, commit_event, append, event_row}
use real_time_portfolio_risk.Events.Store.Append.Rows.{commit_event-rows}
use real_time_portfolio_risk.Clock.{Uuid}
use real_time_portfolio_risk.Ingestion.{check_payload, check_event, ingest}

module _ {D : Type 0} ⦃d : Decimal D⦄ (codec : Codec D) where
  -- An event whose payload passes the checks of its type.
  abbrev pub IsAccepted : EventEnvelope → Type 0
  IsAccepted e = check_payload codec e ≡ none

  -- The row was written for a text that passes the checks of the type of the event: the payload is
  -- what a JSONB column makes of that text.
  pub record IsChecked (cols : Columns) (row : EventRow) : Type 0 where
    pub text : Str
    pub written : cols.jsonb text ≡ some row.event.payload
    pub accepted : IsAccepted (record row.event { payload = text })

  abbrev pub AllChecked : Columns → List EventRow → Type 0
  AllChecked cols = All (IsChecked cols)

  commit_event-AllChecked :
      (cols : Columns) (row : EventRow) (verdict : Verdict) (rows : List EventRow)
      → IsChecked cols row
      → AllChecked cols rows
      → AllChecked cols (commit_event row verdict rows).1
  commit_event-AllChecked cols row verdict rows h hs = elim (commit_event-rows row verdict rows) [
    | inl same ↦ rw same hs
    | inr (more, fresh) ↦ rw more (All-append (IsChecked cols) rows (row ∷ []) hs (h, tt))
  ]

  event_row-IsChecked :
      (cols : Columns) (e : EventEnvelope) (pid : Uuid) (stored : Str)
      → check_payload codec e ≡ none
      → cols.jsonb e.payload ≡ some stored
      → IsChecked cols (event_row cols pid stored e)
  unfolding check_payload
  event_row-IsChecked cols e pid stored ok j = record {
    text = e.payload;
    written = j;
    accepted = ok;
  }

  checked_payload :
      (e : EventEnvelope)
      → check_event codec e ≡ none
      → (check_payload codec e ≡ none) × ((e.payload == []) ≡ false)
  unfolding check_event validate_event_envelope
  checked_payload e ok = ground arith

  -- Where every row was written for a payload that passes the checks, it is so again after
  -- an event is ingested, whatever the event is and whatever the database does with the call. What
  -- the column makes of the text is not checked again.
  pub ingest-AllChecked :
      (cols : Columns) (e : EventEnvelope) (verdict : Verdict) (rows : List EventRow)
      → AllChecked cols rows
      → AllChecked cols (ingest codec (λ ev. append cols ev verdict) e rows).1
  unfolding ingest append
  ingest-AllChecked cols e verdict rows hs = elim (Option-cases (check_event codec e)) [
    | inr (err, bad) ↦ rw (ingest, bad) hs
    | inl ok ↦
        let (good, some_payload) = checked_payload e ok in
        elim (Option-cases (cols.parse_uuid e.portfolio_id)) [
          | inl no_id ↦ rw (ingest, ok, append, no_id) hs
          | inr (pid, id) ↦ elim (Option-cases (cols.jsonb e.payload)) [
            | inl no_json ↦ rw (ingest, ok, append, id, some_payload, no_json) hs
            | inr (stored, j) ↦
                rw (ingest, ok, append, id, some_payload, j)
                  (commit_event-AllChecked cols (event_row cols pid stored e) verdict rows
                    (event_row-IsChecked cols e pid stored good j) hs)
          ]
        ]
  ]
