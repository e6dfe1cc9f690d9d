-- ===== src/Tests/Ingestion.antt =====
-- A trade that is sent twice, the first time to a database that commits without an answer.
use real_time_portfolio_risk.Prelude.{
  codes, [], ◌≡◌, refl, none, some, ◌==◌, if◌then◌else◌, text_eq, str_eq,
}
use real_time_portfolio_risk.Decimal.Integers.{integers}
use real_time_portfolio_risk.Domain.Types.{is_valid_symbol, is_valid_side}
use real_time_portfolio_risk.Domain.Validation.{
  validate_event_envelope, validate_trade_payload, validate_symbol, validate_side,
  validate_quantity, validate_price,
}
use real_time_portfolio_risk.Events.Verdict.{Verdict}
use real_time_portfolio_risk.Events.Store.{EventRow}
use real_time_portfolio_risk.Events.Store.Append.{Columns, append, event_row, has_event_id}
use real_time_portfolio_risk.Events.Store.Append.Rows.{IsUnique, IsSettled}
use real_time_portfolio_risk.Ingestion.{check_event, check_payload, ingest}
use real_time_portfolio_risk.Ingestion.Accepted.{AllChecked, ingest-AllChecked}
use real_time_portfolio_risk.Ingestion.Idempotent.{ingest-IsUnique, ingest-IsSettled}
use real_time_portfolio_risk.Tests.Data.{codec, bought_event}

abbrev pub cols : Columns
cols = record {
  parse_uuid = λ s. if s == codes "7" then some 7 else none;
  uuid_text = λ n. codes "7";
  jsonb = λ s. some s;
  timestamptz = λ t. t;
}

ingest-AllChecked_example :
    AllChecked codec cols
      (ingest codec (λ ev. append cols ev Verdict.commits_unseen) bought_event []).1
ingest-AllChecked_example = ingest-AllChecked codec cols bought_event Verdict.commits_unseen [] tt

ingest-IsUnique_example :
    IsUnique (ingest codec (λ ev. append cols ev Verdict.answers) bought_event []).1
ingest-IsUnique_example = ingest-IsUnique codec cols bought_event Verdict.answers [] tt

bought_checked : check_event codec bought_event ≡ none
unfolding check_event check_payload validate_event_envelope validate_trade_payload validate_symbol
    validate_side validate_quantity validate_price str_eq is_valid_symbol is_valid_side
bought_checked = refl

abbrev bought_row : EventRow
bought_row = event_row cols 7 (codes "a") bought_event

ingest-IsSettled_example :
    let first = ingest codec (λ ev. append cols ev Verdict.commits_unseen) bought_event [] in
    IsSettled bought_row first
      (ingest codec (λ ev. append cols ev Verdict.answers) bought_event first.1)
unfolding str_eq has_event_id
ingest-IsSettled_example =
    ingest-IsSettled codec cols bought_event Verdict.commits_unseen [] 7 (codes "a") bought_checked
      refl refl (λ free. refl)
