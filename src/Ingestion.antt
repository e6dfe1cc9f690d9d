-- ===== src/Ingestion.antt =====
-- internal/ingestion/service.go: an event is validated, with its payload, and handed to the store.
pub mod Accepted
pub mod Idempotent
use real_time_portfolio_risk.Prelude.{codes, ◌==◌, text_eq, none, some, Option, if◌then◌else◌}
use real_time_portfolio_risk.Decimal.{Decimal}
use real_time_portfolio_risk.Domain.Types.{
  Error, invalid_payload, invalid_event, Codec, EventEnvelope, event_type_trade_executed,
  event_type_price_updated,
}
use real_time_portfolio_risk.Domain.Validation.{
  validate_event_envelope, validate_trade_payload, validate_price_payload,
}
use real_time_portfolio_risk.Events.Store.Append.{Reply, refused}

module _ {D : Type 0} ⦃d : Decimal D⦄ (codec : Codec D) where
  -- The payload, by the type of the event.
  unfoldable pub check_payload : EventEnvelope → Option Error
  check_payload e =
      if e.event_type == event_type_trade_executed
      then elim (codec.unmarshal_trade e.payload) [
        | none ↦ some invalid_payload
        | some t ↦ validate_trade_payload t
      ]
      else if e.event_type == event_type_price_updated
      then elim (codec.unmarshal_price e.payload) [
        | none ↦ some invalid_payload
        | some p ↦ validate_price_payload p
      ]
      else some invalid_event

  -- What is checked before the store is called.
  unfoldable pub check_event : EventEnvelope → Option Error
  check_event e = elim (validate_event_envelope codec e) [
    | some err ↦ some err
    | none ↦ check_payload e
  ]

  -- `service.Ingest`, over the `appender` of the service: a call on the store's state `S`.
  unfoldable pub ingest :
      {S : Type 0} → (EventEnvelope → S → Reply × S) → EventEnvelope → S → Reply × S
  ingest store e s = elim (check_event e) [ some err ↦ (refused err, s) | none ↦ store e s ]
