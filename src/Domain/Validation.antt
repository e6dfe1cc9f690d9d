-- ===== src/Domain/Validation.antt =====
-- internal/domain/validation.go: what is checked before an event is appended. `none` is a nil error.
pub mod Sound
use real_time_portfolio_risk.Prelude.{
  Str, codes, Bool, ◌||◌, ◌==◌, text_eq, [], none, some, if◌then◌else◌, Option, not, nat_eq,
}
use real_time_portfolio_risk.Clock.{is_zero_time, nil_uuid}
use real_time_portfolio_risk.Decimal.{Decimal}
use real_time_portfolio_risk.Domain.Types.{
  Error, validation, Side, is_valid_side, is_valid_symbol, EventEnvelope, TradePayload,
  PricePayload, Codec, event_type_trade_executed, event_type_price_updated,
}

-- `if bad { return err }` before the rest.
infixr 3 ◌or_else◌
abbrev pub ◌or_else◌ : Option Error → Option Error → Option Error
some e or_else _ = some e
none or_else r = r

abbrev pub reject_if : Bool → Str → Option Error
reject_if b message = if b then some (validation message) else none

unfoldable pub validate_symbol : Str → Option Error
validate_symbol s = reject_if (not (is_valid_symbol s)) (codes "invalid symbol")

unfoldable pub validate_side : Side → Option Error
validate_side s = reject_if (not (is_valid_side s)) (codes "invalid side")

module _ {D : Type 0} ⦃d : Decimal D⦄ where
  unfoldable pub validate_quantity : D → Option Error
  validate_quantity q = reject_if (not (d.is_positive q)) (codes "quantity must be > 0")

  unfoldable pub validate_price : D → Option Error
  validate_price p = reject_if (not (d.is_positive p)) (codes "price must be > 0")

  unfoldable pub validate_trade_payload : TradePayload D → Option Error
  unfolding validate_symbol validate_side validate_quantity validate_price
  validate_trade_payload t =
      reject_if (t.trade_id == []) (codes "trade_id required")
      or_else validate_symbol t.symbol
      or_else validate_side t.side
      or_else validate_quantity t.quantity
      or_else validate_price t.price
      or_else reject_if (t.currency == []) (codes "currency required")

  unfoldable pub validate_price_payload : PricePayload D → Option Error
  unfolding validate_symbol validate_price
  validate_price_payload p =
      validate_symbol p.symbol
      or_else validate_price p.price
      or_else reject_if (p.currency == []) (codes "currency required")

module _ {D : Type 0} (codec : Codec D) where
  unfoldable pub validate_event_envelope : EventEnvelope → Option Error
  validate_event_envelope e =
      reject_if (e.event_id == nil_uuid) (codes "event_id required")
      or_else reject_if (is_zero_time e.event_time) (codes "event_time required")
      or_else reject_if (e.portfolio_id == []) (codes "portfolio_id required")
      or_else reject_if (e.idempotency_key == []) (codes "idempotency_key required")
      or_else reject_if (e.source == []) (codes "source required")
      or_else reject_if (e.payload == []) (codes "payload required")
      or_else reject_if
          (not
            (e.event_type == event_type_trade_executed || e.event_type == event_type_price_updated))
          (codes "invalid event_type")
      or_else reject_if (not (codec.is_json e.payload)) (codes "payload must be valid JSON")
