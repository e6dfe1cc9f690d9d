-- ===== src/Domain/Types.antt =====
-- internal/domain/types.go, events.go, payloads.go and errors.go.
use real_time_portfolio_risk.Prelude.{
  ℕ, Str, codes, Bool, ◌||◌, ◌&&◌, true, ◌==◌, text_eq, leb, [], ◌∷◌, length, nat_beq, Option,
}
use real_time_portfolio_risk.Prelude.Int.{ℤ}
use real_time_portfolio_risk.Clock.{Time, Uuid}

-- The sentinels of errors.go; a wrapped validation error carries its text.
pub data Error : Type 0 where
  validation : Str → Error
  position_underflow : Error
  invalid_payload : Error
  duplicate_event : Error
  out_of_order_event : Error
  invalid_event : Error
  unknown_type : Error

abbrev pub Side : Type 0
Side = Str

abbrev pub side_buy : Side
side_buy = codes "BUY"

abbrev pub side_sell : Side
side_sell = codes "SELL"

unfoldable pub is_valid_side : Side → Bool
is_valid_side s = s == side_buy || s == side_sell

-- One byte of the class `[A-Z0-9._-]`.
unfoldable pub is_symbol_byte : ℕ → Bool
is_symbol_byte c =
    (leb b'A' c && leb c b'Z')
    || (leb b'0' c && leb c b'9')
    || nat_beq c b'.'
    || nat_beq c b'_'
    || nat_beq c b'-'

unfoldable pub all_symbol_bytes : Str → Bool
unfolding is_symbol_byte
all_symbol_bytes [] = true
all_symbol_bytes (c ∷ s) = is_symbol_byte c && all_symbol_bytes s

-- The pattern `^[A-Z0-9._-]{1,32}$`.
unfoldable pub is_valid_symbol : Str → Bool
unfolding all_symbol_bytes
is_valid_symbol s = leb 1 (length s) && leb (length s) 32 && all_symbol_bytes s

abbrev pub EventType : Type 0
EventType = Str

abbrev pub event_type_trade_executed : EventType
event_type_trade_executed = codes "TradeExecuted"

abbrev pub event_type_price_updated : EventType
event_type_price_updated = codes "PriceUpdated"

pub record EventEnvelope : Type 0 where
  pub event_id : Uuid
  pub event_type : EventType
  pub event_time : Time
  pub processing_time : Time
  pub source : Str
  pub portfolio_id : Str
  pub idempotency_key : Str
  pub payload : Str

pub record TradePayload (D : Type 0) : Type 0 where
  pub trade_id : Str
  pub symbol : Str
  pub side : Side
  pub quantity : D
  pub price : D
  pub currency : Str

pub record PricePayload (D : Type 0) : Type 0 where
  pub symbol : Str
  pub price : D
  pub currency : Str
  pub source_sequence : ℤ

-- `json.Unmarshal` into `json.RawMessage` and into the payload types, whose decimal fields are
-- decoded by the decimal library; `none` is a decoding error.
pub record Codec (D : Type 0) : Type 0 where
  pub is_json : Str → Bool
  pub unmarshal_trade : Str → Option (TradePayload D)
  pub unmarshal_price : Str → Option (PricePayload D)
