-- ===== src/Events/Cursor.antt =====
-- internal/events/cursor.go: the ordering key of a partition, and the predicate of `FetchAfter`.
pub mod Order
use real_time_portfolio_risk.Prelude.{Bool, true, false, ◌&&◌, ◌||◌, if◌then◌else◌, nat_beq, ltb}
use Prim.Native.Nat.{compare, Ordering, lt, eq, gt}
use real_time_portfolio_risk.Clock.{Time, Uuid, before, after, is_zero_time, nil_uuid, zero_time}
use real_time_portfolio_risk.Domain.Types.{EventEnvelope}

pub record Cursor : Type 0 where
  pub time : Time
  pub id : Uuid

-- `Cursor{}`
abbrev pub zero_cursor : Cursor
zero_cursor = record { time = zero_time; id = nil_uuid }

unfoldable pub cursor_from_event : EventEnvelope → Cursor
cursor_from_event ev = record { time = ev.event_time; id = ev.event_id }

unfoldable pub is_zero_cursor : Cursor → Bool
is_zero_cursor c = nat_beq c.id nil_uuid && is_zero_time c.time

-- -1, 0 and 1 are `lt`, `eq` and `gt`.
unfoldable pub compare_cursors : Cursor → Cursor → Ordering
compare_cursors a b =
    if before a.time b.time then lt else if after a.time b.time then gt else compare a.id b.id

abbrev pub is_same : Ordering → Bool
is_same eq = true
is_same _ = false

-- `event_time > $2 OR (event_time = $2 AND event_id > $3)`
unfoldable pub is_after : Cursor → EventEnvelope → Bool
is_after c ev = ltb c.time ev.event_time || (nat_beq ev.event_time c.time && ltb c.id ev.event_id)
