-- ===== src/Events/Cursor/Order.antt =====
-- `CompareCursors` is a strict total order, and the one by which the store selects.
use Prim.Native.Nat.{Ordering, lt, eq, gt}
use real_time_portfolio_risk.Prelude.{◌≡◌, ◌↔◌, true, arith}
use real_time_portfolio_risk.Domain.Types.{EventEnvelope}
use real_time_portfolio_risk.Events.Cursor.{Cursor, compare_cursors, cursor_from_event, is_after}

-- Comparing the other way round.
abbrev pub reversed : Ordering → Ordering
reversed lt = gt
reversed eq = eq
reversed gt = lt

-- Two cursors compare as equal exactly when they are equal, the opposite comparison is the reverse,
-- and `before` is transitive.
pub compare_cursors_order :
    (a b c : Cursor)
    → ((compare_cursors a b ≡ eq) ↔ (a ≡ b))
      × (compare_cursors b a ≡ reversed (compare_cursors a b))
      × (compare_cursors a b ≡ lt → compare_cursors b c ≡ lt → compare_cursors a c ≡ lt)
unfolding compare_cursors
compare_cursors_order a b c = (ground arith, ground arith, ground arith)

-- The selection of `FetchAfter` is the events that `CompareCursors` puts after the cursor.
pub is_after_iff :
    (c : Cursor) (ev : EventEnvelope)
    → (is_after c ev ≡ true) ↔ (compare_cursors (cursor_from_event ev) c ≡ gt)
unfolding is_after compare_cursors cursor_from_event
is_after_iff c ev = ground arith
