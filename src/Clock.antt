-- ===== src/Clock.antt =====
-- `time.Time`, `time.Duration` and `uuid.UUID`. A time is the number of nanoseconds since the least
-- instant that `time.Time` holds (2 ^ 63 seconds before the year 1), so that the comparisons are
-- those of ℕ and a subtraction stops where Go's would leave the range. A duration that the program
-- only uses when it is positive is a ℕ with 0 for all that is not positive. A UUID is its sixteen
-- bytes read as one big-endian number, so the order of the numbers is that of `bytes.Compare` on the
-- bytes and that of the hexadecimal texts.
use real_time_portfolio_risk.Prelude.{ℕ, ◌*◌, ◌^◌, Bool, ltb, nat_beq}

abbrev pub Time : Type 0
Time = ℕ

abbrev pub Duration : Type 0
Duration = ℕ

abbrev pub Uuid : Type 0
Uuid = ℕ

-- Go's zero `time.Time`, the first of January of the year 1.
abbrev pub zero_time : Time
zero_time = 2 ^ 63 * 10 ^ 9

abbrev pub is_zero_time : Time → Bool
is_zero_time t = nat_beq t zero_time

abbrev pub before : Time → Time → Bool
before a b = ltb a b

abbrev pub after : Time → Time → Bool
after a b = ltb b a

-- `uuid.Nil`
abbrev pub nil_uuid : Uuid
nil_uuid = 0
