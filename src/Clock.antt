-- ===== src/Clock.antt =====
-- Package time, as far as the program uses it: instants with a zone offset, and their civil dates.
pub mod Civil
pub mod Format
use datasaver.Base.{
  ℕ, ◌+◌, ◌-◌, ◌*◌, ◌/◌, ◌%◌, Bool, ltb, ◌==◌, if◌then◌else◌, arith, ◌≡◌, true, false,
}
use datasaver.Base.Int.{ℤ, pos, negsuc, pos_part, neg_part, sub_ℕ, wrap}

-- A time.Time: nanoseconds since the zero time (1 January of year 1, UTC) and the seconds by which
-- its zone is ahead of or behind UTC.
pub record Time : Type 0 where
  pub nanos : ℕ
  pub ahead : ℕ
  pub behind : ℕ

abbrev pub zero_time : Time
zero_time = record { nanos = 0; ahead = 0; behind = 0 }

-- Time.IsZero
unfoldable pub is_zero : Time → Bool
is_zero t = t.nanos == 0

-- Time.After
unfoldable pub is_after : Time → Time → Bool
is_after t u = ltb u.nanos t.nanos

abbrev pub second : ℕ
second = 1000000000

abbrev pub hour : ℕ
hour = 3600000000000

-- A time.Duration keeps the nearest value of a difference that it cannot hold.
unfoldable pub saturate : ℤ → ℤ
saturate (pos n) = if ltb n 9223372036854775808 then pos n else pos 9223372036854775807
saturate (negsuc n) = if ltb n 9223372036854775808 then negsuc n else negsuc 9223372036854775807

-- Time.Sub
unfoldable pub since : Time → Time → ℤ
unfolding saturate
since t u = saturate (sub_ℕ t.nanos u.nanos)

-- Seconds and days of the local clock since the beginning of year 1.
unfoldable pub local_seconds : Time → ℕ
local_seconds t = t.nanos / second + t.ahead - t.behind

unfoldable pub local_days : Time → ℕ
unfolding local_seconds
local_days t = local_seconds t / 86400

-- Time.Weekday: 1 January of year 1 was a Monday, and Sunday is 0.
unfoldable pub weekday : Time → ℕ
unfolding local_days
weekday t = (local_days t + 1) % 7

-- Time.AddDate(0, 0, days), in a zone of constant offset.
unfoldable pub add_days : Time → ℤ → Time
add_days t d = record t { nanos = t.nanos + pos_part d * (24 * hour) - neg_part d * (24 * hour) }
