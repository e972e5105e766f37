-- ===== src/Prelude/Time.antt =====
-- `time.time()` as a whole number of microseconds since the epoch, and the parts of local time.
use Prim.Native.Nat.{ℕ, ◌/◌}

abbrev pub second : ℕ
second = 1000000

-- `int(t)` for a time `t`.
abbrev pub whole_seconds : ℕ → ℕ
whole_seconds t = t / second

-- What `datetime.fromtimestamp` gives: it depends on the host's time zone.
pub record LocalTime : Type 0 where
  pub hour : ℕ
  pub weekday : ℕ
