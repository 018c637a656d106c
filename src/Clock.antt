-- ===== src/Clock.antt =====
-- Time as the program reads it: `time.time` (or an injected `time_source`) and the float arithmetic
-- of timing_wheel.py and store.py.
--
-- A time is a float that is not negative, as a multiple of the smallest positive float, so that
-- comparisons of floats are comparisons of numbers. What rounds is a parameter, a field of `Clock`,
-- and `IsRegular` has the facts about rounded arithmetic that the theorems rest on. Where the program
-- adds or divides beyond the largest float it raises an OverflowError, of which `sum_overflows` and
-- `tick_overflows` are the tests.
use lite_store.Base.{ℕ, ◌≡◌, ◌≤◌, ◌<◌, Bool, ℤ, pos, ◌≤ℤ◌}

abbrev pub Time : Type 0
Time = ℕ

pub record Clock : Type 0 where
  -- the i-th reading of the time source
  pub reading : ℕ → Time
  -- 0.1, the default of `tick_seconds`
  pub default_tick_seconds : Time
  -- math.floor((timestamp - origin) / tick_seconds)
  pub tick : (tick_seconds origin timestamp : Time) → ℤ
  -- origin + ticks * tick_seconds
  pub tick_start : (tick_seconds origin : Time) → ℕ → Time
  -- time + seconds, for a positive integer number of seconds
  pub after : Time → ℕ → Time
  -- whether `time + seconds` raises an OverflowError, since the seconds are no float
  pub sum_overflows : Time → ℕ → Bool
  -- whether `tick` raises one, since the quotient is infinite
  pub tick_overflows : (tick_seconds origin timestamp : Time) → Bool
  -- now - last > 0.1
  pub overdue : (now last : Time) → Bool
  -- int(deadline - time)
  pub whole_seconds : (deadline time : Time) → ℤ

-- Rounded subtraction and division by a positive number keep the order, the difference of equal
-- times is 0, and rounded addition of what is not negative does not go down.
pub record IsRegular (c : Clock) : Type 0 where
  pub default_tick_seconds_pos : 0 < c.default_tick_seconds
  pub tick_mono :
      (tick_seconds origin s t : Time)
      → s ≤ t
      → c.tick tick_seconds origin s ≤ℤ c.tick tick_seconds origin t
  pub tick_origin : (tick_seconds origin : Time) → c.tick tick_seconds origin origin ≡ pos 0
  pub tick_start_mono :
      (tick_seconds origin : Time) (n : ℕ) → origin ≤ c.tick_start tick_seconds origin n
  pub after_mono : (t : Time) (n : ℕ) → t ≤ c.after t n
