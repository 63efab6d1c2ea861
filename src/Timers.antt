-- ===== src/Timers.antt =====
-- The timers of the tutorial server in its last version (code/day29/timer): TimeStamp.h, Timer.h
-- and Timer.cpp here, the queue below. A time is its microseconds, and so is a number of seconds.
pub mod TimerQueue
use l.Base.{Bool, ltb, ℕ, ◌*◌, ◌+◌, ◌/◌}

abbrev pub k_microsecond2_second : ℕ
k_microsecond2_second = 1000 * 1000

-- `TimeStamp::AddTime`: the seconds are cut to a whole number.
unfoldable pub add_time : ℕ → ℕ → ℕ
add_time timestamp add_seconds =
    timestamp + add_seconds / k_microsecond2_second * k_microsecond2_second

-- A timer at its address; its callback is known by that.
pub record Timer : Type 0 where
  pub address : ℕ
  pub expiration : ℕ
  pub interval : ℕ

-- `repeat`
unfoldable pub repeats : Timer → Bool
repeats t = ltb 0 t.interval

-- `ReStart`
unfoldable pub re_start : ℕ → Timer → Timer
re_start now t = record t { expiration = add_time now t.interval }
