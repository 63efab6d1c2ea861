-- ===== src/Timers/TimerQueue.antt =====
-- code/day29/timer/TimerQueue.h and TimerQueue.cpp. `timers_` is the list of its timers in the
-- order of expiration and address; timerfd_settime succeeds. Each call of TimeStamp::Now is an
-- input.
pub mod Order
pub mod Armed
use l.Base.{
  Bool, List, Option, [], if◌then◌else◌, leb, ltb, max, none, some, true, ℕ, ◌&&◌, ◌+◌, ◌-◌, ◌==◌,
  ◌||◌, ◌∷◌,
}
use l.Timers.{Timer, re_start, repeats}

-- `armed` is the time for which the descriptor is set, and `none` behind its event.
pub record TimerQueue : Type 0 where
  pub timers : List Timer
  pub armed : Option ℕ

-- The constructor.
abbrev pub new_queue : TimerQueue
new_queue = record { timers = []; armed = none }

-- `operator<` of an entry
unfoldable pub before : Timer → Timer → Bool
before a b =
    ltb a.expiration b.expiration || a.expiration == b.expiration && ltb a.address b.address

-- `timers_.emplace`; an entry that is there already is not inserted again.
unfoldable pub emplace : Timer → List Timer → List Timer
emplace t [] = t ∷ []
emplace t (u ∷ us) =
    let rest = emplace t us in
    if before t u then t ∷ u ∷ us else if before u t then u ∷ rest else u ∷ us

-- Does the timer come before all others?
is_first : Timer → List Timer → Bool
is_first t [] = true
is_first t (u ∷ us) = ltb t.expiration u.expiration

-- `Insert`: the queue, and whether the descriptor is to be set again.
unfoldable pub insert : Timer → TimerQueue → TimerQueue × Bool
unfolding is_first
insert t q = (record q { timers = emplace t q.timers }, is_first t q.timers)

-- The wait that `ResetTimerFd` sets at time `now`: at least 100 microseconds.
unfoldable pub wait_of : ℕ → Timer → ℕ
wait_of now t = max 100 (t.expiration - now)

-- `ResetTimerFd` at time `now`
unfoldable pub reset_timer_fd : ℕ → Timer → TimerQueue → TimerQueue
reset_timer_fd now t q = record q { armed = some (now + wait_of now t) }

-- `AddTimer`
unfoldable pub add_timer : ℕ → Timer → TimerQueue → TimerQueue
add_timer now t q =
    let (q', instantly) = insert t q in if instantly then reset_timer_fd now t q' else q'

-- `lower_bound` of the time `now` with the greatest address: the timers that are due.
unfoldable pub due : ℕ → List Timer → List Timer
due now [] = []
due now (t ∷ ts) = let rest = due now ts in if leb t.expiration now then t ∷ rest else []

unfoldable pub later : ℕ → List Timer → List Timer
later now [] = []
later now (t ∷ ts) = let rest = later now ts in if leb t.expiration now then rest else t ∷ ts

-- The timers that a callback adds.
unfoldable pub add_all : List (ℕ × Timer) → TimerQueue → TimerQueue
add_all [] q = q
add_all ((now, t) ∷ ts) q = add_all ts (add_timer now t q)

-- The callbacks, each of which may add timers, at a time of its own.
unfoldable pub run_active : (Timer → List (ℕ × Timer)) → List Timer → TimerQueue → TimerQueue
run_active added [] q = q
run_active added (t ∷ ts) q = run_active added ts (add_all (added t) q)

-- A timer that repeats starts again.
restarted : ℕ → Timer → TimerQueue → TimerQueue
restarted now t q = if repeats t then (insert (re_start now t) q).0 else q

-- The loop of `ResetTimers`, with the time at which each timer starts again.
unfoldable pub restart_active : (Timer → ℕ) → List Timer → TimerQueue → TimerQueue
unfolding restarted
restart_active at_time [] q = q
restart_active at_time (t ∷ ts) q = restart_active at_time ts (restarted (at_time t) t q)

set_first : ℕ → List Timer → TimerQueue → TimerQueue
set_first now [] q = q
set_first now (t ∷ ts) q = reset_timer_fd now t q

-- `ResetTimers`, where `ResetTimerFd` reads the time `now`
unfoldable pub reset_timers : (Timer → ℕ) → ℕ → List Timer → TimerQueue → TimerQueue
unfolding set_first
reset_timers at_time now active q =
    let q' = restart_active at_time active q in set_first now q'.timers q'

-- `HandleRead` behind reading the descriptor.
unfoldable pub handle_read :
    (Timer → List (ℕ × Timer)) → ℕ → (Timer → ℕ) → ℕ → TimerQueue → TimerQueue
handle_read added now at_time now' q =
    let active = due now q.timers in
    reset_timers at_time now' active
      (run_active added active (record q { timers = later now q.timers; armed = none }))
