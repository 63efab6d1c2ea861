-- ===== src/Net/TimerQueue.antt =====
-- l4lb/src/net/TimerQueue.h and TimerQueue.cpp: timers in the order in which they expire, behind
-- one timerfd.
pub mod Order
pub mod Firing
use l.Base.{
  Bool, List, Option, Result, [], err, false, if◌then◌else◌, invalid_argument, leb, ltb, negsuc,
  none, not, ok, pos, some, system_error, true, ℕ, ℤ, ◌%◌, ◌&&◌, ◌*◌, ◌+◌, ◌-◌, ◌==◌, ◌>>=◌, ◌>>◌,
  ◌^◌, ◌||◌, ◌∷◌,
}
use l.Net.System.{Answer, Context, assert_in_loop_thread, eagain, failed, retry, returned}
use l.Lb.LoadBalancer.Admits.{entry}

-- Time points and durations of the clock are numbers of nanoseconds.
pub record Key : Type 0 where
  pub expiration : ℕ
  pub sequence : ℕ

-- `Key::operator<`
unfoldable pub before : Key → Key → Bool
before a b =
    ltb a.expiration b.expiration || ((a.expiration == b.expiration) && ltb a.sequence b.sequence)

-- `callback` names the function that is called. `flag` is the identity of the TimerCancellation
-- that the entry shares with its TimerId: the sequence number that AddTimer gave out with it.
pub record TimerEntry : Type 0 where
  pub interval : ℕ
  pub callback : ℕ
  pub flag : ℕ

abbrev pub Timers : Type 0
Timers = List (Key × TimerEntry)

-- `armed` is what timerfd_settime() was given last: a duration, or `none` that stops it. `reads`
-- counts the calls of Clock::now(). `cancelled` has the flags that are set.
pub record TimerQueue : Type 0 where
  pub next_sequence : ℕ
  pub timers : Timers
  pub cancelled : List ℕ
  pub armed : Option ℕ
  pub reads : ℕ

pub contains : ℕ → List ℕ → Bool
contains x [] = false
contains x (y ∷ ys) = x == y || contains x ys

pub is_cancelled : TimerQueue → ℕ → Bool
is_cancelled q flag = contains flag q.cancelled

-- `map::emplace`, which keeps an entry with an equal key.
pub emplace : Key → TimerEntry → Timers → Timers
emplace key entry [] = (key, entry) ∷ []
emplace key entry ((key', entry') ∷ m) =
    let rest = emplace key entry m in
    if before key key'
    then (key, entry) ∷ (key', entry') ∷ m
    else if before key' key
    then (key', entry') ∷ rest
    else (key', entry') ∷ m

abbrev pub millisecond : ℕ
millisecond = 1000 * 1000

-- `ToTimespec`: the sum of the two parts of the timespec.
pub to_timespec : ℕ → ℕ → ℕ
to_timespec expiration now = if leb expiration now then 1000 else expiration - now

-- `++next_sequence_`, on uint64_t.
abbrev pub next_of : ℕ → ℕ
next_of n = (n + 1) % 2 ^ 64

-- The entries up to `upper_bound(upper)`, and the others.
pub expire : Key → Timers → Timers × Timers
expire upper [] = ([], [])
expire upper ((key, entry) ∷ m) =
    let rest = expire upper m in
    if before upper key then ([], (key, entry) ∷ m) else ((key, entry) ∷ rest.0, rest.1)

-- `call` is what a callback does to the queue, which it may add to and cancel from.
module _ (call : ℕ → TimerQueue → Result TimerQueue) where
  -- The first loop of `HandleRead`, with the flags of the timers that were called.
  pub call_all : Timers → TimerQueue → Result (TimerQueue × List ℕ)
  call_all [] q = ok (q, [])
  call_all ((key, entry) ∷ m) q = if is_cancelled q entry.flag then call_all m q else do
    q' ← call entry.callback q
    (q'', called) ← call_all m q'
    ok (q'', entry.flag ∷ called)

-- The second loop: repeating timers that are not cancelled start again.
pub restart : ℕ → Timers → TimerQueue → TimerQueue
restart now [] q = q
restart now ((key, entry) ∷ m) q =
    if ltb 0 entry.interval && not (is_cancelled q entry.flag)
    then restart now m (record q {
      next_sequence = next_of q.next_sequence;
      timers =
          emplace (record { expiration = now + entry.interval; sequence = next_of q.next_sequence })
            entry q.timers;
    })
    else restart now m q

module _ (clock : ℕ → ℕ) where
  reset_for : TimerQueue → Timers → TimerQueue
  reset_for q [] = record q { armed = none }
  reset_for q ((key, entry) ∷ m) = record q {
    armed = some (to_timespec key.expiration (clock q.reads));
    reads = q.reads + 1;
  }

  -- `ResetTimerFd`, where timerfd_settime() succeeds.
  pub reset_timer_fd : TimerQueue → TimerQueue
  reset_timer_fd q = reset_for q q.timers

  -- `timers_.empty() || Clock::now() + delay < timers_.begin()->first.expiration`, and the number
  -- of clock reads.
  earliest : TimerQueue → ℕ → Timers → Bool × ℕ
  earliest q delay [] = (true, 0)
  earliest q delay ((key, entry) ∷ m) = (ltb (clock q.reads + delay) key.expiration, 1)

  place : TimerQueue → ℕ → ℕ → ℕ → Bool × ℕ → TimerQueue × ℕ
  place q delay interval callback (reset_earliest, reads) =
      let now = clock (q.reads + reads) in
      let sequence = next_of q.next_sequence in
      let key : Key = record { expiration = now + delay; sequence = sequence } in
      let entry : TimerEntry = record {
        interval = interval;
        callback = callback;
        flag = sequence;
      } in
      let q' : TimerQueue = record q {
        next_sequence = sequence;
        timers = emplace key entry q.timers;
        reads = q.reads + reads + 1;
      } in
      ((if reset_earliest then reset_timer_fd q' else q'), sequence)

  -- `AddTimer`, with durations in milliseconds. The second part of the result is the flag of the
  -- TimerId.
  pub add_timer : Context → TimerQueue → ℤ → ℤ → ℕ → Result (TimerQueue × ℕ)
  add_timer k q (pos delay) (pos interval) callback = do
    assert_in_loop_thread k
    ok (
        place q (delay * millisecond) (interval * millisecond) callback
          (earliest q (delay * millisecond) q.timers))
  add_timer k q (pos delay) (negsuc interval) callback = do
    assert_in_loop_thread k
    err invalid_argument
  add_timer k q (negsuc delay) interval callback = do assert_in_loop_thread k; err invalid_argument

module _ (clock : ℕ → ℕ) (call : ℕ → TimerQueue → Result TimerQueue) where
  run_expired : TimerQueue → Timers × Timers → Result (TimerQueue × List ℕ)
  run_expired q (expired, rest) = do
    (q', called) ← call_all call expired (record q { timers = rest; reads = q.reads + 1 })
    ok (
      reset_timer_fd clock (restart (clock q'.reads) expired (record q' { reads = q'.reads + 1 })),
      called,
    )

  -- `HandleRead`. A read() of a timerfd gives its eight bytes or fails.
  pub handle_read : TimerQueue → Answer (Unit {0}) → Result (TimerQueue × List ℕ)
  handle_read q answer = elim (retry answer) [
    | failed e ↦ if e == eagain then ok (q, []) else err (system_error e)
    | returned x ↦
        run_expired q
          (expire (record { expiration = clock q.reads; sequence = 2 ^ 64 - 1 }) q.timers)
  ]
