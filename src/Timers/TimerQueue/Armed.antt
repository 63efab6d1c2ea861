-- ===== src/Timers/TimerQueue/Armed.antt =====
-- The descriptor of the tutorial's timer queue is set for the first timer, whatever is added when.
mod Tests
use l.Base.{
  Bool-cases, List, Option, [], ap, arith, false, inl, inr, max, none, refl, some, true, ℕ, ◌+◌,
  ◌-◌, ◌∙◌, ◌∷◌, ◌≡◌, ◌≤◌,
}
use l.Timers.{Timer, re_start, repeats}
use l.Timers.TimerQueue.{
  TimerQueue, add_all, add_timer, before, due, emplace, handle_read, insert, is_first, later,
  reset_timer_fd, reset_timers, restart_active, restarted, run_active, set_first, wait_of,
}
use l.Timers.TimerQueue.Order.{IsOrdered, due-later, emplace-IsOrdered}

-- The time for which the descriptor was set at time `now`, for what expires at `e`.
abbrev pub set_at : ℕ → ℕ → ℕ
set_at now e = now + max 100 (e - now)

-- If there is a timer, the descriptor was set for the first, by its expiration, and not later than
-- at the time `last`.
abbrev pub SetFor : ℕ → List Timer → Option ℕ → Type 0
SetFor last [] armed = Unit
SetFor last (t ∷ ts) armed = (now : ℕ) × (now ≤ last) × (armed ≡ some (set_at now t.expiration))

abbrev pub IsArmed : ℕ → TimerQueue → Type 0
IsArmed last q = IsOrdered q.timers × SetFor last q.timers q.armed

first_SetFor :
    (now : ℕ) (t : Timer) (ts : List Timer)
    → is_first t ts ≡ true
    → SetFor now (emplace t ts) (some (now + wait_of now t))
unfolding emplace is_first before wait_of
first_SetFor now t [] h = (now, omega arith, refl)
first_SetFor now t (u ∷ us) h =
    let e : before t u ≡ true = ground arith in rw e (now, omega arith, refl)

others_SetFor :
    (last now : ℕ) (t : Timer) (ts : List Timer) (armed : Option ℕ)
    → last ≤ now
    → is_first t ts ≡ false
    → SetFor last ts armed
    → SetFor now (emplace t ts) armed
unfolding emplace is_first
others_SetFor last now t [] armed k h s = absurd (ground arith)
others_SetFor last now t (u ∷ us) armed k h (set_time, b, s) =
    let b' : set_time ≤ now = omega (arith, b, k) in
    elim (Bool-cases (before t u)) [
      | inl e ↦
          let same : u.expiration ≡ t.expiration = unfold before in ground arith in
          rw e (set_time, b', s ∙ ap (λ n. some (set_at set_time n)) same)
      | inr e ↦ elim (Bool-cases (before u t)) [
        | inl f ↦ rw (e, f) (set_time, b', s)
        | inr f ↦ rw (e, f) (set_time, b', s)
      ]
    ]

pub add_timer-IsArmed :
    (last now : ℕ) (t : Timer) (q : TimerQueue)
    → last ≤ now
    → IsArmed last q
    → IsArmed now (add_timer now t q)
unfolding add_timer insert reset_timer_fd
add_timer-IsArmed last now t q k (o, s) = elim (Bool-cases (is_first t q.timers)) [
  | inl h ↦ rw h (emplace-IsOrdered t q.timers o, first_SetFor now t q.timers h)
  | inr h ↦ rw h (emplace-IsOrdered t q.timers o, others_SetFor last now t q.timers q.armed k h s)
]

abbrev InOrder : TimerQueue → Type 0
InOrder q = IsOrdered q.timers

add_timer-InOrder : (now : ℕ) (t : Timer) (q : TimerQueue) → InOrder q → InOrder (add_timer now t q)
unfolding add_timer insert reset_timer_fd
add_timer-InOrder now t q o = elim (Bool-cases (is_first t q.timers)) [
  | inl h ↦ rw h (emplace-IsOrdered t q.timers o)
  | inr h ↦ rw h (emplace-IsOrdered t q.timers o)
]

add_all-InOrder : (ts : List (ℕ × Timer)) (q : TimerQueue) → InOrder q → InOrder (add_all ts q)
unfolding add_all
add_all-InOrder [] q o = o
add_all-InOrder ((now, t) ∷ ts) q o =
    add_all-InOrder ts (add_timer now t q) (add_timer-InOrder now t q o)

run_active-InOrder :
    (added : Timer → List (ℕ × Timer)) (ts : List Timer) (q : TimerQueue)
    → InOrder q
    → InOrder (run_active added ts q)
unfolding run_active
run_active-InOrder added [] q o = o
run_active-InOrder added (t ∷ ts) q o =
    run_active-InOrder added ts (add_all (added t) q) (add_all-InOrder (added t) q o)

restarted-InOrder : (now : ℕ) (t : Timer) (q : TimerQueue) → InOrder q → InOrder (restarted now t q)
unfolding restarted insert
restarted-InOrder now t q o = elim (Bool-cases (repeats t)) [
  | inl h ↦ rw h (emplace-IsOrdered (re_start now t) q.timers o)
  | inr h ↦ rw h o
]

restart_active-InOrder :
    (at_time : Timer → ℕ) (ts : List Timer) (q : TimerQueue)
    → InOrder q
    → InOrder (restart_active at_time ts q)
unfolding restart_active
restart_active-InOrder at_time [] q o = o
restart_active-InOrder at_time (t ∷ ts) q o =
    restart_active-InOrder at_time ts (restarted (at_time t) t q)
      (restarted-InOrder (at_time t) t q o)

set_first-IsArmed :
    (now : ℕ) (ts : List Timer) (armed : Option ℕ)
    → IsOrdered ts
    → IsArmed now (set_first now ts (record { timers = ts; armed = armed }))
unfolding set_first reset_timer_fd wait_of
set_first-IsArmed now [] armed o = (tt, tt)
set_first-IsArmed now (t ∷ ts) armed o = (o, (now, omega arith, refl))

handle_read-IsArmed :
    (added : Timer → List (ℕ × Timer)) (now : ℕ) (at_time : Timer → ℕ) (now' : ℕ) (q : TimerQueue)
    → InOrder q
    → IsArmed now' (handle_read added now at_time now' q)
unfolding handle_read reset_timers
handle_read-IsArmed added now at_time now' q o =
    let (_, _, _, left) = due-later now q.timers o in
    let cleared = record q { timers = later now q.timers; armed = none } in
    let ran = run_active added (due now q.timers) cleared in
    let q' = restart_active at_time (due now q.timers) ran in
    set_first-IsArmed now' q'.timers q'.armed (
      restart_active-InOrder at_time (due now q.timers) ran
        (run_active-InOrder added (due now q.timers) cleared left))

-- What may happen to a queue: a timer is added, or the descriptor fires, whose callbacks add
-- timers.
pub data Event : Type 0 where
  adding : ℕ → Timer → Event
  firing : (Timer → List (ℕ × Timer)) → ℕ → (Timer → ℕ) → ℕ → Event

abbrev pub happens : List Event → TimerQueue → TimerQueue
happens [] q = q
happens (adding now t ∷ es) q = happens es (add_timer now t q)
happens (firing added now at_time now' ∷ es) q = happens es (handle_read added now at_time now' q)

-- The time that was read last, the first being `last`.
abbrev pub last_read : ℕ → List Event → ℕ
last_read last [] = last
last_read last (adding now t ∷ es) = last_read now es
last_read last (firing added now at_time now' ∷ es) = last_read now' es

-- A time at which a timer is added is not before the one read last.
abbrev pub Forward : ℕ → List Event → Type 0
Forward last [] = Unit
Forward last (adding now t ∷ es) = (last ≤ now) × Forward now es
Forward last (firing added now at_time now' ∷ es) = Forward now' es

-- From a new queue on, whatever is added and fires, and whatever the callbacks add in their turn,
-- if the clock does not run backwards, the timers are in order, and while there are any the
-- descriptor is set for the first one's expiration, or, if that is later, for 100 microseconds
-- behind a time that is not later than the last reading of the clock.
pub happens-IsArmed :
    (es : List Event) (last : ℕ) (q : TimerQueue)
    → Forward last es
    → IsArmed last q
    → IsArmed (last_read last es) (happens es q)
happens-IsArmed [] last q f h = h
happens-IsArmed (adding now t ∷ es) last q (k, f) h =
    happens-IsArmed es now (add_timer now t q) f (add_timer-IsArmed last now t q k h)
happens-IsArmed (firing added now at_time now' ∷ es) last q f h =
    happens-IsArmed es now' (handle_read added now at_time now' q) f
      (handle_read-IsArmed added now at_time now' q h.0)
