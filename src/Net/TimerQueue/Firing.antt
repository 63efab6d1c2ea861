-- ===== src/Net/TimerQueue/Firing.antt =====
-- TimerQueue.cpp: what AddTimer puts into the map, and which timers HandleRead calls.
use l.Net.TimerQueue.{
  Key, TimerEntry, TimerQueue, Timers, add_timer, earliest, emplace, is_cancelled, millisecond,
  next_of, place, reset_for, reset_timer_fd,
}
use l.Net.TimerQueue.Order.{
  Holds, Sorted, UpTo, UpTo-more, emplace-Holds, emplace-Sorted, emplace-UpTo,
}
use l.Base.{
  Bool, List, Result, [], arith, false, ok, pos, refl, subst, sym, true, ℕ, ◌*◌, ◌+◌, ◌<◌, ◌^◌, ◌∷◌,
  ◌≡◌,
}
use l.Net.System.{Context, Works, assert-Works}

-- The timers are in order, and new sequence numbers are new.
pub record Ordered (q : TimerQueue) : Type 0 where
  pub sorted : Sorted q.timers
  pub numbered : UpTo q.next_sequence q.timers

-- The flags that are called, out of timers in their order: all but those that are cancelled in the
-- end.
pub data Picks (q : TimerQueue) : Timers → List ℕ → Type 0 where
  none_left : Picks q [] []
  called :
      (key : Key) (entry : TimerEntry) {m : Timers} {flags : List ℕ}
      → Picks q m flags
      → Picks q ((key, entry) ∷ m) (entry.flag ∷ flags)
  passed :
      (key : Key) (entry : TimerEntry) {m : Timers} {flags : List ℕ}
      → is_cancelled q entry.flag ≡ true
      → Picks q m flags
      → Picks q ((key, entry) ∷ m) flags

abbrev pub Uncancelled : TimerQueue → List ℕ → Type 0
Uncancelled q [] = Unit
Uncancelled q (flag ∷ flags) = (is_cancelled q flag ≡ false) × Uncancelled q flags

-- A callback returns, and takes no cancellation back.
abbrev pub Behaves : (ℕ → TimerQueue → Result TimerQueue) → Type 0
Behaves call =
    (label : ℕ) (q : TimerQueue)
    → (q' : TimerQueue) × (call label q ≡ ok q')
      × ((flag : ℕ) → is_cancelled q' flag ≡ false → is_cancelled q flag ≡ false)

module _ (clock : ℕ → ℕ) where
  reset_for-Ordered : (q : TimerQueue) (m : Timers) → Ordered q → Ordered (reset_for clock q m)
  unfolding reset_for
  reset_for-Ordered q [] o = record { sorted = o.sorted; numbered = o.numbered }
  reset_for-Ordered q ((key, entry) ∷ m) o = record { sorted = o.sorted; numbered = o.numbered }

  module _ (q : TimerQueue) (delay interval callback reads : ℕ) (h : q.next_sequence + 1 < 2 ^ 64)
      (o : Ordered q) where
    abbrev key : Key
    key = record {
      expiration = clock (q.reads + reads) + delay;
      sequence = next_of q.next_sequence;
    }

    abbrev entry : TimerEntry
    entry = record { interval = interval; callback = callback; flag = next_of q.next_sequence }

    abbrev placed : TimerQueue
    placed = record q {
      next_sequence = next_of q.next_sequence;
      timers = emplace key entry q.timers;
      reads = q.reads + reads + 1;
    }

    next : next_of q.next_sequence ≡ q.next_sequence + 1
    next = omega (arith, h)

    placed-Ordered : Ordered placed
    placed-Ordered = record {
      sorted =
          emplace-Sorted q.next_sequence key entry q.timers o.numbered (omega (arith, next))
            o.sorted;
      numbered =
          emplace-UpTo (next_of q.next_sequence) key entry q.timers
            (UpTo-more q.next_sequence (next_of q.next_sequence) q.timers (omega (arith, next))
              o.numbered)
            (omega arith);
    }

    place-Ordered : (b : Bool) → Ordered (place clock q delay interval callback (b, reads)).0
    unfolding place reset_timer_fd
    place-Ordered true = reset_for-Ordered placed placed.timers placed-Ordered
    place-Ordered false = placed-Ordered

    reset_for-timers : (m : Timers) → (reset_for clock placed m).timers ≡ placed.timers
    unfolding reset_for
    reset_for-timers [] = refl
    reset_for-timers ((k, e) ∷ m) = refl

    placed-Holds : Holds key entry placed.timers
    placed-Holds = emplace-Holds q.next_sequence key entry q.timers o.numbered (omega (arith, next))

    place-Holds :
        (b : Bool) → Holds key entry (place clock q delay interval callback (b, reads)).0.timers
    unfolding place reset_timer_fd
    place-Holds true = subst (Holds key entry) (sym (reset_for-timers placed.timers)) placed-Holds
    place-Holds false = placed-Holds

  -- AddTimer of durations that are not negative, on the loop's thread and while the sequence
  -- numbers do not wrap, throws nothing and keeps the timers in order; the new timer is among them,
  -- with the next sequence number and the delay after a reading of the clock.
  pub add_timer-Ordered :
      (k : Context)
      → Works k
      → (q : TimerQueue) (delay interval callback : ℕ) → q.next_sequence + 1 < 2 ^ 64
      → Ordered q
      → (q' : TimerQueue) × (reading : ℕ) × (add_timer clock k q (pos delay) (pos interval) callback
          ≡ ok (q', next_of q.next_sequence))
        × Ordered q'
        × Holds
            (record {
              expiration = clock reading + delay * millisecond;
              sequence = next_of q.next_sequence;
            })
            (record {
              interval = interval * millisecond;
              callback = callback;
              flag = next_of q.next_sequence;
            })
            q'.timers
  unfolding add_timer place
  add_timer-Ordered k works q delay interval callback h o =
      let e = earliest clock q (delay * millisecond) q.timers in
      (
        (place clock q (delay * millisecond) (interval * millisecond) callback e).0,
        q.reads + e.1,
        rw (assert-Works k works) refl,
        place-Ordered q (delay * millisecond) (interval * millisecond) callback e.1 h o e.0,
        place-Holds q (delay * millisecond) (interval * millisecond) callback e.1 h o e.0,
      )

-- What is cancelled stays so from `q` to `q'`.
abbrev Keeps : TimerQueue → TimerQueue → Type 0
Keeps q q' = (flag : ℕ) → is_cancelled q' flag ≡ false → is_cancelled q flag ≡ false
