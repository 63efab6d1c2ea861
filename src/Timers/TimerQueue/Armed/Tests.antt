-- ===== src/Timers/TimerQueue/Armed/Tests.antt =====
-- The tutorial's timer queue on concrete timers.
use l.Base.{arith, List, [], refl, ℕ, ◌*◌, ◌∷◌, ◌≡◌}
use l.Timers.{Timer, add_time}
use l.Timers.TimerQueue.{before, new_queue}
use l.Timers.TimerQueue.Order.{IsOrdered}
use l.Timers.TimerQueue.Armed.{IsArmed, adding, firing, happens, happens-IsArmed}

abbrev soon : Timer
soon = record { address = 16; expiration = 500; interval = 0 }

abbrev repeating : Timer
repeating = record { address = 32; expiration = 400; interval = 2 * 1000 * 1000 }

abbrev added_none : Timer → List (ℕ × Timer)
added_none t = []

happens-IsArmed_example : IsArmed 470 (
    happens
      (adding 0 soon ∷ adding 10 repeating ∷ firing added_none 450 (λ t. 460) 470 ∷ [])
      new_queue)
happens-IsArmed_example =
    happens-IsArmed
      (adding 0 soon ∷ adding 10 repeating ∷ firing added_none 450 (λ t. 460) 470 ∷ []) 0 new_queue
      (omega arith, (omega arith, tt)) (tt, tt)

two-IsOrdered : IsOrdered (repeating ∷ soon ∷ [])
unfolding before
two-IsOrdered = (refl, (tt, tt))

-- Half a second from now is now.
half_second : add_time 1000 500000 ≡ 1000
unfolding add_time
half_second = refl
