-- ===== src/Net/EventLoop/Tests.antt =====
-- Runs of l4lb/src/net/EventLoop.cpp on concrete inputs.
use l.Net.EventLoop.{Action, EventLoop, loop, queue, run_pending_functors, stop}
use l.Net.EventLoop.Rounds.{loop-stops, run_pending_functors-defers}
use l.Base.{List, [], false, ok, refl, suc, zero, ℕ, ◌+◌, ◌∷◌, ◌≡◌}
use l.Net.System.{sound_context, sound_context-Works}

-- A functor queues the next one, and functor 0 stops the loop; the owner counts the calls.
abbrev calls : ℕ → ℕ → ℕ × List Action
calls zero n = (n + 1, stop ∷ [])
calls (suc f) n = (n + 1, queue f ∷ [])

abbrev waiting : EventLoop
waiting = record {
  looping = false;
  quit = false;
  running_pending_functors = false;
  pending = 4 ∷ 0 ∷ 2 ∷ [];
  wakeups = 3;
}

run_pending_functors-defers_example :
    ((run_pending_functors sound_context calls waiting 0).0.pending ≡ 3 ∷ 1 ∷ [])
    × ((run_pending_functors sound_context calls waiting 0).0.wakeups ≡ 5)
    × ((run_pending_functors sound_context calls waiting 0).1 ≡ 3)
run_pending_functors-defers_example =
    run_pending_functors-defers sound_context sound_context-Works calls waiting 0

-- Functor 0, which waits, calls Quit; that which the handler has queued is called too.
loop-stops_example :
    (l' : EventLoop) × (loop sound_context calls ((8 ∷ []) ∷ (5 ∷ 6 ∷ []) ∷ []) waiting 0
      ≡ ok (l', 5))
    × (l'.pending ≡ 3 ∷ 1 ∷ 6 ∷ [])
    × (l'.looping ≡ false)
loop-stops_example =
    loop-stops sound_context sound_context-Works calls (8 ∷ []) ((5 ∷ 6 ∷ []) ∷ []) waiting 0 refl
      refl refl
