-- ===== src/Tcp/EventLoop/Tests.antt =====
-- The tutorial's loop: one functor from another thread, one from a functor of its own.
use l.Base.{◌<◌, arith, false, [], refl, true, ◌++◌, ◌∷◌, ◌≡◌, ◌⊎◌}
use l.Tcp.EventLoop.{
  EventLoop, begin_to_do, call_first, end_to_do, handle_read, handling, new_loop, polling,
  push_functor, queue_one_func, write_wakeup, swap_functors, is_calling,
}
use l.Tcp.EventLoop.Woken.{
  Reached, Reached-wakes, begun, called_first, done, pushed_by_functor, pushed_elsewhere,
  written_by_functor, written_elsewhere, read, returned_from_poll, swapped, to_do,
}

abbrev called_one : EventLoop
called_one = call_first 7 [] (
    swap_functors (
      begin_to_do (
        handle_read
          (record (write_wakeup false (push_functor false 7 new_loop)) { phase = handling }))))

-- Another thread has put functor 9 into the list, and has not yet written to the eventfd.
abbrev slept : EventLoop
slept = push_functor false 9 (end_to_do (queue_one_func true 8 called_one))

reached : Reached (7 ∷ 8 ∷ 9 ∷ []) slept
unfolding new_loop push_functor write_wakeup queue_one_func handle_read begin_to_do swap_functors
    call_first end_to_do is_calling
reached = pushed_elsewhere 9 (
    done
      (written_by_functor
        (pushed_by_functor 8
          (called_first 7
            (swapped
              (to_do
                (read
                  (returned_from_poll (written_elsewhere (pushed_elsewhere 7 begun) (omega arith))
                    refl)
                  refl)
                refl)
              refl)
            refl)
          refl)
        refl)
      refl refl)

Reached-wakes_example :
    (slept.called ++ slept.functors ++ slept.to_do_list ≡ 7 ∷ 8 ∷ 9 ∷ [])
    × (slept.phase ≡ polling
        → (slept.functors ≡ [])
          × ((slept.to_do_list ≡ []) ⊎ (slept.woken ≡ true) ⊎ (0 < slept.writers)))
Reached-wakes_example = Reached-wakes reached
