-- ===== src/Tcp/EventLoop.antt =====
-- code/day29/tcp/EventLoop.h and EventLoop.cpp: the functors of a loop and the eventfd that wakes
-- it. A functor is known by a number. The steps of the loop's thread and of the others may stand in
-- any order; a call of QueueOneFunc is two, since it writes to the eventfd behind the mutex.
pub mod Woken
mod Tests
use l.Base.{
  ◌+◌, ◌-◌, Bool, List, Option, [], none, some, false, if◌then◌else◌, true, ℕ, ◌++◌, ◌∷◌, ◌||◌, not,
}

-- Where the loop's thread is: in epoll_wait(), in the handlers of the events, or in `DoToDoList`,
-- before the list is taken and behind that, there also in a functor's call of `QueueOneFunc`,
-- before the write to the eventfd.
pub data Phase : Type 0 where
  polling handling taking calling_functors waking : Phase

-- `woken` is whether the eventfd can be read. `writers` counts the other threads that have put a
-- functor into the list and have not yet written to the eventfd. `functors` are those that
-- `DoToDoList` has taken and not yet called; `called` those that it has called, in turn.
pub record EventLoop : Type 0 where
  pub phase : Phase
  pub to_do_list : List ℕ
  pub functors : List ℕ
  pub called : List ℕ
  pub woken : Bool
  pub writers : ℕ

-- The constructor, at the start of `Loop`.
unfoldable pub new_loop : EventLoop
new_loop = record {
  phase = polling;
  to_do_list = [];
  functors = [];
  called = [];
  woken = false;
  writers = 0;
}

-- `calling_functors_`
unfoldable pub is_calling : Phase → Bool
is_calling polling = false
is_calling handling = false
is_calling taking = true
is_calling calling_functors = true
is_calling waking = true

-- `QueueOneFunc` under the mutex and the test behind it, by the loop's thread or by another.
unfoldable pub push_functor : Bool → ℕ → EventLoop → EventLoop
push_functor true cb l = record l {
  to_do_list = l.to_do_list ++ cb ∷ [];
  phase = if is_calling l.phase then waking else l.phase;
}
push_functor false cb l = record l { to_do_list = l.to_do_list ++ cb ∷ []; writers = l.writers + 1 }

-- Its write to the eventfd.
unfoldable pub write_wakeup : Bool → EventLoop → EventLoop
write_wakeup true l = record l { phase = calling_functors; woken = true }
write_wakeup false l = record l { writers = l.writers - 1; woken = true }

-- `QueueOneFunc` with no step of another thread between its two.
unfoldable pub queue_one_func : Bool → ℕ → EventLoop → EventLoop
queue_one_func in_loop_thread cb l =
    let pushed = push_functor in_loop_thread cb l in
    if not in_loop_thread || is_calling l.phase then write_wakeup in_loop_thread pushed else pushed

-- `RunOneFunc`, with the functor that the caller's own thread runs at once.
unfoldable pub run_one_func : Bool → ℕ → EventLoop → EventLoop × Option ℕ
run_one_func in_loop_thread cb l =
    if in_loop_thread then (l, some cb) else (queue_one_func in_loop_thread cb l, none)

-- `HandleRead`, the callback of the eventfd.
unfoldable pub handle_read : EventLoop → EventLoop
handle_read l = record l { woken = false }

-- The start of `DoToDoList`, the swap under the mutex, one call, and its end.
unfoldable pub begin_to_do : EventLoop → EventLoop
begin_to_do l = record l { phase = taking }

unfoldable pub swap_functors : EventLoop → EventLoop
swap_functors l = record l { phase = calling_functors; functors = l.to_do_list; to_do_list = [] }

unfoldable pub call_first : ℕ → List ℕ → EventLoop → EventLoop
call_first func funcs l = record l { functors = funcs; called = l.called ++ func ∷ [] }

unfoldable pub end_to_do : EventLoop → EventLoop
end_to_do l = record l { phase = polling }
