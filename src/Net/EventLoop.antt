-- ===== src/Net/EventLoop.antt =====
-- l4lb/src/net/EventLoop.h and EventLoop.cpp: the rounds of the loop and its queue of functors.
pub mod Rounds
mod Tests
use l.Base.{
  Bool, List, Result, [], err, false, if◌then◌else◌, logic_error, not, ok, system_error, true, ℕ,
  ◌++◌, ◌+◌, ◌==◌, ◌>>◌, ◌∷◌,
}
use l.Net.System.{
  Context, Reply, assert_in_loop_thread, eagain, eintr, failed, is_in_loop_thread, returned,
}

-- Functors are named by numbers. `wakeups` counts the writes to the eventfd.
pub record EventLoop : Type 0 where
  pub looping : Bool
  pub quit : Bool
  pub running_pending_functors : Bool
  pub pending : List ℕ
  pub wakeups : ℕ

-- What a callback or a functor does to the loop: QueueInLoop, or Quit on the loop's thread.
pub data Action : Type 0 where
  queue : ℕ → Action
  stop : Action

-- `QueueInLoop`, where the write to the eventfd succeeds.
unfoldable pub queue_in_loop : EventLoop → ℕ → EventLoop
queue_in_loop l f = record l { pending = l.pending ++ (f ∷ []); wakeups = l.wakeups + 1 }

-- `Quit`
unfoldable pub request_quit : Context → EventLoop → EventLoop
request_quit k l =
    if not (is_in_loop_thread k)
    then record l { quit = true; wakeups = l.wakeups + 1 }
    else record l { quit = true }

unfoldable pub act : Context → EventLoop → Action → EventLoop
act k l (queue f) = queue_in_loop l f
act k l stop = request_quit k l

unfoldable pub act_all : Context → EventLoop → List Action → EventLoop
act_all k l [] = l
act_all k l (a ∷ more) = act_all k (act k l a) more

-- The owner's state, what an event and a functor do to it, and which calls of the loop they make.
module _ {ℓ} {S : Type ℓ} (k : Context) (call : ℕ → S → S × List Action) where
  -- `RunInLoop`
  pub run_in_loop : EventLoop → S → ℕ → EventLoop × S
  run_in_loop l s f =
      if is_in_loop_thread k
      then (act_all k l (call f s).1, (call f s).0)
      else (queue_in_loop l f, s)

  -- Calls in their order; both the handlers of ready channels and the functors are called so.
  unfoldable pub call_each : List ℕ → EventLoop → S → EventLoop × S
  call_each [] l s = (l, s)
  call_each (f ∷ fs) l s = call_each fs (act_all k l (call f s).1) (call f s).0

  -- `RunPendingFunctors`: the queue is taken away before the first call.
  unfoldable pub run_pending_functors : EventLoop → S → EventLoop × S
  run_pending_functors l s =
      let (l', s') =
        call_each l.pending (record l { pending = []; running_pending_functors = true }) s in
      (record l' { running_pending_functors = false }, s')

  unfoldable pub round : List ℕ → EventLoop → S → EventLoop × S
  round ready l s = let (l', s') = call_each ready l s in run_pending_functors l' s'

  -- The rounds of `Loop`, by the channels that Poll finds ready in each. The list may end before
  -- Quit is called, which stands for a Poll that does not return.
  pub rounds : List (List ℕ) → EventLoop → S → EventLoop × S
  rounds [] l s = (l, s)
  rounds (ready ∷ more) l s =
      let next = round ready l s in
      let rest = rounds more next.0 next.1 in if l.quit then (l, s) else rest

  -- `Loop`
  pub loop : List (List ℕ) → EventLoop → S → Result (EventLoop × S)
  loop polls l s = do
    assert_in_loop_thread k
    if l.looping
        then err logic_error
        else (let (l', s') = rounds polls (record l { looping = true }) s in
            ok (record l' { looping = false }, s'))

-- `HandleWakeup`: the reads until one fails with EAGAIN, which stands behind the last answer.
pub handle_wakeup : List (Reply ℕ) → Result (Unit {0})
handle_wakeup [] = ok tt
handle_wakeup (returned n ∷ rest) = let next = handle_wakeup rest in if n == 8 then next else ok tt
handle_wakeup (failed e ∷ rest) =
    let next = handle_wakeup rest in
    if e == eintr then next else if e == eagain then ok tt else err (system_error e)
