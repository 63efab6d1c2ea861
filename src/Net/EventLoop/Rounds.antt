-- ===== src/Net/EventLoop/Rounds.antt =====
-- EventLoop.cpp: the order of functors, and the end of the loop.
use l.Net.EventLoop.{
  Action, EventLoop, act, act_all, call_each, loop, queue, queue_in_loop, request_quit, round,
  rounds, run_pending_functors, stop,
}
use l.Base.{
  Bool, List, [], ap, ap₂, append-nil, append_assoc, arith, false, if◌then◌else◌, length,
  length-append, ok, refl, sym, true, ℕ, ◌++◌, ◌+◌, ◌∙◌, ◌∷◌, ◌≡◌, ◌||◌,
}
use l.Net.System.{Context, Works, assert-Works, in_loop_thread-Works}

-- The functors among the calls of the loop, in order.
abbrev pub queued : List Action → List ℕ
queued [] = []
queued (queue f ∷ actions) = f ∷ queued actions
queued (stop ∷ actions) = queued actions

or_true : (b : Bool) → b || true ≡ true
or_true true = refl
or_true false = refl

or_false : (a b : Bool) → a || (b || false) ≡ a || b
or_false true b = refl
or_false false true = refl
or_false false false = refl

or_swap : (a b c : Bool) → a || (b || c) ≡ b || a || c
or_swap true true c = refl
or_swap true false c = refl
or_swap false true c = refl
or_swap false false c = refl

module _ {ℓ} {S : Type ℓ} (k : Context) (works : Works k) (call : ℕ → S → S × List Action) where
  -- The owner after the calls, and the functors that they queue.
  abbrev pub after_calls : List ℕ → S → S
  after_calls [] s = s
  after_calls (f ∷ fs) s = after_calls fs (call f s).0

  abbrev pub queued_by : List ℕ → S → List ℕ
  queued_by [] s = []
  queued_by (f ∷ fs) s = queued (call f s).1 ++ queued_by fs (call f s).0

  record Queues (l : EventLoop) (fs : List ℕ) (l' : EventLoop) : Type 0 where
    in_order : l'.pending ≡ l.pending ++ fs
    woken : l'.wakeups ≡ l.wakeups + length fs

  act_all-Queues :
      (actions : List Action) (l : EventLoop) → Queues l (queued actions) (act_all k l actions)
  unfolding act_all act queue_in_loop request_quit
  act_all-Queues [] l = record { in_order = sym (append-nil l.pending); woken = omega arith }
  act_all-Queues (queue f ∷ actions) l =
      let t = act_all-Queues actions (queue_in_loop l f) in
      record {
        in_order = t.in_order ∙ append_assoc l.pending (f ∷ []) (queued actions);
        woken = omega (arith, t.woken);
      }
  act_all-Queues (stop ∷ actions) l = rw (in_loop_thread-Works k works) (
      let t = act_all-Queues actions (record l { quit = true }) in
      record { in_order = t.in_order; woken = t.woken })

  call_each-Queues :
      (fs : List ℕ) (l : EventLoop) (s : S)
      → Queues l (queued_by fs s) (call_each k call fs l s).0
        × ((call_each k call fs l s).1 ≡ after_calls fs s)
  unfolding call_each
  call_each-Queues [] l s =
      (record { in_order = sym (append-nil l.pending); woken = omega arith }, refl)
  call_each-Queues (f ∷ fs) l s =
      let first = act_all-Queues (call f s).1 l in
      let (t, e) = call_each-Queues fs (act_all k l (call f s).1) (call f s).0 in
      (
        record {
          in_order =
              t.in_order
              ∙ ap (λ p. p ++ queued_by fs (call f s).0) first.in_order
              ∙ append_assoc l.pending (queued (call f s).1) (queued_by fs (call f s).0);
          woken = omega (
            arith,
            t.woken,
            first.woken,
            length-append (queued (call f s).1) (queued_by fs (call f s).0),
          );
        },
        e,
      )

  -- RunPendingFunctors on the loop's thread calls the functors that wait, in their order; those
  -- that they queue wait then, in the order in which they were queued, and have each written to the
  -- eventfd.
  pub run_pending_functors-defers :
      (l : EventLoop) (s : S)
      → ((run_pending_functors k call l s).0.pending ≡ queued_by l.pending s)
        × ((run_pending_functors k call l s).0.wakeups ≡ l.wakeups + length (queued_by l.pending s))
        × ((run_pending_functors k call l s).1 ≡ after_calls l.pending s)
  unfolding run_pending_functors
  run_pending_functors-defers l s =
      let (t, e) =
        call_each-Queues l.pending (record l { pending = []; running_pending_functors = true }) s in
      (t.in_order, t.woken, e)

  quit-stays :
      (more : List (List ℕ)) (l : EventLoop) (s : S)
      → l.quit ≡ true
      → rounds k call more l s ≡ (l, s)
  unfolding rounds
  quit-stays [] l s q = refl
  quit-stays (ready ∷ more) l s q =
      let r = round k call ready l s in ap (λ b. if b then (l, s) else rounds k call more r.0 r.1) q

  last_round :
      (ready : List ℕ) (more : List (List ℕ)) (l : EventLoop) (s : S)
      → l.quit ≡ false
      → (round k call ready l s).0.quit ≡ true
      → rounds k call (ready ∷ more) l s ≡ round k call ready l s
  unfolding rounds
  last_round ready more l s g q =
      let r = round k call ready l s in
      ap (λ b. if b then (l, s) else rounds k call more r.0 r.1) g ∙ quit-stays more r.0 r.1 q

  -- Is one of the calls a call of Quit?
  abbrev pub has_stop : List Action → Bool
  has_stop [] = false
  has_stop (queue f ∷ actions) = has_stop actions
  has_stop (stop ∷ actions) = true

  -- Does one of the functions, called in their order, call Quit?
  abbrev pub stops_in : List ℕ → S → Bool
  stops_in [] s = false
  stops_in (f ∷ fs) s = has_stop (call f s).1 || stops_in fs (call f s).0

  -- The functors that a round calls: those that waited, and those that its handlers queue.
  abbrev pub functors_of : List ℕ → EventLoop → S → List ℕ
  functors_of ready l s = l.pending ++ queued_by ready s

  request_quit-quit : (l : EventLoop) → (request_quit k l).quit ≡ true
  unfolding request_quit
  request_quit-quit l = rw (in_loop_thread-Works k works) refl

  act_all-quit :
      (actions : List Action) (l : EventLoop)
      → (act_all k l actions).quit ≡ has_stop actions || l.quit
  unfolding act_all act queue_in_loop request_quit
  act_all-quit [] l = refl
  act_all-quit (queue f ∷ actions) l = act_all-quit actions (queue_in_loop l f)
  act_all-quit (stop ∷ actions) l =
      act_all-quit actions (request_quit k l)
      ∙ ap (λ b. has_stop actions || b) (request_quit-quit l)
      ∙ or_true (has_stop actions)

  call_each-quit :
      (fs : List ℕ) (l : EventLoop) (s : S)
      → (call_each k call fs l s).0.quit ≡ stops_in fs s || l.quit
  unfolding call_each
  call_each-quit [] l s = refl
  call_each-quit (f ∷ fs) l s =
      call_each-quit fs (act_all k l (call f s).1) (call f s).0
      ∙ ap (λ b. stops_in fs (call f s).0 || b) (act_all-quit (call f s).1 l)
      ∙ or_swap (stops_in fs (call f s).0) (has_stop (call f s).1) l.quit

  pending_quit :
      (l : EventLoop) (s : S)
      → (run_pending_functors k call l s).0.quit ≡ stops_in l.pending s || l.quit
  unfolding run_pending_functors
  pending_quit l s =
      call_each-quit l.pending (record l { pending = []; running_pending_functors = true }) s

  -- What a round makes of the loop and its owner.
  round_lem :
      (ready : List ℕ) (l : EventLoop) (s : S)
      → let functors = functors_of ready l s in
        ((round k call ready l s).0.quit
          ≡ stops_in functors (after_calls ready s) || (stops_in ready s || l.quit))
        × ((round k call ready l s).0.pending ≡ queued_by functors (after_calls ready s))
        × ((round k call ready l s).1 ≡ after_calls functors (after_calls ready s))
  unfolding round
  round_lem ready l s =
      let (first, owner) = call_each-Queues ready l s in
      let l1 : EventLoop = (call_each k call ready l s).0 in
      let s1 : S = (call_each k call ready l s).1 in
      let (waiting, woken, ran) = run_pending_functors-defers l1 s1 in
      (
        pending_quit l1 s1
            ∙ ap₂ (λ fs t. stops_in fs t || l1.quit) first.in_order owner
            ∙ ap (λ b. stops_in (functors_of ready l s) (after_calls ready s) || b)
                (call_each-quit ready l s),
        waiting ∙ ap₂ queued_by first.in_order owner,
        ran ∙ ap₂ after_calls first.in_order owner,
      )

  -- If Quit is called in a round of Loop, by the handlers of the channels that are ready or by the
  -- functors behind them, on the loop's thread and of a loop that neither runs already nor has been
  -- told to quit, the loop ends with that round, whatever is ready later: it has called the
  -- handlers, then all functors that waited and those that the handlers queued, in their order, and
  -- those that the functors queued wait.
  pub loop-stops :
      (ready : List ℕ) (more : List (List ℕ)) (l : EventLoop) (s : S)
      → l.looping ≡ false
      → l.quit ≡ false
      → stops_in (functors_of ready l s) (after_calls ready s) || stops_in ready s ≡ true
      → (l' : EventLoop) × (loop k call (ready ∷ more) l s
          ≡ ok (l', after_calls (functors_of ready l s) (after_calls ready s)))
        × (l'.pending ≡ queued_by (functors_of ready l s) (after_calls ready s))
        × (l'.looping ≡ false)
  unfolding loop
  loop-stops ready more l s h g q =
      let running : EventLoop = record l { looping = true } in
      let (quits, waiting, owner) = round_lem ready running s in
      let r = round k call ready running s in
      let ends : r.0.quit ≡ true =
        quits
        ∙ ap
            (λ b. stops_in (functors_of ready l s) (after_calls ready s) || (stops_in ready s || b))
            g
        ∙ or_false _ _
        ∙ q in
      (
        record (r.0) { looping = false },
        rw (assert-Works k works, h)
            (ap (λ (p : EventLoop × S). ok (record (p.0) { looping = false }, p.1))
                (last_round ready more running s g ends)
              ∙ ap (λ t. ok (record (r.0) { looping = false }, t)) owner),
        waiting,
        refl,
      )
