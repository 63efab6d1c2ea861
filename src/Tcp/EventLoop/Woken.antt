-- ===== src/Tcp/EventLoop/Woken.antt =====
-- The tutorial's loop: no functor is left waiting while the loop sleeps, and each is called once.
use l.Base.{
  List, [], ap, append-nil, append_assoc, arith, false, inl, inr, refl, subst, sym, true, ℕ, ◌++◌,
  ◌<◌, ◌∙◌, ◌∷◌, ◌≡◌, ◌⊎◌,
}
use l.Tcp.EventLoop.{
  EventLoop, Phase, begin_to_do, call_first, calling_functors, end_to_do, handle_read, handling,
  is_calling, new_loop, polling, push_functor, swap_functors, taking, waking, write_wakeup,
}

-- What a loop has come to when the functors `queued` have been queued, in this order. It leaves
-- epoll_wait() when any descriptor is ready.
pub data Reached : List ℕ → EventLoop → Type 0 where
  begun : Reached [] new_loop
  pushed_elsewhere :
      {queued : List ℕ} {l : EventLoop} (cb : ℕ)
      → Reached queued l
      → Reached (queued ++ cb ∷ []) (push_functor false cb l)
  written_elsewhere :
      {queued : List ℕ} {l : EventLoop}
      → Reached queued l
      → 0 < l.writers
      → Reached queued (write_wakeup false l)
  pushed_by_handler :
      {queued : List ℕ} {l : EventLoop} (cb : ℕ)
      → Reached queued l
      → l.phase ≡ handling
      → Reached (queued ++ cb ∷ []) (push_functor true cb l)
  pushed_by_functor :
      {queued : List ℕ} {l : EventLoop} (cb : ℕ)
      → Reached queued l
      → l.phase ≡ calling_functors
      → Reached (queued ++ cb ∷ []) (push_functor true cb l)
  written_by_functor :
      {queued : List ℕ} {l : EventLoop}
      → Reached queued l
      → l.phase ≡ waking
      → Reached queued (write_wakeup true l)
  returned_from_poll :
      {queued : List ℕ} {l : EventLoop}
      → Reached queued l
      → l.phase ≡ polling
      → Reached queued (record l { phase = handling })
  read :
      {queued : List ℕ} {l : EventLoop}
      → Reached queued l
      → l.phase ≡ handling
      → Reached queued (handle_read l)
  to_do :
      {queued : List ℕ} {l : EventLoop}
      → Reached queued l
      → l.phase ≡ handling
      → Reached queued (begin_to_do l)
  swapped :
      {queued : List ℕ} {l : EventLoop}
      → Reached queued l
      → l.phase ≡ taking
      → Reached queued (swap_functors l)
  called_first :
      {queued funcs : List ℕ} {l : EventLoop} (func : ℕ)
      → Reached queued l
      → l.functors ≡ func ∷ funcs
      → Reached queued (call_first func funcs l)
  done :
      {queued : List ℕ} {l : EventLoop}
      → Reached queued l
      → l.phase ≡ calling_functors
      → l.functors ≡ []
      → Reached queued (end_to_do l)

-- Nothing waits, or the eventfd can be read, or a thread is about to write to it.
abbrev pub Wakes : EventLoop → Type 0
Wakes l = (l.to_do_list ≡ []) ⊎ (l.woken ≡ true) ⊎ (0 < l.writers)

-- While the list has not been taken, the last ones taken are all called. A functor that waits when
-- the list is not going to be taken wakes the loop; one that the thread itself queues is about to.
abbrev pub Settled : Phase → EventLoop → Type 0
Settled polling l = (l.functors ≡ []) × Wakes l
Settled handling l = l.functors ≡ []
Settled taking l = l.functors ≡ []
Settled calling_functors l = Wakes l
Settled waking l = Unit

abbrev pub Holds : List ℕ → EventLoop → Type 0
Holds queued l = Settled l.phase l × (l.called ++ l.functors ++ l.to_do_list ≡ queued)

pushed_Settled :
    (p : Phase) (cb : ℕ) (l : EventLoop) → Settled p l → Settled p (push_functor false cb l)
unfolding push_functor
pushed_Settled polling cb l (f, w) = (f, inr (inr (omega arith)))
pushed_Settled handling cb l s = s
pushed_Settled taking cb l s = s
pushed_Settled calling_functors cb l s = inr (inr (omega arith))
pushed_Settled waking cb l s = tt

written_Settled : (p : Phase) (l : EventLoop) → Settled p l → Settled p (write_wakeup false l)
unfolding write_wakeup
written_Settled polling l (f, w) = (f, inr (inl refl))
written_Settled handling l s = s
written_Settled taking l s = s
written_Settled calling_functors l s = inr (inl refl)
written_Settled waking l s = tt

-- The functors in their order, with one more.
one_more :
    {queued : List ℕ} (cb : ℕ) (l : EventLoop)
    → l.called ++ l.functors ++ l.to_do_list ≡ queued
    → l.called ++ l.functors ++ (l.to_do_list ++ cb ∷ []) ≡ queued ++ cb ∷ []
one_more cb l e =
    sym (append_assoc (l.called ++ l.functors) l.to_do_list (cb ∷ [])) ∙ ap (λ q. q ++ cb ∷ []) e

-- In the phase p the loop is as the phase asks.
in_phase : (l : EventLoop) {p : Phase} → l.phase ≡ p → Settled l.phase l → Settled p l
in_phase l e s = subst (λ p. Settled p l) e s

call_Settled :
    (p : Phase) (func : ℕ) (funcs : List ℕ) (l : EventLoop)
    → l.functors ≡ func ∷ funcs
    → Settled p l
    → Settled p (call_first func funcs l)
unfolding call_first
call_Settled polling func funcs l e (f, w) = absurd (cc)
call_Settled handling func funcs l e f = absurd (cc)
call_Settled taking func funcs l e f = absurd (cc)
call_Settled calling_functors func funcs l e s = s
call_Settled waking func funcs l e s = tt

Reached-Holds : {queued : List ℕ} {l : EventLoop} → Reached queued l → Holds queued l
unfolding push_functor write_wakeup is_calling new_loop handle_read begin_to_do swap_functors
    call_first end_to_do
Reached-Holds begun = ((refl, inl refl), refl)
Reached-Holds (pushed_elsewhere {queued} {l} cb r) =
    let (s, o) = Reached-Holds r in (pushed_Settled l.phase cb l s, one_more cb l o)
Reached-Holds (written_elsewhere {queued} {l} r h) =
    let (s, o) = Reached-Holds r in (written_Settled l.phase l s, o)
Reached-Holds (pushed_by_handler {queued} {l} cb r e) =
    let (s, o) = Reached-Holds r in (rw e (in_phase l e s), one_more cb l o)
Reached-Holds (pushed_by_functor {queued} {l} cb r e) =
    let (s, o) = Reached-Holds r in (rw e tt, one_more cb l o)
Reached-Holds (written_by_functor {queued} {l} r e) =
    let (s, o) = Reached-Holds r in (inr (inl refl), o)
Reached-Holds (returned_from_poll {queued} {l} r e) =
    let (s, o) = Reached-Holds r in let (f, w) = in_phase l e s in (f, o)
Reached-Holds (read {queued} {l} r e) = let (s, o) = Reached-Holds r in (rw e (in_phase l e s), o)
Reached-Holds (to_do {queued} {l} r e) = let (s, o) = Reached-Holds r in (in_phase l e s, o)
Reached-Holds (swapped {queued} {l} r e) =
    let (s, o) = Reached-Holds r in
    (
      inl refl,
      append-nil (l.called ++ l.to_do_list)
          ∙ ap (λ f. f ++ l.to_do_list)
              (sym (append-nil l.called) ∙ ap (◌++◌ l.called) (sym (in_phase l e s)))
          ∙ o,
    )
Reached-Holds (called_first {queued} {funcs} {l} func r e) =
    let (s, o) = Reached-Holds r in
    (
      call_Settled l.phase func funcs l e s,
      ap (λ c. c ++ l.to_do_list)
            (append_assoc l.called (func ∷ []) funcs ∙ ap (◌++◌ l.called) (sym e))
          ∙ o,
    )
Reached-Holds (done {queued} {l} r e f) = let (s, o) = Reached-Holds r in ((f, in_phase l e s), o)

-- Whatever the loop's thread and the others do, in any order: the functors that were called, those
-- that are about to be called, and those that wait in the list, one behind the other, are those
-- that were queued, in their order; and while the loop's thread is in epoll_wait() none is about to
-- be called, and if any wait in the list, the eventfd can be read, so that epoll_wait() returns, or
-- another thread that has queued a functor is about to write to it.
pub Reached-wakes :
    {queued : List ℕ} {l : EventLoop}
    → Reached queued l
    → (l.called ++ l.functors ++ l.to_do_list ≡ queued)
      × (l.phase ≡ polling
          → (l.functors ≡ []) × ((l.to_do_list ≡ []) ⊎ (l.woken ≡ true) ⊎ (0 < l.writers)))
Reached-wakes {queued} {l} r = let (s, o) = Reached-Holds r in (o, λ e. in_phase l e s)
