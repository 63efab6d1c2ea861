-- ===== src/Lb/Connector/Once.antt =====
-- Connector.cpp: the handlers of a connector that waits, and of one that is done.
use l.Lb.Connector.{
  Callback, Connector, Outcome, State, cancel, cancel_in, cancel_timer, cancelled, complete_failure,
  complete_success, connecting, drop_channel, failed, failure, handle_error, handle_timeout,
  handle_write, idle, is_connecting, remove_channel, succeeded, success,
}
use l.Base.{
  Bool, Bool-cases, Option, ap, false, if◌then◌else◌, inl, inr, none, not, ok, refl, some, true, ℕ,
  ◌==◌, ◌∙◌, ◌≡◌,
}
use l.Net.System.{Context, Reply, Works, assert-Works, ecanceled, econnaborted, etimedout, or_throw}
use l.Net.Epoller.{Channel}
use l.Net.Channel.Interest.{Waits, remove-Works}
use l.Net.Socket.{Socket}
use l.Net.Socket

abbrev pub is_terminal : State → Bool
is_terminal idle = false
is_terminal connecting = false
is_terminal succeeded = true
is_terminal failed = true
is_terminal cancelled = true

-- Waiting for connect() to end: the channel waits for room to write, the timer runs.
pub record Waiting (c : Connector) : Type 0 where
  pub waits : c.state ≡ connecting
  pub fd : ℕ
  pub held : c.socket ≡ Socket.opened fd
  pub channel : Channel
  pub added : c.channel ≡ some channel
  pub interest : Waits false true channel
  pub timed : c.timeout_timer ≡ some false

abbrev pub unregistered : Option Channel → Bool
unregistered none = true
unregistered (some ch) = not ch.added

abbrev pub timer_off : Option Bool → Bool
timer_off none = true
timer_off (some flag) = flag

-- Done: nothing is registered with epoll, no timer can fire, and the socket is gone, moved to the
-- callback or closed.
pub record Done (c : Connector) : Type 0 where
  pub over : is_terminal c.state ≡ true
  pub removed : unregistered c.channel ≡ true
  pub untimed : timer_off c.timeout_timer ≡ true
  pub given_up : c.socket.fd ≡ none

-- The ways in which the loop and the owner reach a connector that has been started.
pub data Event : Type 0 where
  writable broken : Reply ℕ → Event
  timeout cancel_call : Event

unfoldable pub handle : Context → Connector → Event → Outcome
handle k c (writable reply) = handle_write k c reply
handle k c (broken reply) = handle_error k c reply
handle k c timeout = handle_timeout k c
handle k c cancel_call = cancel k c

-- getsockopt(SO_ERROR) succeeds.
abbrev pub Sound : Event → Type 0
Sound (writable (Reply.returned e)) = Unit
Sound (writable (Reply.failed e)) = ⊥
Sound (broken (Reply.returned e)) = Unit
Sound (broken (Reply.failed e)) = ⊥
Sound timeout = Unit
Sound cancel_call = Unit

abbrev ended : Connector → Option Channel → State → Socket → Connector
ended c ch s socket = record c {
  channel = ch;
  timeout_timer = cancel_timer c.timeout_timer;
  state = s;
  socket = socket;
}

cancel_timer-off : (t : Option Bool) → timer_off (cancel_timer t) ≡ true
cancel_timer-off none = refl
cancel_timer-off (some flag) = refl

module _ (k : Context) (works : Works k) where
  drop_channel-Works :
      (ch : Option Channel)
      → (d : Option Channel) × (drop_channel k ch ≡ ok d) × (unregistered d ≡ true)
  unfolding drop_channel
  drop_channel-Works none = (none, refl, refl)
  drop_channel-Works (some ch) = elim (Bool-cases ch.added) [
    | inl t ↦ (some (record ch { added = false }), simp (t, remove-Works k works ch) refl, refl)
    | inr f ↦ (some ch, rw f refl, ap not f)
  ]

  module _ (c : Connector) where
    pub complete_success-Done :
        (c' : Connector) × (complete_success k c ≡ ok (c', some (success c.socket))) × Done c'
    unfolding complete_success remove_channel Socket.empty
    complete_success-Done =
        let (ch, e, u) = drop_channel-Works c.channel in
        (
          ended c ch succeeded Socket.empty,
          rw e refl,
          record {
            over = refl;
            removed = u;
            untimed = cancel_timer-off c.timeout_timer;
            given_up = refl;
          },
        )

    pub complete_failure-Done :
        (number : ℕ) (terminal : State)
        → is_terminal terminal ≡ true
        → (c' : Connector) × (complete_failure k c number terminal ≡ ok (c', some (failure number)))
          × Done c'
    unfolding complete_failure remove_channel Socket.close
    complete_failure-Done number terminal h =
        let (ch, e, u) = drop_channel-Works c.channel in
        (
          ended c ch terminal (Socket.close c.socket),
          rw e refl,
          record {
            over = h;
            removed = u;
            untimed = cancel_timer-off c.timeout_timer;
            given_up = refl;
          },
        )

-- What the first event reports of a connector that waits on descriptor `fd`.
abbrev pub verdict : ℕ → Event → Callback
verdict fd (writable (Reply.returned e)) = if e == 0 then success (Socket.opened fd) else failure e
verdict fd (writable (Reply.failed e)) = failure e
verdict fd (broken (Reply.returned e)) = failure (if e == 0 then econnaborted else e)
verdict fd (broken (Reply.failed e)) = failure e
verdict fd timeout = failure etimedout
verdict fd cancel_call = failure ecanceled

abbrev pub Ends : Outcome → Callback → Type 0
Ends r callback = (c' : Connector) × (r ≡ ok (c', some callback)) × Done c'

module _ (k : Context) (works : Works k) (c : Connector) where
  cancel-connecting :
      (s : State) → s ≡ connecting → cancel_in k c s ≡ complete_failure k c ecanceled cancelled
  unfolding cancel_in
  cancel-connecting idle h = cc
  cancel-connecting connecting h = refl
  cancel-connecting succeeded h = cc
  cancel-connecting failed h = cc
  cancel-connecting cancelled h = cc

  cancel-terminal : (s : State) → is_terminal s ≡ true → cancel_in k c s ≡ ok (c, none)
  unfolding cancel_in
  cancel-terminal idle h = cc
  cancel-terminal connecting h = cc
  cancel-terminal succeeded h = refl
  cancel-terminal failed h = refl
  cancel-terminal cancelled h = refl

  terminal-connecting : (s : State) → is_terminal s ≡ true → is_connecting s ≡ false
  terminal-connecting idle h = cc
  terminal-connecting connecting h = cc
  terminal-connecting succeeded h = refl
  terminal-connecting failed h = refl
  terminal-connecting cancelled h = refl

  succeeds : (w : Waiting c) → Ends (complete_success k c) (success (Socket.opened w.fd))
  succeeds w =
      let (c', e, d) = complete_success-Done k works c in
      (c', e ∙ ap (λ s. ok (c', some (success s))) w.held, d)

  fails :
      (number : ℕ) (terminal : State)
      → is_terminal terminal ≡ true
      → Ends (complete_failure k c number terminal) (failure number)
  fails number terminal h = complete_failure-Done k works c number terminal h

  -- Whatever comes first ends the attempt with the one callback that fits.
  pub handle-Waiting : (w : Waiting c) (e : Event) → Sound e → Ends (handle k c e) (verdict w.fd e)
  unfolding handle handle_write handle_error handle_timeout cancel or_throw
  handle-Waiting w (writable (Reply.returned e)) h =
      rw (ap is_connecting w.waits) (elim (Bool-cases (e == 0)) [
        | inl t ↦ rw t (succeeds w)
        | inr f ↦ rw f (fails e failed refl)
      ])
  handle-Waiting w (writable (Reply.failed e)) h = absurd h
  handle-Waiting w (broken (Reply.returned e)) h =
      rw (ap is_connecting w.waits) (fails (if e == 0 then econnaborted else e) failed refl)
  handle-Waiting w (broken (Reply.failed e)) h = absurd h
  handle-Waiting w timeout h = rw (ap is_connecting w.waits) (fails etimedout failed refl)
  handle-Waiting w cancel_call h =
      rw (assert-Works k works, cancel-connecting c.state w.waits) (fails ecanceled cancelled refl)

  -- Afterwards nothing changes and nothing is called, whatever getsockopt answers.
  pub handle-Done : Done c → (e : Event) → handle k c e ≡ ok (c, none)
  unfolding handle handle_write handle_error handle_timeout cancel
  handle-Done d (writable r) = rw (terminal-connecting c.state d.over) refl
  handle-Done d (broken r) = rw (terminal-connecting c.state d.over) refl
  handle-Done d timeout = rw (terminal-connecting c.state d.over) refl
  handle-Done d cancel_call = rw (assert-Works k works) (cancel-terminal c.state d.over)
