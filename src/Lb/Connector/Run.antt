-- ===== src/Lb/Connector/Run.antt =====
-- Connector.cpp: Start, and whole runs from it.
use l.Lb.Connector.{
  Attempt, Callback, Connector, State, after_connect, after_socket, attempt, begin_waiting,
  cancelled, complete_success, connecting, failed, failure, idle, start, start_in, succeeded,
  success,
}
use l.Lb.Connector.Once.{
  Done, Event, Sound, Waiting, complete_failure-Done, complete_success-Done, handle, handle-Done,
  handle-Waiting, verdict,
}
use l.Base.{
  ==_iff, Bool, Bool-cases, List, Option, Result, [], ap, arith, err, false, inl, inr, none, ok,
  refl, some, system_error, true, ℕ, ◌==◌, ◌>>=◌, ◌||◌, ◌∷◌, ◌≡◌, ◌≢◌, ◌⊎◌,
}
use l.Net.System.{
  Context, Reply, Works, ealready, einprogress, eintr, eisconn, in_loop_thread-Works, returned,
}
use l.Net.Channel
use l.Net.Socket
use l.Net.Channel.Interest.{Waits, enable_writing-waiting, waiting, waiting-Waits}

-- The events in order, with the callbacks that they lead to.
pub run : Context → Connector → List Event → Result (Connector × List Callback)
run k c [] = ok (c, [])
run k c (e ∷ es) = do
  (c', called) ← handle k c e
  (c'', calls) ← run k c' es
  ok (c'', (elim called [ none ↦ calls | some callback ↦ callback ∷ calls ]))

abbrev pub AllSound : List Event → Type 0
AllSound [] = Unit
AllSound (e ∷ es) = Sound e × AllSound es

module _ (k : Context) (works : Works k) where
  run-Done : (c : Connector) → Done c → (es : List Event) → run k c es ≡ ok (c, [])
  unfolding run
  run-Done c d [] = refl
  run-Done c d (e ∷ es) = rw (handle-Done k works c d e, run-Done c d es) refl

  -- A connector that waits for connect() and gets any events, the first with a getsockopt() that
  -- succeeds, calls one callback, the one that the first event calls for, if epoll_ctl() and
  -- shutdown() succeed; after them it is done: out of epoll's set, with no timer running and no
  -- socket held.
  pub run-once :
      (c : Connector) (w : Waiting c) (e : Event) (es : List Event)
      → Sound e
      → (c' : Connector) × (run k c (e ∷ es) ≡ ok (c', verdict w.fd e ∷ [])) × Done c'
  unfolding run
  run-once c w e es h =
      let (c', p, d) = handle-Waiting k works c w e h in (c', rw (p, run-Done c' d es) refl, d)

-- How Start ends, by what connect() answers.
pub data StartEffect (fd : ℕ) : Option ℕ → Connector → Option Callback → Type 0 where
  at_once :
      {answer : Option ℕ} {c : Connector}
      → (answer ≡ none) ⊎ (answer ≡ some eisconn)
      → Done c
      → StartEffect fd answer c (some (success (Socket.opened fd)))
  later :
      {answer : Option ℕ} {c : Connector} (e : ℕ)
      → answer ≡ some e
      → (e ≡ einprogress) ⊎ (e ≡ eintr) ⊎ (e ≡ ealready)
      → (w : Waiting c) → w.fd ≡ fd
      → StartEffect fd answer c none
  refused :
      {answer : Option ℕ} {c : Connector} (e : ℕ)
      → answer ≡ some e
      → (e ≢ einprogress) × (e ≢ eintr) × (e ≢ ealready) × (e ≢ eisconn)
      → Done c
      → StartEffect fd answer c (some (failure e))

abbrev pub Starts : ℕ → Option ℕ → Attempt → Type 0
Starts fd answer r =
    (c : Connector) × (call : Option Callback) × (r ≡ (c, ok call)) × StartEffect fd answer c call

pending_test : ℕ → Bool
pending_test e = e == einprogress || e == eintr || e == ealready

pending_test-true :
    (e : ℕ) → pending_test e ≡ true → (e ≡ einprogress) ⊎ (e ≡ eintr) ⊎ (e ≡ ealready)
unfolding pending_test
pending_test-true e h = ground arith

pending_test-false :
    (e : ℕ)
    → pending_test e ≡ false
    → (e == eisconn) ≡ false
    → (e ≢ einprogress) × (e ≢ eintr) × (e ≢ ealready) × (e ≢ eisconn)
unfolding pending_test
pending_test-false e h g = ground arith

abbrev begun : Connector → ℕ → Connector
begun c fd = record c { socket = Socket.opened fd; state = connecting }

abbrev pub watched : Connector → ℕ → Connector
watched c fd = record (begun c fd) {
  channel = some (waiting false true (Channel.tie (Channel.create fd)));
  timeout_timer = some false;
}

unfoldable pub watched-Waiting : (c : Connector) (fd : ℕ) → Waiting (watched c fd)
watched-Waiting c fd = record {
  waits = refl;
  fd = fd;
  held = refl;
  channel = waiting false true (Channel.tie (Channel.create fd));
  added = refl;
  interest = waiting-Waits false true (Channel.tie (Channel.create fd));
  timed = refl;
}

module _ (k : Context) (works : Works k) where
  fresh-Waits : (fd : ℕ) → Waits false false (Channel.tie (Channel.create fd))
  unfolding Channel.tie Channel.create
  fresh-Waits fd = record { wanted = refl; registered = refl }

  begin_waiting-watched :
      (c : Connector) (fd : ℕ) → begin_waiting k (begun c fd) fd ≡ (watched c fd, ok none)
  unfolding begin_waiting
  begin_waiting-watched c fd =
      rw
        (
          enable_writing-waiting k works false false (Channel.tie (Channel.create fd))
              (fresh-Waits fd),
          begin_waiting,
        )
        refl

  success-Starts :
      (c : Connector) (fd : ℕ) (answer : Option ℕ)
      → (answer ≡ none) ⊎ (answer ≡ some eisconn)
      → Starts fd answer (attempt (begun c fd) (complete_success k (begun c fd)))
  unfolding attempt
  success-Starts c fd answer h =
      let (c', p, d) = complete_success-Done k works (begun c fd) in
      (c', some (success (Socket.opened fd)), rw p refl, at_once h d)

  after_connect-Starts :
      (c : Connector) (fd : ℕ) (answer : Option ℕ)
      → Starts fd answer (after_connect k (begun c fd) fd answer)
  unfolding after_connect pending_test attempt watched-Waiting
  after_connect-Starts c fd none = success-Starts c fd none (inl refl)
  after_connect-Starts c fd (some e) = elim (Bool-cases (pending_test e)) [
    | inl t ↦ rw t (
      watched c fd,
      none,
      begin_waiting-watched c fd,
      later e refl (pending_test-true e t) (watched-Waiting c fd) refl,
    )
    | inr f ↦ rw f (elim (Bool-cases (e == eisconn)) [
      | inl t ↦ rw t (success-Starts c fd (some e) (inr (ap some ((==_iff e eisconn).0 t))))
      | inr g ↦
          let (c', p, d) = complete_failure-Done k works (begun c fd) e failed refl in
          rw g (c', some (failure e), rw p refl, refused e refl (pending_test-false e f g) d)
    ])
  ]

  start_in-Starts :
      (c : Connector) (fd : ℕ) (answer : Option ℕ) (s : State)
      → s ≡ idle
      → Starts fd answer (start_in k c (returned fd) answer s)
  unfolding start_in after_socket
  start_in-Starts c fd answer idle u = after_connect-Starts c fd answer
  start_in-Starts c fd answer connecting u = cc
  start_in-Starts c fd answer succeeded u = cc
  start_in-Starts c fd answer failed u = cc
  start_in-Starts c fd answer cancelled u = cc

  start_in-no_socket :
      (c : Connector) (e : ℕ) (answer : Option ℕ) (s : State)
      → s ≡ idle
      → start_in k c (Reply.failed e) answer s ≡ (c, err (system_error e))
  unfolding start_in after_socket
  start_in-no_socket c e answer idle u = refl
  start_in-no_socket c e answer connecting u = cc
  start_in-no_socket c e answer succeeded u = cc
  start_in-no_socket c e answer failed u = cc
  start_in-no_socket c e answer cancelled u = cc

  -- Start of an idle connector whose socket() succeeds throws nothing, if epoll_ctl() and
  -- shutdown() succeed: connect() that returns 0 or fails with EISCONN reports the socket at once,
  -- EINPROGRESS, EINTR and EALREADY leave it waiting with epoll and the timer, and any other error
  -- is reported; after a report it is done.
  pub start-Starts :
      (c : Connector) (fd : ℕ) (answer : Option ℕ)
      → c.state ≡ idle
      → Starts fd answer (start k c (returned fd) answer)
  unfolding start
  start-Starts c fd answer u =
      rw (in_loop_thread-Works k works) (start_in-Starts c fd answer c.state u)

  -- If socket() fails Start throws, and the connector stays as it was, with no callback called.
  pub start-no_socket :
      (c : Connector) (e : ℕ) (answer : Option ℕ)
      → c.state ≡ idle
      → start k c (Reply.failed e) answer ≡ (c, err (system_error e))
  unfolding start
  start-no_socket c e answer u =
      rw (in_loop_thread-Works k works) (start_in-no_socket c e answer c.state u)
