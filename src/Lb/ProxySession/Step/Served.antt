-- ===== src/Lb/ProxySession/Step/Served.antt =====
-- ProxySession.cpp: a session from its creation and `Start` on, through any events.
use l.Lb.ProxySession.Step.{
  AllSound, Event, Started, after_start, connect_timeout, on_connector, run, start,
}
use l.Lb.ProxySession.Step.Connecting.{on_connector-Reaches}
use l.Lb.ProxySession.{ProxySession, create}
use l.Lb.ProxySession.Invariant.{Phase, Ready, Ready-connector, starting}
use l.Lb.ProxySession.Finish.{Reaches}
use l.Base.{List, Option, Result, false, none, ok, refl, some, ℕ, ◌>>=◌, ◌≡◌}
use l.Net.System.{Context, Works, returned}
use l.Net.TcpConnection.Reading.{entered, entered-Live, establish-Fresh}
use l.Net.TcpConnection.Opening.{create-made, fresh_buffer-IsValid, made, made-Fresh}
use l.Net.Socket
use l.Lb.Connector.{Connector, failure, success}
use l.Lb.Connector
use l.Lb.Connector.Run.{StartEffect, at_once, later, refused, start-Starts}
use l.Lb.ProxySession.Step.Every.{run-Reaches}

-- A session on an accepted descriptor, started with a new descriptor for the backend and the
-- answer of connect().
pub opening : Context → ℕ → ℕ → Option ℕ → Result ProxySession
opening k client_fd backend_fd answer = do
  s ← create k (Socket.opened client_fd)
  (s', thrown) ← start k s (returned backend_fd) answer
  ok s'

pub serve : Context → ℕ → ℕ → Option ℕ → List Event → Result ProxySession
serve k client_fd backend_fd answer es = do s ← opening k client_fd backend_fd answer; run k s es

-- What the constructor makes of a socket.
abbrev pub new_session : ℕ → ProxySession
new_session fd = record {
  client = made fd;
  backend = none;
  connector = none;
  closed = false;
  on_close_calls = 0;
  keepalives = 0;
}

pub create-new :
    (k : Context) → Works k → (fd : ℕ) → create k (Socket.opened fd) ≡ ok (new_session fd)
unfolding create
create-new k works fd = rw (create-made k works fd) refl

abbrev accepted : ℕ → ProxySession
accepted fd = record {
  client = entered (made fd);
  backend = none;
  connector = none;
  closed = false;
  on_close_calls = 0;
  keepalives = 0;
}

accepted-Ready : (fd : ℕ) → Ready (accepted fd)
unfolding Socket.opened
accepted-Ready fd = record {
  unclosed = refl;
  uncalled = refl;
  alone = refl;
  client_up = entered-Live (made fd) (made-Fresh fd);
  unread = (refl, refl, refl);
  untouched = (refl, refl, fresh_buffer-IsValid.1, fresh_buffer-IsValid.1);
}

module _ (k : Context) (works : Works k) where
  abbrev pub Starts : Started → Type 0
  Starts r = (s : ProxySession) × (r ≡ ok (s, none)) × Phase s

  -- Whatever connect() answers, the session waits, is joined, or is closed.
  after_start-Starts :
      (fd backend_fd : ℕ) {answer : Option ℕ} (c : Connector) {call : Option Connector.Callback}
      → StartEffect backend_fd answer c call
      → Starts (after_start k (accepted fd) (c, ok call))
  unfolding after_start on_connector
  after_start-Starts fd backend_fd c (at_once e d) =
      let (s, p, q) =
        on_connector-Reaches k works (accepted fd) (accepted-Ready fd) c d backend_fd
          (success (Socket.opened backend_fd)) refl in
      (s, rw p refl, q)
  after_start-Starts fd backend_fd c (later e p q w v) = (
    record (accepted fd) { connector = some c },
    refl,
    starting (record {
      ready = Ready-connector (accepted-Ready fd) (some c);
      connector = c;
      held = refl;
      waiting = w;
    }),
  )
  after_start-Starts fd backend_fd c (refused e p q d) =
      let (s, u, v) =
        on_connector-Reaches k works (accepted fd) (accepted-Ready fd) c d backend_fd (failure e)
          tt in
      (s, rw u refl, v)

  -- Start of a new session throws nothing if socket() succeeds.
  pub start-Reaches :
      (fd backend_fd : ℕ) (answer : Option ℕ)
      → Starts (start k (new_session fd) (returned backend_fd) answer)
  unfolding start Connector.create
  start-Reaches fd backend_fd answer =
      let c : Connector = record {
        timeout = connect_timeout;
        state = Connector.idle;
        socket = Socket.empty;
        channel = none;
        timeout_timer = none;
      } in
      let (c', call, p, effect) = start-Starts k works c backend_fd answer refl in
      rw (establish-Fresh (made fd) (made-Fresh fd) k works false, p)
        (after_start-Starts fd backend_fd c' effect)

  opening-Reaches :
      (fd backend_fd : ℕ) (answer : Option ℕ) → Reaches (opening k fd backend_fd answer)
  unfolding opening
  opening-Reaches fd backend_fd answer =
      let (s, p, h) = start-Reaches fd backend_fd answer in
      (s, rw (create-new k works fd, p) refl, h)

  -- A session on an accepted socket, started with a socket for the backend, goes through any events
  -- without an exception or a call through a null pointer, whatever connect(), read() and send()
  -- answer, if it runs on the loop's thread and epoll_ctl(), shutdown() and getsockopt() succeed.
  -- It then waits for its backend, relays, or is closed, and the invariant of that phase holds.
  pub serve-Phase :
      (client_fd backend_fd : ℕ) (answer : Option ℕ) (es : List Event)
      → AllSound es
      → Reaches (serve k client_fd backend_fd answer es)
  unfolding serve
  serve-Phase client_fd backend_fd answer es h =
      let (s, p, q) = opening-Reaches client_fd backend_fd answer in
      rw p (run-Reaches k works s q es h)
