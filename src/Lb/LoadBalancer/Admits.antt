-- ===== src/Lb/LoadBalancer/Admits.antt =====
-- LoadBalancer.cpp: OnNewConnection, when the connector gets a socket and when it gets none.
use l.Lb.LoadBalancer.{
  LoadBalancer, Session, Sessions, admit, advance, after_start, chosen, connect_to, emplace, find,
  on_new_connection, replace, settle,
}
use l.Lb.LoadBalancer.Keeps.{AllOpen, settle-reported}
use l.Base.{
  ==_refl, Bool-cases, Option, ap, arith, false, if◌then◌else◌, inl, inr, length, none, ok, refl,
  some, subst, sym, system_error, true, ℕ, ◌%◌, ◌+◌, ◌==◌, ◌∙◌, ◌∷◌, ◌≡◌,
}
use l.Net.System.{Context, Reply, Works, returned}
use l.Net.Socket
use l.Net.TcpConnection.Reading.{entered, establish-Fresh}
use l.Net.TcpConnection.Opening.{made, made-Fresh}
use l.Lb.Connector.{Connector}
use l.Lb.Connector
use l.Lb.Connector.Run.{start-no_socket}
use l.Lb.ProxySession.{ProxySession}
use l.Lb.ProxySession
use l.Lb.ProxySession.Invariant.{Phase}
use l.Lb.ProxySession.Step.{connect_timeout, start}
use l.Lb.ProxySession.Step.Promises.{Phase-told}
use l.Lb.ProxySession.Step.Served.{create-new, new_session, start-Reaches}

module _ {ℓ} {A : Type ℓ} where
  abbrev pub entry : A → ProxySession → Session A
  entry address s = record { address = address; proxy = s }

  emplace-new :
      (fd : ℕ) (session : Session A) (m : Sessions A)
      → find fd m ≡ none
      → emplace fd session m ≡ (fd, session) ∷ m
  unfolding emplace
  emplace-new fd session m h = rw (h, emplace) refl

  settle-kept :
      (fd : ℕ) (address : A) (s s' : ProxySession) (m : Sessions A)
      → (s'.on_close_calls == s.on_close_calls) ≡ true
      → settle fd s s' ((fd, entry address s) ∷ m) ≡ (fd, entry address s') ∷ m
  unfolding settle replace
  settle-kept fd address s s' m h = rw (h, ==_refl fd) refl

  -- A new session stays in the map, with its address, exactly while it is open.
  abbrev pub Adds : ℕ → A → Sessions A → Sessions A → Type ℓ
  Adds fd address m m' =
      (s : ProxySession) × Phase s × (m' ≡ (if s.closed then m else (fd, entry address s) ∷ m))

  -- The map keeps holding open sessions only.
  pub Adds-AllOpen :
      (fd : ℕ) (address : A) {m m' : Sessions A} → Adds fd address m m' → AllOpen m → AllOpen m'
  Adds-AllOpen fd address {m} (s, p, e) h = elim (Bool-cases s.closed) [
    | inl t ↦ subst AllOpen (sym (e ∙ ap (λ b. if b then m else (fd, entry address s) ∷ m) t)) h
    | inr f ↦
        subst AllOpen (sym (e ∙ ap (λ b. if b then m else (fd, entry address s) ∷ m) f))
          (record { phase = p; unclosed = f }, h)
  ]

  settle-Adds :
      (fd : ℕ) (address : A) (s' : ProxySession) (m : Sessions A)
      → Phase s'
      → Adds fd address m (settle fd (new_session fd) s' ((fd, entry address (new_session fd)) ∷ m))
  settle-Adds fd address s' m p = elim (Bool-cases s'.closed) [
    | inl t ↦ (
      s',
      p,
      settle-reported fd (entry address (new_session fd)) s' m (ground (arith, told, t))
          ∙ sym (ap (λ b. if b then m else (fd, entry address s') ∷ m) t),
    )
    | inr f ↦ (
      s',
      p,
      settle-kept fd address (new_session fd) s' m (ground (arith, told, f))
          ∙ sym (ap (λ b. if b then m else (fd, entry address s') ∷ m) f),
    )
  ]
    where
      told : s'.on_close_calls ≡ (if s'.closed then 1 else 0)
      told = Phase-told p

-- What a Start that finds no socket leaves.
abbrev pub stranded : ℕ → ProxySession
stranded fd = record {
  client = entered (made fd);
  backend = none;
  connector = some (record {
    timeout = connect_timeout;
    state = Connector.idle;
    socket = Socket.empty;
    channel = none;
    timeout_timer = none;
  });
  closed = false;
  on_close_calls = 0;
  keepalives = 0;
}

module _ {ℓ} {A : Type ℓ} (k : Context) (works : Works k) (lb : LoadBalancer A) (fd : ℕ)
    {address : A} (next : chosen lb ≡ some address) (new : find fd lb.sessions ≡ none) where
  pub on_new_connection-Adds :
      (backend_fd : ℕ) (answer : Option ℕ)
      → (lb' : LoadBalancer A) × (on_new_connection k lb fd (returned backend_fd) answer
          ≡ (lb', none))
        × (lb'.next_backend ≡ (lb.next_backend + 1) % length lb.backends)
        × Adds fd address lb.sessions lb'.sessions
  unfolding on_new_connection connect_to admit after_start advance
  on_new_connection-Adds backend_fd answer =
      let (s', p, phase) = start-Reaches k works fd backend_fd answer in
      let m' = settle fd (new_session fd) s' ((fd, entry address (new_session fd)) ∷ lb.sessions) in
      (
        record (advance lb) { sessions = m' },
        rw
            (
              next,
              create-new k works fd,
              p,
              emplace-new fd (entry address (new_session fd)) lb.sessions new,
            )
            refl,
        refl,
        settle-Adds fd address s' lb.sessions phase,
      )

  start-stranded :
      (e : ℕ) (answer : Option ℕ)
      → start k (new_session fd) (Reply.failed e) answer ≡ ok (stranded fd, some (system_error e))
  unfolding start ProxySession.Step.after_start Connector.create
  start-stranded e answer =
      let c : Connector = record {
        timeout = connect_timeout;
        state = Connector.idle;
        socket = Socket.empty;
        channel = none;
        timeout_timer = none;
      } in
      rw
        (
          establish-Fresh (made fd) (made-Fresh fd) k works false,
          start-no_socket k works c e answer refl,
        )
        refl

  -- OnNewConnection of a descriptor that the map does not hold throws if the connector's socket()
  -- fails, and leaves a session in the map that is not closed, has no backend, an idle connector
  -- and a client whose channel is not in epoll's set.
  pub on_new_connection-strands :
      (e : ℕ) (answer : Option ℕ)
      → on_new_connection k lb fd (Reply.failed e) answer ≡ (
        record (advance lb) { sessions = (fd, entry address (stranded fd)) ∷ lb.sessions },
        some (system_error e),
      )
  unfolding on_new_connection connect_to admit after_start advance
  on_new_connection-strands e answer =
      rw
        (
          next,
          create-new k works fd,
          start-stranded e answer,
          emplace-new fd (entry address (new_session fd)) lb.sessions new,
        )
        (ap (λ m. (record (advance lb) { sessions = m }, some (system_error e)))
          (settle-kept fd address (new_session fd) (stranded fd) lb.sessions refl))
