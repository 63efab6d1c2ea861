-- ===== src/Lb/ProxySession/Step/Connecting.antt =====
-- ProxySession.cpp: a session that waits for its backend, whatever the loop brings.
use l.Lb.ProxySession.Step.{
  Event, SoundEvent, backend_broken, backend_does, backend_readable, backend_writable,
  client_broken, client_calls, client_does, client_readable, client_writable, connecting,
  connector_does, no_send, on_backend, on_connecting, on_connector, step, stopped,
}
use l.Lb.ProxySession.Step.Joining.{client_lost-Starting, connected-Reaches, failed-Reaches}
use l.Lb.ProxySession.{ProxySession, close, on_backend_connected}
use l.Lb.ProxySession.Invariant.{Ready, Ready-connector, Starting, starting}
use l.Lb.ProxySession.Finish.{Reaches}
use l.Base.{
  Bool, Result, false, if◌then◌else◌, inl, inr, ok, refl, some, subst, sym, true, ℕ, ◌==◌, ◌≡◌,
}
use l.Net.System.{Context, Reply, Works, returned}
use l.Net.TcpConnection
use l.Net.TcpConnection.Invariant.{nil-pending, pending}
use l.Net.TcpConnection.Closing.{force_close-Live, torn_down}
use l.Net.TcpConnection.Opening.{handle_read-quiet, handle_write-idle}
use l.Net.Socket
use l.Lb.Connector.{Callback, Connector, failure, success}
use l.Lb.Connector
use l.Lb.Connector.Once.{
  Done, Sound, broken, cancel_call, handle, handle-Waiting, timeout, verdict, writable,
}

-- A socket that is reported is the one that the connector has opened.
abbrev pub Reports : ℕ → Callback → Type 0
Reports fd (success socket) = socket ≡ Socket.opened fd
Reports fd (failure e) = Unit

writable-Reports :
    (fd e : ℕ) (b : Bool) → Reports fd (if b then success (Socket.opened fd) else failure e)
writable-Reports fd e true = refl
writable-Reports fd e false = tt

verdict-Reports : (fd : ℕ) (e : Connector.Once.Event) → Sound e → Reports fd (verdict fd e)
verdict-Reports fd (writable (returned e)) h = writable-Reports fd e (e == 0)
verdict-Reports fd (writable (Reply.failed e)) h = absurd h
verdict-Reports fd (broken (returned e)) h = tt
verdict-Reports fd (broken (Reply.failed e)) h = absurd h
verdict-Reports fd timeout h = tt
verdict-Reports fd cancel_call h = tt

module _ (k : Context) (works : Works k) (s : ProxySession) (r : Ready s) where
  -- The connector's report joins the two ends, or closes the session.
  pub on_connector-Reaches :
      (c : Connector)
      → Done c
      → (fd : ℕ) (callback : Callback) → Reports fd callback
      → Reaches (on_connector k (record s { connector = some c }) (some callback))
  unfolding on_connector
  on_connector-Reaches c d fd (success socket) e =
      subst (λ x. Reaches (on_backend_connected k (record s { connector = some c }) x)) (sym e)
        (connected-Reaches k works (record s { connector = some c }) (Ready-connector r (some c))
          fd)
  on_connector-Reaches c d fd (failure e) h = failed-Reaches k works s r c (inr d)

module _ (k : Context) (works : Works k) (s : ProxySession) (st : Starting s) where
  r : Ready s
  r = st.ready

  idle_client : pending s.client ≡ false
  idle_client = nil-pending s.client r.client_up.out_valid r.untouched.3

  unchanged : Reaches (ok s)
  unchanged = (s, refl, starting st)

  no_backend :
      (f : TcpConnection.TcpConnection → Result ProxySession) → Reaches (on_backend s s.backend f)
  unfolding on_backend
  no_backend f = subst (λ x. Reaches (on_backend s x f)) (sym r.alone) unchanged

  report-Reaches :
      (e : Connector.Once.Event) → Sound e → Reaches (connector_does k s (handle k st.connector e))
  unfolding connector_does
  report-Reaches e h =
      let (c', p, d) = handle-Waiting k works st.connector st.waiting e h in
      rw p (
        on_connector-Reaches k works s r c' d st.waiting.fd (verdict st.waiting.fd e)
          (verdict-Reports st.waiting.fd e h))

  client_lost : Reaches (client_does k s (TcpConnection.force_close k s.client) no_send)
  unfolding client_does client_calls
  client_lost = rw (force_close-Live k works s.client r.client_up) (
      subst (λ x. Reaches (close k (record s { client = torn_down s.client; connector = x })))
        (sym st.held) (client_lost-Starting k works s r st.connector (inl st.waiting)))

  given_up : Reaches (close k s)
  given_up =
      subst (λ x. Reaches (close k (record s { connector = x }))) (sym st.held)
        (failed-Reaches k works s r st.connector (inl st.waiting))

  pub step-Starting : (e : Event) → SoundEvent e → Reaches (step k s e)
  unfolding step client_does client_calls on_connecting
  step-Starting (client_readable bytes answer) h =
      rw (handle_read-quiet k s.client r.unread.0 bytes) unchanged
  step-Starting (client_writable answer) h =
      rw (handle_write-idle k s.client idle_client answer) unchanged
  step-Starting client_broken h = client_lost
  step-Starting (backend_readable bytes answer) h =
      no_backend (λ b. backend_does k s (TcpConnection.handle_read k b bytes) answer)
  step-Starting (backend_writable answer) h =
      no_backend (λ b. backend_does k s (TcpConnection.handle_write k b answer) no_send)
  step-Starting backend_broken h =
      no_backend (λ b. backend_does k s (TcpConnection.force_close k b) no_send)
  step-Starting (connecting e) h =
      subst (λ x. Reaches (on_connecting s x (λ c. connector_does k s (handle k c e))))
        (sym st.held) (report-Reaches e h)
  step-Starting stopped h = given_up
