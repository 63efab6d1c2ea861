-- ===== src/Lb/ProxySession/Step/Over.antt =====
-- ProxySession.cpp: a session that is closed, whatever the loop still brings.
use l.Lb.ProxySession.{ProxySession, close}
use l.Lb.ProxySession.Step.{
  Event, backend_broken, backend_calls, backend_does, backend_readable, backend_writable,
  client_broken, client_calls, client_does, client_readable, client_writable, connecting,
  connector_does, no_send, on_backend, on_connecting, on_connector, run, step, stopped,
}
use l.Lb.ProxySession.Invariant.{BackendClosed, ConnectorDone, Ended}
use l.Base.{List, Option, [], none, ok, refl, some, sym, ℕ, ◌∷◌, ◌≡◌}
use l.Net.System.{Answer, Context, Works}
use l.Net.TcpConnection.{TcpConnection}
use l.Net.TcpConnection
use l.Net.TcpConnection.Invariant.{Closed}
use l.Net.TcpConnection.Closing.{force_close-Closed}
use l.Net.TcpConnection.Opening.{handle_read-quiet, handle_write-Closed}
use l.Lb.Connector.{Connector}
use l.Lb.Connector
use l.Lb.Connector.Once.{handle-Done}

module _ (k : Context) (works : Works k) (s : ProxySession) (d : Ended s) where
  -- Putting back the backend or the connector that is there changes nothing.
  backend-over :
      (x : Option TcpConnection)
      → s.backend ≡ x
      → BackendClosed x
      → (f : TcpConnection → TcpConnection.Outcome)
      → ((b : TcpConnection) → Closed b → f b ≡ ok (b, none))
      → (answer : Answer ℕ) → on_backend s x (λ b. backend_does k s (f b) answer) ≡ ok s
  unfolding on_backend backend_does backend_calls
  backend-over none e h f g answer = refl
  backend-over (some b) e h f g answer = rw (g b h) (λ i. ok (record s { backend = sym e i }))

  connector-over :
      (x : Option Connector)
      → s.connector ≡ x
      → ConnectorDone x
      → (e : Connector.Once.Event)
      → on_connecting s x (λ c. connector_does k s (Connector.Once.handle k c e)) ≡ ok s
  unfolding on_connecting connector_does on_connector
  connector-over none q h e = refl
  connector-over (some c) q h e =
      rw (handle-Done k works c h e) (λ i. ok (record s { connector = sym q i }))

  -- No event and no further call of Close changes a closed session, and none calls a callback.
  pub step-Ended : (e : Event) → step k s e ≡ ok s
  unfolding step client_does client_calls close
  step-Ended (client_readable bytes answer) =
      rw (handle_read-quiet k s.client d.client_down.silent bytes) refl
  step-Ended (client_writable answer) =
      rw (handle_write-Closed k s.client d.client_down answer) refl
  step-Ended client_broken = rw (force_close-Closed k works s.client d.client_down) refl
  step-Ended (backend_readable bytes answer) =
      backend-over s.backend refl d.backend_down (λ b. TcpConnection.handle_read k b bytes)
        (λ b h. handle_read-quiet k b h.silent bytes) answer
  step-Ended (backend_writable answer) =
      backend-over s.backend refl d.backend_down (λ b. TcpConnection.handle_write k b answer)
        (λ b h. handle_write-Closed k b h answer) no_send
  step-Ended backend_broken =
      backend-over s.backend refl d.backend_down (TcpConnection.force_close k)
        (force_close-Closed k works) no_send
  step-Ended (connecting e) = connector-over s.connector refl d.connector_done e
  step-Ended stopped = rw d.shut refl

  pub run-Ended : (es : List Event) → run k s es ≡ ok s
  unfolding run
  run-Ended [] = refl
  run-Ended (e ∷ es) = rw (step-Ended e) (run-Ended es)
