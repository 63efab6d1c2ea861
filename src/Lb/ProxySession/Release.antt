-- ===== src/Lb/ProxySession/Release.antt =====
-- ProxySession.cpp: Close, out of any phase that is not closed.
use l.Lb.ProxySession.Invariant.{Begins, BackendClosed, ConnectorDone, sent_on, read_from, Ended}
use l.Lb.ProxySession.{ProxySession, cancel_connector, close, close_backend}
use l.Base.{
  Option, ap, arith, false, inl, inr, none, ok, refl, some, sym, true, ◌++◌, ◌+◌, ◌∙◌, ◌≡◌, ◌≢◌,
  ◌⊎◌,
}
use l.Net.System.{Context, Works}
use l.Net.Socket
use l.Net.TcpConnection.{TcpConnection}
use l.Net.TcpConnection
use l.Net.TcpConnection.Invariant.{Closed, Live}
use l.Net.TcpConnection.Closing.{force_close-Closed, force_close-Live, torn_down, torn_down-Closed}
use l.Lb.Connector.{Connector}
use l.Lb.Connector
use l.Lb.Connector.Once.{Done, Waiting, handle-Waiting}
use l.Lb.Connector.Once

-- What Close finds: nothing that is half closed, and nothing lost or reordered.
abbrev pub BackendHeld : Option TcpConnection → Type 0
BackendHeld none = Unit
BackendHeld (some b) = Live b ⊎ Closed b

abbrev pub ConnectorHeld : Option Connector → Type 0
ConnectorHeld none = Unit
ConnectorHeld (some c) = Waiting c ⊎ Done c

pub record Closable (s : ProxySession) : Type 0 where
  pub unclosed : s.closed ≡ false
  pub uncalled : s.on_close_calls ≡ 0
  pub client_held : Live s.client ⊎ Closed s.client
  pub backend_held : BackendHeld s.backend
  pub connector_held : ConnectorHeld s.connector
  pub upstream : Begins (sent_on s.backend) s.client.socket.received
  pub downstream : Begins s.client.socket.delivered (read_from s.backend)

module _ (k : Context) (works : Works k) where
  abbrev Shuts : TcpConnection → TcpConnection → Type 0
  Shuts c c' =
      Closed c'
      × (c'.socket.received ≡ c.socket.received)
      × (c'.socket.delivered ≡ c.socket.delivered)

  force_close-Shuts :
      (c : TcpConnection)
      → Live c ⊎ Closed c
      → (c' : TcpConnection) × (called : Option TcpConnection.Callback) × (TcpConnection.force_close
            k c
          ≡ ok (c', called))
        × Shuts c c'
  unfolding Socket.close
  force_close-Shuts c (inl l) = (
    torn_down c,
    some TcpConnection.close,
    force_close-Live k works c l,
    (torn_down-Closed c, refl, refl),
  )
  force_close-Shuts c (inr d) = (c, none, force_close-Closed k works c d, (d, refl, refl))

  close_backend-Closed :
      (b : Option TcpConnection)
      → BackendHeld b
      → (b' : Option TcpConnection) × (close_backend k b ≡ ok b')
        × BackendClosed b'
        × (read_from b' ≡ read_from b)
        × (sent_on b' ≡ sent_on b)
        × (b ≢ none → b' ≢ none)
  unfolding close_backend
  close_backend-Closed none h = (none, refl, tt, refl, refl, λ n. n)
  close_backend-Closed (some b) h =
      let (b', called, e, (d, r, t)) = force_close-Shuts b h in
      (some b', rw e refl, d, r, t, λ n e. cc)

  cancel_connector-Done :
      (c : Option Connector)
      → ConnectorHeld c
      → (c' : Option Connector) × (cancel_connector k c ≡ ok c') × ConnectorDone c'
  unfolding cancel_connector Connector.Once.handle
  cancel_connector-Done none h = (none, refl, tt)
  cancel_connector-Done (some c) (inl w) =
      let (c', e, d) = handle-Waiting k works c w Connector.Once.cancel_call tt in
      (some c', rw e refl, d)
  cancel_connector-Done (some c) (inr d) =
      (some c, rw (Connector.Once.handle-Done k works c d Connector.Once.cancel_call) refl, d)

  -- Close closes whatever is open, and tells the owner once.
  pub close-Ended :
      (s : ProxySession)
      → Closable s
      → (s' : ProxySession) × (close k s ≡ ok s')
        × Ended s'
        × (s.backend ≢ none → s'.backend ≢ none)
  unfolding close
  close-Ended s h =
      let (c, p, cd) = cancel_connector-Done s.connector h.connector_held in
      let (client, called, q, (d, r, t)) = force_close-Shuts s.client h.client_held in
      let (b, u, bd, br, bs, bn) = close_backend-Closed s.backend h.backend_held in
      (
        record {
          client = client;
          backend = b;
          connector = c;
          closed = true;
          on_close_calls = s.on_close_calls + 1;
          keepalives = s.keepalives + 1;
        },
        rw (h.unclosed, p, q, u) refl,
        record {
          shut = refl;
          once = omega (arith, h.uncalled);
          client_down = d;
          backend_down = bd;
          connector_done = cd;
          upstream = (h.upstream.0, r ∙ h.upstream.1 ∙ ap (λ l. l ++ h.upstream.0) (sym bs));
          downstream =
              (h.downstream.0, br ∙ h.downstream.1 ∙ ap (λ l. l ++ h.downstream.0) (sym t));
        },
        bn,
      )
