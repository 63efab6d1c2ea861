-- ===== src/Lb/ProxySession/Step/Joining.antt =====
-- ProxySession.cpp: OnBackendConnected joins the client and the backend, and a failure closes.
use l.Lb.ProxySession.{ProxySession, close, on_backend_connected}
use l.Lb.ProxySession.Relay.{Joined}
use l.Lb.ProxySession.Invariant.{Begins, Ready, read_from, sent_on}
use l.Lb.ProxySession.Release.{BackendHeld, Closable}
use l.Lb.ProxySession.Finish.{Paired-Relaying, Reaches, close-Reaches}
use l.Base.{
  [], ap, append-nil, ap₂, arith, false, inl, inr, length, none, not, ok, refl, some, subst, sym,
  true, ℕ, ◌++◌, ◌∙◌, ◌≡◌, ◌⊎◌,
}
use l.Net.System.{Context, Works}
use l.Net.TcpConnection.{TcpConnection}
use l.Net.Socket
use l.Net.TcpConnection.Invariant.{
  Closed, Live, nil-pending, pending, start_read-Live, with_reading, with_reading-Live,
}
use l.Net.TcpConnection.Reading.{entered, entered-Live, establish-Fresh}
use l.Net.TcpConnection.Closing.{torn_down, torn_down-Closed}
use l.Net.TcpConnection.Opening.{create-made, fresh_buffer-IsValid, made, made-Fresh}
use l.Lb.Connector.{Connector}
use l.Lb.Connector.Once.{Done, Waiting}

module _ (k : Context) (works : Works k) (s : ProxySession) (r : Ready s) where
  abbrev opened_backend : ℕ → TcpConnection
  opened_backend fd = with_reading true (entered (made fd))

  abbrev heard_client : TcpConnection
  heard_client = with_reading (not s.client.received_eof) s.client

  connected_to : ℕ → ProxySession
  connected_to fd = record s {
    client = heard_client;
    backend = some (opened_backend fd);
    connector = none;
  }

  connected-ok : (fd : ℕ) → on_backend_connected k s (Socket.opened fd) ≡ ok (connected_to fd)
  unfolding on_backend_connected connected_to
  connected-ok fd =
      rw
        (
          r.unclosed,
          create-made k works fd,
          establish-Fresh (made fd) (made-Fresh fd) k works true,
          start_read-Live k works s.client r.client_up,
        )
        refl

  no_bytes_wait : (fd : ℕ) → pending (made fd) ≡ false
  no_bytes_wait fd = nil-pending (made fd) fresh_buffer-IsValid.0 fresh_buffer-IsValid.1

  client_drained : pending s.client ≡ false
  client_drained = nil-pending s.client r.client_up.out_valid r.untouched.3

  connected-Joined : (fd : ℕ) → Joined heard_client (opened_backend fd)
  unfolding Socket.opened
  connected-Joined fd = record {
    source = with_reading-Live s.client (not s.client.received_eof) r.client_up (ground arith);
    sink = with_reading-Live (entered (made fd)) true (entered-Live (made fd) (made-Fresh fd)) refl;
    there = record {
      carried = r.untouched.0 ∙ sym fresh_buffer-IsValid.1;
      reading_rule = ground (arith, no_bytes_wait fd);
      ending = sym r.unread.1;
      bounded = omega (arith, ap length fresh_buffer-IsValid.1);
      passed_on = r.untouched.2;
    };
    back = record {
      carried = sym (ap₂ ◌++◌ r.untouched.1 r.untouched.3);
      reading_rule = ground (arith, client_drained);
      ending = r.unread.2;
      bounded = omega (arith, ap length r.untouched.3);
      passed_on = fresh_buffer-IsValid.1;
    };
  }

  pub connected-Reaches : (fd : ℕ) → Reaches (on_backend_connected k s (Socket.opened fd))
  unfolding connected_to
  connected-Reaches fd = (
    connected_to fd,
    connected-ok fd,
    Paired-Relaying
        (record {
          unclosed = r.unclosed;
          uncalled = r.uncalled;
          held = refl;
          joined = connected-Joined fd;
          unconnecting = refl;
        })
        (ground arith),
  )

  -- Closing before the backend is reached, whether or not the client broke first.
  Ready-Closable :
      (client : TcpConnection)
      → Live client ⊎ Closed client
      → client.socket.delivered ≡ s.client.socket.delivered
      → (c : Connector) → Waiting c ⊎ Done c
      → Closable (record s { client = client; connector = some c })
  Ready-Closable client l e c h = record {
    unclosed = r.unclosed;
    uncalled = r.uncalled;
    client_held = l;
    backend_held = subst BackendHeld (sym r.alone) tt;
    connector_held = h;
    upstream =
        subst (λ x. Begins (sent_on x) client.socket.received) (sym r.alone)
          (client.socket.received, refl);
    downstream =
        subst (λ x. Begins client.socket.delivered (read_from x)) (sym r.alone)
          ([], sym (append-nil client.socket.delivered ∙ e ∙ r.untouched.1));
  }

  pub failed-Reaches :
      (c : Connector) → Waiting c ⊎ Done c → Reaches (close k (record s { connector = some c }))
  failed-Reaches c h =
      close-Reaches k works (record s { connector = some c })
        (Ready-Closable s.client (inl r.client_up) refl c h)

  pub client_lost-Starting :
      (c : Connector)
      → Waiting c ⊎ Done c
      → Reaches (close k (record s { client = torn_down s.client; connector = some c }))
  unfolding Socket.close
  client_lost-Starting c h =
      close-Reaches k works (record s { client = torn_down s.client; connector = some c })
        (Ready-Closable (torn_down s.client) (inr (torn_down-Closed s.client)) refl c h)
