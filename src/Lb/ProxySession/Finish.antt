-- ===== src/Lb/ProxySession/Finish.antt =====
-- ProxySession.cpp: CheckFinished, and closing an exchange that runs.
use l.Lb.ProxySession.{ProxySession, check_finished, check_with, close, exchanged}
use l.Lb.ProxySession.Relay.{Joined}
use l.Lb.ProxySession.Invariant.{
  Begins, Phase, Ready, Relaying, finished, read_from, relaying, sent_on, starting,
}
use l.Lb.ProxySession.Release.{BackendHeld, Closable, ConnectorHeld, close-Ended}
use l.Lb.Connector.{Connector}
use l.Lb.Connector.Once.{Waiting}
use l.Base.{
  Bool-cases, Result, [], append-nil, arith, false, inl, inr, none, not, ok, refl, some, subst, sym,
  true, ◌&&◌, ◌∙◌, ◌≡◌,
}
use l.Net.Buffer
use l.Net.Socket
use l.Net.System.{Context, Works}
use l.Net.TcpConnection.{TcpConnection}
use l.Net.TcpConnection.Closing.{torn_down, torn_down-Closed}

abbrev pub Reaches : Result ProxySession → Type 0
Reaches r = (s : ProxySession) × (r ≡ ok s) × Phase s

-- The two ends are joined; the exchange may be finished.
pub record Paired (s : ProxySession) (b : TcpConnection) : Type 0 where
  pub unclosed : s.closed ≡ false
  pub uncalled : s.on_close_calls ≡ 0
  pub held : s.backend ≡ some b
  pub joined : Joined s.client b
  pub unconnecting : s.connector ≡ none

pub Relaying-Paired : {s : ProxySession} (r : Relaying s) → Paired s r.backend
Relaying-Paired r = record {
  unclosed = r.unclosed;
  uncalled = r.uncalled;
  held = r.held;
  joined = r.joined;
  unconnecting = r.unconnecting;
}

pub Paired-Relaying :
    {s : ProxySession} {b : TcpConnection} → Paired s b → exchanged s.client b ≡ false → Phase s
Paired-Relaying {s} {b} p h = relaying (record {
  unclosed = p.unclosed;
  uncalled = p.uncalled;
  backend = b;
  held = p.held;
  joined = p.joined;
  unfinished = h;
  unconnecting = p.unconnecting;
})

pub Paired-Closable : {s : ProxySession} {b : TcpConnection} → Paired s b → Closable s
Paired-Closable {s} {b} p = record {
  unclosed = p.unclosed;
  uncalled = p.uncalled;
  client_held = inl p.joined.source;
  backend_held = subst BackendHeld (sym p.held) (inl p.joined.sink);
  connector_held = subst ConnectorHeld (sym p.unconnecting) tt;
  upstream =
      subst (λ x. Begins (sent_on x) s.client.socket.received) (sym p.held)
        (Buffer.contents b.output, p.joined.there.carried);
  downstream =
      subst (λ x. Begins s.client.socket.delivered (read_from x)) (sym p.held)
        (Buffer.contents s.client.output, p.joined.back.carried);
}

abbrev pub with_ends : ProxySession → TcpConnection → TcpConnection → ProxySession
with_ends s a b = record s { client = a; backend = some b }

pub with_ends-Paired :
    {s : ProxySession}
    → Relaying s
    → (a b : TcpConnection) → Joined a b
    → Paired (with_ends s a b) b
with_ends-Paired r a b j = record {
  unclosed = r.unclosed;
  uncalled = r.uncalled;
  held = refl;
  joined = j;
  unconnecting = r.unconnecting;
}

pub client-Paired :
    {s : ProxySession} (r : Relaying s) (a : TcpConnection)
    → Joined a r.backend
    → Paired (record s { client = a }) r.backend
client-Paired r a j = record {
  unclosed = r.unclosed;
  uncalled = r.uncalled;
  held = r.held;
  joined = j;
  unconnecting = r.unconnecting;
}

-- One of the two connections breaks.
client_lost-Closable :
    {s : ProxySession} → Relaying s → Closable (record s { client = torn_down s.client })
unfolding Socket.close
client_lost-Closable {s} r = record {
  unclosed = r.unclosed;
  uncalled = r.uncalled;
  client_held = inr (torn_down-Closed s.client);
  backend_held = closable.backend_held;
  connector_held = closable.connector_held;
  upstream = closable.upstream;
  downstream = closable.downstream;
}
  where
    closable : Closable s
    closable = Paired-Closable (Relaying-Paired r)

backend_lost-Closable :
    {s : ProxySession} (r : Relaying s)
    → Closable (record s { backend = some (torn_down r.backend) })
unfolding Socket.close
backend_lost-Closable {s} r = record {
  unclosed = r.unclosed;
  uncalled = r.uncalled;
  client_held = inl r.joined.source;
  backend_held = inr (torn_down-Closed r.backend);
  connector_held = subst ConnectorHeld (sym r.unconnecting) tt;
  upstream = (Buffer.contents r.backend.output, r.joined.there.carried);
  downstream = (Buffer.contents s.client.output, r.joined.back.carried);
}

pub Ready-Closable :
    {s : ProxySession} {c : Connector} → Ready s → s.connector ≡ some c → Waiting c → Closable s
Ready-Closable {s} {c} r e w = record {
  unclosed = r.unclosed;
  uncalled = r.uncalled;
  client_held = inl r.client_up;
  backend_held = subst BackendHeld (sym r.alone) tt;
  connector_held = subst ConnectorHeld (sym e) (inl w);
  upstream =
      subst (λ x. Begins (sent_on x) s.client.socket.received) (sym r.alone)
        (s.client.socket.received, refl);
  downstream =
      subst (λ x. Begins s.client.socket.delivered (read_from x)) (sym r.alone)
        ([], sym (append-nil s.client.socket.delivered ∙ r.untouched.1));
}

-- What is not closed can be closed.
pub Phase-Closable : {s : ProxySession} → Phase s → s.closed ≡ false → Closable s
Phase-Closable (starting st) h = Ready-Closable st.ready st.held st.waiting
Phase-Closable (relaying r) h = Paired-Closable (Relaying-Paired r)
Phase-Closable (finished d) h = cc (d.shut)

module _ (k : Context) (works : Works k) where
  pub close-Reaches : (s : ProxySession) → Closable s → Reaches (close k s)
  close-Reaches s h = let (s', e, d, n) = close-Ended k works s h in (s', e, finished d)

  check_with-Reaches :
      (s : ProxySession) (b : TcpConnection) → Paired s b → Reaches (check_with k s (some b))
  unfolding check_with
  check_with-Reaches s b p = elim (Bool-cases (exchanged s.client b)) [
    | inl t ↦
        let go : (not s.closed && exchanged s.client b) ≡ true = ground (arith, t, p.unclosed) in
        rw go (close-Reaches s (Paired-Closable p))
    | inr f ↦
        let stay : (not s.closed && exchanged s.client b) ≡ false = ground (arith, f) in
        rw stay (s, refl, Paired-Relaying p f)
  ]

  -- CheckFinished goes on with the exchange, or closes it when both streams have ended and nothing
  -- waits.
  pub check_finished-Reaches :
      (s : ProxySession) (b : TcpConnection) → Paired s b → Reaches (check_finished k s)
  unfolding check_finished
  check_finished-Reaches s b p =
      subst (λ x. Reaches (check_with k s x)) (sym p.held) (check_with-Reaches s b p)

  pub client_lost-Reaches :
      {s : ProxySession} → Relaying s → Reaches (close k (record s { client = torn_down s.client }))
  client_lost-Reaches {s} r =
      close-Reaches (record s { client = torn_down s.client }) (client_lost-Closable r)

  pub backend_lost-Reaches :
      {s : ProxySession} (r : Relaying s)
      → Reaches (close k (record s { backend = some (torn_down r.backend) }))
  backend_lost-Reaches {s} r =
      close-Reaches (record s { backend = some (torn_down r.backend) }) (backend_lost-Closable r)
