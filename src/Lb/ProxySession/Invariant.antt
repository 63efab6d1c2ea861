-- ===== src/Lb/ProxySession/Invariant.antt =====
-- ProxySession.cpp: the three phases of a session.
use l.Lb.ProxySession.{ProxySession, emptied, exchanged}
use l.Lb.ProxySession.Relay.{Joined}
use l.Base.{List, Option, [], false, none, some, subst, true, ℕ, ◌++◌, ◌≡◌}
use l.Net.Buffer
use l.Net.TcpConnection.{TcpConnection}
use l.Net.TcpConnection.Invariant.{Closed, Live}
use l.Lb.Connector.{Connector}
use l.Lb.Connector.Once.{Done, Waiting}

-- `ys` begins with `xs`.
abbrev pub Begins : List ℕ → List ℕ → Type 0
Begins xs ys = (rest : List ℕ) × (ys ≡ xs ++ rest)

-- Before the backend is reached: the client is held but not read, and nothing has happened to it.
pub record Ready (s : ProxySession) : Type 0 where
  pub unclosed : s.closed ≡ false
  pub uncalled : s.on_close_calls ≡ 0
  pub alone : s.backend ≡ none
  pub client_up : Live s.client
  pub unread :
      (s.client.reading ≡ false)
      × (s.client.received_eof ≡ false)
      × (s.client.shutdown_requested ≡ false)
  pub untouched :
      (s.client.socket.received ≡ [])
      × (s.client.socket.delivered ≡ [])
      × (Buffer.contents s.client.input ≡ [])
      × (Buffer.contents s.client.output ≡ [])

-- The same, while a connector waits for the backend.
pub record Starting (s : ProxySession) : Type 0 where
  pub ready : Ready s
  pub connector : Connector
  pub held : s.connector ≡ some connector
  pub waiting : Waiting connector

pub Ready-connector :
    {s : ProxySession} → Ready s → (x : Option Connector) → Ready (record s { connector = x })
Ready-connector r x = record {
  unclosed = r.unclosed;
  uncalled = r.uncalled;
  alone = r.alone;
  client_up = r.client_up;
  unread = r.unread;
  untouched = r.untouched;
}

-- The two ends are joined, and the exchange is not finished.
pub record Relaying (s : ProxySession) : Type 0 where
  pub unclosed : s.closed ≡ false
  pub uncalled : s.on_close_calls ≡ 0
  pub backend : TcpConnection
  pub held : s.backend ≡ some backend
  pub joined : Joined s.client backend
  pub unfinished : exchanged s.client backend ≡ false
  pub unconnecting : s.connector ≡ none

abbrev pub BackendClosed : Option TcpConnection → Type 0
BackendClosed none = Unit
BackendClosed (some b) = Closed b

abbrev pub ConnectorDone : Option Connector → Type 0
ConnectorDone none = Unit
ConnectorDone (some c) = Done c

abbrev pub sent_on : Option TcpConnection → List ℕ
sent_on none = []
sent_on (some b) = b.socket.delivered

abbrev pub read_from : Option TcpConnection → List ℕ
read_from none = []
read_from (some b) = b.socket.received

-- Closed: both connections and the connector are, the owner has been told once, and what went out
-- on either side is the beginning of what came in on the other.
pub record Ended (s : ProxySession) : Type 0 where
  pub shut : s.closed ≡ true
  pub once : s.on_close_calls ≡ 1
  pub client_down : Closed s.client
  pub backend_down : BackendClosed s.backend
  pub connector_done : ConnectorDone s.connector
  pub upstream : Begins (sent_on s.backend) s.client.socket.received
  pub downstream : Begins s.client.socket.delivered (read_from s.backend)

-- Emptying the input of a closed client changes none of this.
pub Ended-emptied : {s : ProxySession} → Ended s → Ended (record s { client = emptied s.client })
Ended-emptied d = record {
  shut = d.shut;
  once = d.once;
  client_down = record {
    down = d.client_down.down;
    silent = d.client_down.silent;
    removed = d.client_down.removed;
    released = d.client_down.released;
  };
  backend_down = d.backend_down;
  connector_done = d.connector_done;
  upstream = d.upstream;
  downstream = d.downstream;
}

pub Ended-backend_emptied :
    {s : ProxySession}
    → Ended s
    → (b : TcpConnection) → s.backend ≡ some b
    → Ended (record s { backend = some (emptied b) })
Ended-backend_emptied {s} d b e = record {
  shut = d.shut;
  once = d.once;
  client_down = d.client_down;
  backend_down = record {
    down = down.down;
    silent = down.silent;
    removed = down.removed;
    released = down.released;
  };
  connector_done = d.connector_done;
  upstream = subst (λ x. Begins (sent_on x) s.client.socket.received) e d.upstream;
  downstream = subst (λ x. Begins s.client.socket.delivered (read_from x)) e d.downstream;
}
  where
    down : Closed b
    down = subst BackendClosed e d.backend_down

pub data Phase (s : ProxySession) : Type 0 where
  starting : Starting s → Phase s
  relaying : Relaying s → Phase s
  finished : Ended s → Phase s
