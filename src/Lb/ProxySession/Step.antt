-- ===== src/Lb/ProxySession/Step.antt =====
-- ProxySession.cpp: Start, and what the loop's events make of a session. Each event is one callback
-- of a channel or of the connector's timer, with the answers of the system calls that it makes.
pub mod ClientRead
pub mod ClientWrite
pub mod BackendRead
pub mod BackendWrite
pub mod Promises
pub mod Served
pub mod Every
pub mod Connecting
pub mod Joining
pub mod Over
use l.Base.{Error, List, Option, Result, [], err, false, none, ok, pos, some, ℕ, ℤ, ◌>>=◌, ◌∷◌}
use l.Net.System.{Answer, Context, Reply, eagain, failed, replied}
use l.Net.TcpConnection.{TcpConnection}
use l.Net.TcpConnection
use l.Lb.Connector.{Connector}
use l.Lb.Connector
use l.Lb.Connector.Once
use l.Lb.ProxySession.{
  ProxySession, close, on_backend_connected, on_backend_eof, on_backend_message, on_backend_written,
  on_client_eof, on_client_message, on_client_written,
}

-- The two callbacks that `Start` sets on the connector.
pub on_connector : Context → ProxySession → Option Connector.Callback → Result ProxySession
on_connector k s none = ok s
on_connector k s (some (Connector.success socket)) = on_backend_connected k s socket
on_connector k s (some (Connector.failure e)) = close k s

-- The state that `Start` leaves, and an exception that Connector::Start has thrown through it.
-- `err` is any other exception.
abbrev pub Started : Type 0
Started = Result (ProxySession × Option Error)

unfoldable pub after_start : Context → ProxySession → Connector.Attempt → Started
after_start k s (c, err e) = ok (record s { connector = some c }, some e)
after_start k s (c, ok called) = do
  s' ← on_connector k (record s { connector = some c }) called
  ok (s', none)

-- `std::chrono::seconds(3)`
abbrev pub connect_timeout : ℤ
connect_timeout = pos 3000

-- `Start`, with the reply of socket() and what connect() answers.
unfoldable pub start : Context → ProxySession → Reply ℕ → Option ℕ → Started
start k s socket connect = do
  client ← TcpConnection.establish k s.client false
  c ← Connector.create connect_timeout
  after_start k (record s { client = client }) (Connector.start k c socket connect)

-- The callbacks that `Start` sets on the client. The second answer is that of the send() by which a
-- message is passed on.
pub client_calls :
    Context → ProxySession → Option TcpConnection.Callback → Answer ℕ → Result ProxySession
client_calls k s none answer = ok s
client_calls k s (some TcpConnection.message) answer = on_client_message k s answer
client_calls k s (some TcpConnection.write_complete) answer = on_client_written k s
client_calls k s (some TcpConnection.eof) answer = on_client_eof k s
client_calls k s (some TcpConnection.close) answer = close k s

-- The callbacks that `OnBackendConnected` sets on the backend.
pub backend_calls :
    Context → ProxySession → Option TcpConnection.Callback → Answer ℕ → Result ProxySession
backend_calls k s none answer = ok s
backend_calls k s (some TcpConnection.message) answer = on_backend_message k s answer
backend_calls k s (some TcpConnection.write_complete) answer = on_backend_written k s
backend_calls k s (some TcpConnection.eof) answer = on_backend_eof k s
backend_calls k s (some TcpConnection.close) answer = close k s

pub data Event : Type 0 where
  client_readable backend_readable : Answer (List ℕ) → Answer ℕ → Event
  client_writable backend_writable : Answer ℕ → Event
  client_broken backend_broken : Event
  connecting : Connector.Once.Event → Event
  stopped : Event

-- getsockopt(SO_ERROR) succeeds; nothing else is asked of the events.
abbrev pub SoundEvent : Event → Type 0
SoundEvent (client_readable bytes answer) = Unit
SoundEvent (client_writable answer) = Unit
SoundEvent client_broken = Unit
SoundEvent (backend_readable bytes answer) = Unit
SoundEvent (backend_writable answer) = Unit
SoundEvent backend_broken = Unit
SoundEvent (connecting e) = Connector.Once.Sound e
SoundEvent stopped = Unit

abbrev pub AllSound : List Event → Type 0
AllSound [] = Unit
AllSound (e ∷ es) = SoundEvent e × AllSound es

no_send : Answer ℕ
no_send = replied (failed eagain)

client_does : Context → ProxySession → TcpConnection.Outcome → Answer ℕ → Result ProxySession
client_does k s outcome answer = do
  (client, called) ← outcome
  client_calls k (record s { client = client }) called answer

backend_does : Context → ProxySession → TcpConnection.Outcome → Answer ℕ → Result ProxySession
backend_does k s outcome answer = do
  (b, called) ← outcome
  backend_calls k (record s { backend = some b }) called answer

connector_does : Context → ProxySession → Connector.Outcome → Result ProxySession
connector_does k s outcome = do
  (c, called) ← outcome
  on_connector k (record s { connector = some c }) called

-- An event of an object that is not there cannot occur, and changes nothing.
on_backend :
    ProxySession
    → Option TcpConnection
    → (TcpConnection → Result ProxySession)
    → Result ProxySession
on_backend s none f = ok s
on_backend s (some b) f = f b

on_connecting :
    ProxySession → Option Connector → (Connector → Result ProxySession) → Result ProxySession
on_connecting s none f = ok s
on_connecting s (some c) f = f c

pub step : Context → ProxySession → Event → Result ProxySession
step k s (client_readable bytes answer) =
    client_does k s (TcpConnection.handle_read k s.client bytes) answer
step k s (client_writable answer) =
    client_does k s (TcpConnection.handle_write k s.client answer) no_send
step k s client_broken = client_does k s (TcpConnection.force_close k s.client) no_send
step k s (backend_readable bytes answer) =
    on_backend s s.backend (λ b. backend_does k s (TcpConnection.handle_read k b bytes) answer)
step k s (backend_writable answer) =
    on_backend s s.backend (λ b. backend_does k s (TcpConnection.handle_write k b answer) no_send)
step k s backend_broken =
    on_backend s s.backend (λ b. backend_does k s (TcpConnection.force_close k b) no_send)
step k s (connecting e) =
    on_connecting s s.connector (λ c. connector_does k s (Connector.Once.handle k c e))
step k s stopped = close k s

pub run : Context → ProxySession → List Event → Result ProxySession
run k s [] = ok s
run k s (e ∷ es) = do s' ← step k s e; run k s' es
