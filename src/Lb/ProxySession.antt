-- ===== src/Lb/ProxySession.antt =====
-- l4lb/src/lb/ProxySession.h and ProxySession.cpp: one client connection and one connection to a
-- backend, and the callbacks that join them.
pub mod Relay
pub mod Invariant
pub mod Release
pub mod Finish
pub mod Step
use l.Base.{
  Bool, List, Option, Result, err, false, if◌then◌else◌, none, not, null_pointer, ok, some, true, ℕ,
  ◌&&◌, ◌+◌, ◌==◌, ◌>>=◌,
}
use l.Net.Buffer.{Buffer}
use l.Net.Buffer
use l.Net.System.{Answer, Context}
use l.Net.Socket.{Socket}
use l.Net.TcpConnection.{TcpConnection}
use l.Net.TcpConnection
use l.Lb.Connector.{Connector}
use l.Lb.Connector

-- `on_close_calls` counts the calls of the callback that the owner has set, and `keepalives` the
-- functors that Close gives to QueueInLoop. The callbacks hold the session weakly; they are run
-- while its owner, or the Close that it has queued, still holds it. The backend's address does not
-- matter here.
pub record ProxySession : Type 0 where
  pub client : TcpConnection
  pub backend : Option TcpConnection
  pub connector : Option Connector
  pub closed : Bool
  pub on_close_calls : ℕ
  pub keepalives : ℕ

-- `ProxySession::ProxySession`
pub create : Context → Socket → Result ProxySession
create k socket = do
  client ← TcpConnection.create k socket
  ok (record {
    client = client;
    backend = none;
    connector = none;
    closed = false;
    on_close_calls = 0;
    keepalives = 0;
  })

cancel_connector : Context → Option Connector → Result (Option Connector)
cancel_connector k none = ok none
cancel_connector k (some c) = do (c', called) ← Connector.cancel k c; ok (some c')

close_backend : Context → Option TcpConnection → Result (Option TcpConnection)
close_backend k none = ok none
close_backend k (some b) = do (b', called) ← TcpConnection.force_close k b; ok (some b')

-- `Close`. It marks the session first, so the callbacks of the connector and of the two
-- connections, which all call Close again, return at once.
pub close : Context → ProxySession → Result ProxySession
close k s = if s.closed then ok s else do
  connector ← cancel_connector k s.connector
  (client, called) ← TcpConnection.force_close k s.client
  backend ← close_backend k s.backend
  ok (record {
    client = client;
    backend = backend;
    connector = connector;
    closed = true;
    on_close_calls = s.on_close_calls + 1;
    keepalives = s.keepalives + 1;
  })

-- Both ends have been read to the end, and no byte waits.
abbrev pub exchanged : TcpConnection → TcpConnection → Bool
exchanged client backend =
    client.received_eof
    && backend.received_eof
    && (Buffer.readable_bytes client.output == 0)
    && (Buffer.readable_bytes backend.output == 0)

check_with : Context → ProxySession → Option TcpConnection → Result ProxySession
check_with k s none = ok s
check_with k s (some b) = if not s.closed && exchanged s.client b then close k s else ok s

-- `CheckFinished`
pub check_finished : Context → ProxySession → Result ProxySession
check_finished k s = check_with k s s.backend

-- The close callback that a call of `Send` may have made, `Close` of the session.
closed_by : Context → Option TcpConnection.Callback → ProxySession → Result ProxySession
closed_by k none s = ok s
closed_by k (some TcpConnection.message) s = ok s
closed_by k (some TcpConnection.write_complete) s = ok s
closed_by k (some TcpConnection.eof) s = ok s
closed_by k (some TcpConnection.close) s = close k s

-- The bytes from `input->Peek()` on, `input->ReadableBytes()` of them.
abbrev pub all_bytes : Buffer → List ℕ
all_bytes b = Buffer.bytes_at b.storage (Buffer.peek b) (Buffer.readable_bytes b)

abbrev pub emptied : TcpConnection → TcpConnection
emptied c = record c { input = Buffer.retrieve_all c.input }

-- `if (!closed_ && backend_->OutputBufferBytes() != 0) client_->StopRead();`
pause_client : Context → ProxySession → TcpConnection → Result ProxySession
pause_client k s b =
    if not s.closed && not (Buffer.readable_bytes b.output == 0)
    then (do client ← TcpConnection.stop_read k s.client; ok (record s { client = client }))
    else ok s

forward_to_backend : Context → ProxySession → Answer ℕ → Option TcpConnection → Result ProxySession
forward_to_backend k s answer none = err null_pointer
forward_to_backend k s answer (some b) = do
  (b', called) ← TcpConnection.send k b (all_bytes s.client.input) answer
  s' ← closed_by k called (record s { backend = some b' })
  pause_client k (record s' { client = emptied s'.client }) b'

-- `OnClientMessage`, with the answer of the send() that it may make.
pub on_client_message : Context → ProxySession → Answer ℕ → Result ProxySession
on_client_message k s answer = if s.closed then ok s else forward_to_backend k s answer s.backend

pause_backend : Context → ProxySession → TcpConnection → Result ProxySession
pause_backend k s b =
    if not s.closed && not (Buffer.readable_bytes s.client.output == 0)
    then (do b' ← TcpConnection.stop_read k b; ok (record s { backend = some b' }))
    else ok s

backend_emptied : Context → ProxySession → Option TcpConnection → Result ProxySession
backend_emptied k s none = err null_pointer
backend_emptied k s (some b) = pause_backend k (record s { backend = some (emptied b) }) (emptied b)

forward_to_client : Context → ProxySession → Answer ℕ → Option TcpConnection → Result ProxySession
forward_to_client k s answer none = err null_pointer
forward_to_client k s answer (some b) = do
  (client, called) ← TcpConnection.send k s.client (all_bytes b.input) answer
  s' ← closed_by k called (record s { client = client })
  backend_emptied k s' s'.backend

-- `OnBackendMessage`
pub on_backend_message : Context → ProxySession → Answer ℕ → Result ProxySession
on_backend_message k s answer = if s.closed then ok s else forward_to_client k s answer s.backend

end_backend : Context → ProxySession → Option TcpConnection → Result ProxySession
end_backend k s none = err null_pointer
end_backend k s (some b) = do
  b' ← TcpConnection.shutdown_write k b
  check_finished k (record s { backend = some b' })

-- `OnClientEof`
pub on_client_eof : Context → ProxySession → Result ProxySession
on_client_eof k s = if s.closed then ok s else end_backend k s s.backend

-- `OnBackendEof`
pub on_backend_eof : Context → ProxySession → Result ProxySession
on_backend_eof k s = if s.closed then ok s else do
  client ← TcpConnection.shutdown_write k s.client
  check_finished k (record s { client = client })

resume_backend : Context → ProxySession → Option TcpConnection → Result ProxySession
resume_backend k s none = ok s
resume_backend k s (some b) =
    if not s.closed
    then (do b' ← TcpConnection.start_read k b; ok (record s { backend = some b' }))
    else ok s

-- The write-complete callback of the client, which `Start` sets.
pub on_client_written : Context → ProxySession → Result ProxySession
on_client_written k s = do s' ← resume_backend k s s.backend; check_finished k s'

-- The write-complete callback of the backend, which `OnBackendConnected` sets.
pub on_backend_written : Context → ProxySession → Result ProxySession
on_backend_written k s = do
  s' ←
      (if not s.closed
        then (do client ← TcpConnection.start_read k s.client; ok (record s { client = client }))
        else ok s)
  check_finished k s'

-- `OnBackendConnected`
pub on_backend_connected : Context → ProxySession → Socket → Result ProxySession
on_backend_connected k s socket = if s.closed then ok s else do
  b ← TcpConnection.create k socket
  b' ← TcpConnection.establish k b true
  client ← TcpConnection.start_read k s.client
  ok (record s { client = client; backend = some b'; connector = none })
