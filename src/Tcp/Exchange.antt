-- ===== src/Tcp/Exchange.antt =====
-- The tutorial's connection and its HTTP server together: TcpConnection::HandleMessage with
-- HttpServer::onMessage as its callback (code/day29/tcp/TcpConnection.cpp,
-- code/day29/http/HttpServer.cpp).
pub mod Messages
mod Tests
use l.Base.{
  Bool, Bytes, List, Result, [], false, if◌then◌else◌, ltb, negsuc, ok, pos, true, ℕ, ℤ, ◌*◌, ◌>>=◌,
  ◌∷◌,
}
use l.Net.System.{Reply, eagain, failed}
use l.Timers.{add_time, k_microsecond2_second}
use l.Http.HttpServer.{HttpServer, on_message}
use l.Http.HttpServer.Upload
use l.Http.HttpServer.Upload.{ConnectionAction}
use l.Tcp.Buffer
use l.Tcp.TcpConnection.{
  ConnectionState, TcpConnection, connected, handle_close, read_non_blocking, send, send_file,
  update_time_stamp,
}

-- What the calls of one message find: the time, the answers of write() in turn and those of
-- sendfile(), what a file descriptor reads, and what a response's constructor leaves unset. Behind
-- the answers of write() the socket is full.
pub record Surroundings : Type 0 where
  pub now : ℕ
  pub pieces : List (Reply ℕ)
  pub file_of : ℤ → Bytes
  pub any_length : ℤ
  pub any_fd : ℤ

send_some : Bytes → List (Reply ℕ) → TcpConnection → Result (TcpConnection × List (Reply ℕ))
send_some text [] c = send text (failed eagain) c >>= λ c'. ok (c', [])
send_some text (reply ∷ replies) c = send text reply c >>= λ c'. ok (c', replies)

-- `SendFile` of a size that is an int.
pub send_sized : Bytes → ℤ → List (Reply ℕ) → TcpConnection → TcpConnection
send_sized file (pos size) pieces c = send_file file size pieces c
send_sized file (negsuc n) pieces c = c

-- The calls that a callback makes of its connection, in turn.
unfoldable pub perform :
    Surroundings → List (Reply ℕ) → List ConnectionAction → TcpConnection → Result TcpConnection
unfolding send_some send_sized
perform s writes [] c = ok c
perform s writes (Upload.update_time_stamp ∷ calls) c =
    perform s writes calls (update_time_stamp s.now c)
perform s writes (Upload.send_text text ∷ calls) c =
    send_some text writes c >>= λ sent. perform s sent.1 calls sent.0
perform s writes (Upload.send_file fd size ∷ calls) c =
    perform s writes calls (send_sized (s.file_of fd) size s.pieces c)
perform s writes (Upload.close_file fd ∷ calls) c = perform s writes calls c
perform s writes (Upload.append_file name bytes ∷ calls) c = perform s writes calls c
perform s writes (Upload.handle_close ∷ calls) c = perform s writes calls (handle_close c)

unfoldable pub is_connected : ConnectionState → Bool
is_connected connected = true
is_connected _ = false

-- `onMessage` of the server on a connection.
unfoldable pub message_callback :
    HttpServer → Surroundings → List (Reply ℕ) → TcpConnection → Result TcpConnection
message_callback server s writes c =
    if is_connected c.state
    then (Buffer.retrieve_all_as_string c.read_buf >>= λ taken.
        on_message server s.any_length s.any_fd true c.context taken.0 >>= λ p.
        perform s writes p.1 (record c { read_buf = taken.1; context = p.0 }))
    else ok c

-- `HandleMessage`
unfoldable pub handle_message :
    HttpServer
    → Surroundings
    → List (Reply ℕ)
    → List (Reply Bytes)
    → TcpConnection
    → Result TcpConnection
handle_message server s writes replies c =
    read_non_blocking replies c >>= message_callback server s writes

abbrev pub auto_close_timeout : ℕ
auto_close_timeout = 100 * k_microsecond2_second

-- `ActiveCloseConn` on a connection that is still held: the connection, and whether the timer is
-- set again.
unfoldable pub active_close_conn : ℕ → TcpConnection → TcpConnection × Bool
active_close_conn now c =
    if ltb (add_time c.timestamp auto_close_timeout) now then (handle_close c, false) else (c, true)
