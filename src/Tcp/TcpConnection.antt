-- ===== src/Tcp/TcpConnection.antt =====
-- code/day29/tcp/TcpConnection.h and TcpConnection.cpp. The connection of an accepted client, with
-- a loop; the log lines are left out, and so is what only holds the object.
mod Queue
pub mod Reads
pub mod Files
pub mod Tests
use l.Base.{
  Bool, Bytes, List, Result, [], drop, err, false, if◌then◌else◌, length, ltb, min, negsuc, ok, pos,
  refl, take, true, ℕ, ◌++◌, ◌+◌, ◌-◌, ◌==◌, ◌>>=◌, ◌∷◌, ◌≡◌,
}
use l.Net.Buffer.{Buffer}
use l.Net.System.{Reply, eagain, eintr, failed, returned}
use l.Http.HttpContext.{HttpContext, new_context}
use l.Tcp.Buffer

pub data ConnectionState : Type 0 where
  invalid connected disconected : ConnectionState

-- Also what the socket has taken, and how often `on_close_` was called. `watches_write` is whether
-- the channel listens to EPOLLOUT.
pub record TcpConnection : Type 0 where
  pub state : ConnectionState
  pub watches_write : Bool
  pub read_buf : Buffer
  pub send_buf : Buffer
  pub context : HttpContext
  pub timestamp : ℕ
  pub sent : Bytes
  pub closes : ℕ

-- The constructor, which leaves the state unset, and `ConnectionEstablished`.
unfoldable pub new_connection : ConnectionState → ℕ → TcpConnection
new_connection any_state timestamp = record {
  state = any_state;
  watches_write = false;
  read_buf = Buffer.new_buffer;
  send_buf = Buffer.new_buffer;
  context = new_context;
  timestamp = timestamp;
  sent = [];
  closes = 0;
}

unfoldable pub connection_established : TcpConnection → TcpConnection
connection_established c = record c { state = connected }

unfoldable pub update_time_stamp : ℕ → TcpConnection → TcpConnection
update_time_stamp now c = record c { timestamp = now }

close_from : ConnectionState → TcpConnection → TcpConnection
close_from disconected c = c
close_from _ c = record c { state = disconected; closes = c.closes + 1 }

unfoldable pub handle_close : TcpConnection → TcpConnection
unfolding close_from
handle_close c = close_from c.state c

-- A call that does nothing to what is sent and what waits.
pub handle_close-quiet :
    (c : TcpConnection)
    → ((handle_close c).sent ≡ c.sent) × ((handle_close c).send_buf ≡ c.send_buf)
unfolding handle_close
handle_close-quiet c = quiet c.state
  where
    quiet :
        (st : ConnectionState)
        → ((close_from st c).sent ≡ c.sent) × ((close_from st c).send_buf ≡ c.send_buf)
    quiet invalid = (refl, refl)
    quiet connected = (refl, refl)
    quiet disconected = (refl, refl)

-- The end of `Send`: the bytes that are left wait for EPOLLOUT.
unfoldable pub keep_rest : Bytes → TcpConnection → Result TcpConnection
keep_rest rest c =
    if ltb 0 (length rest)
    then (Buffer.append c.send_buf rest >>= λ send_buf.
        ok (record c { send_buf = send_buf; watches_write = true }))
    else ok c

-- `Send(msg, len)`, with what write() answers if it is called. It takes at most what it is offered.
unfoldable pub send_bytes : Bytes → Reply ℕ → TcpConnection → Result TcpConnection
unfolding keep_rest
send_bytes msg (returned n) c =
    if Buffer.readablebytes c.send_buf == 0
    then keep_rest (drop n msg) (record c { sent = c.sent ++ take n msg })
    else keep_rest msg c
send_bytes msg (failed e) c =
    if Buffer.readablebytes c.send_buf == 0
    then (if e == eagain then keep_rest msg c else ok c)
    else keep_rest msg c

-- `Send` of a text, whose size is made an int.
unfoldable pub send : Bytes → Reply ℕ → TcpConnection → Result TcpConnection
send msg reply c = Buffer.to_int (length msg) >>= λ len. send_bytes msg reply c

-- `WriteNonBlocking`, which Write and HandleWrite are.
unfoldable pub write_non_blocking : Reply ℕ → TcpConnection → Result TcpConnection
write_non_blocking (returned n) c = do
  let send_size = min n (Buffer.readablebytes c.send_buf)
  send_buf ← Buffer.retrieve c.send_buf (pos send_size)
  ok (record c { send_buf = send_buf; sent = c.sent ++ Buffer.peek_as_string c.send_buf send_size })
write_non_blocking (failed e) c = do
  send_buf ← Buffer.retrieve c.send_buf (if e == eagain then pos 0 else negsuc 0)
  ok (record c { send_buf = send_buf })

abbrev pub read_size : ℕ
read_size = 1024

-- `ReadNonBlocking`, which Read is, with the answers of read(); behind the list it finds nothing
-- more. No bytes are the end of the stream.
unfoldable pub read_non_blocking : List (Reply Bytes) → TcpConnection → Result TcpConnection
unfolding handle_close
read_non_blocking [] c = ok c
read_non_blocking (returned [] ∷ replies) c = ok (handle_close c)
read_non_blocking (returned (byte ∷ bytes) ∷ replies) c =
    Buffer.append c.read_buf (take read_size (byte ∷ bytes)) >>= λ read_buf.
    read_non_blocking replies (record c { read_buf = read_buf })
read_non_blocking (failed e ∷ replies) c =
    let again = read_non_blocking replies c in
    if e == eintr then again else if e == eagain then ok c else ok (handle_close c)

-- The loop of `SendFile`, with the answers of sendfile() while it is called: `send_size` is both
-- the offset that sendfile() itself moves on and the count that the loop adds to. What the socket
-- takes is the result; behind the list the loop is given up.
unfoldable pub send_file_loop : Bytes → ℕ → ℕ → List (Reply ℕ) → Bytes
send_file_loop file data_size send_size [] = []
send_file_loop file data_size send_size (returned n ∷ replies) =
    let count = min n (data_size - send_size) in
    let rest = send_file_loop file data_size (send_size + count + count) replies in
    if ltb send_size data_size then take count (drop send_size file) ++ rest else []
send_file_loop file data_size send_size (failed e ∷ replies) =
    let rest = send_file_loop file data_size send_size replies in
    if ltb send_size data_size then (if e == eagain then rest else []) else []

-- `SendFile`
unfoldable pub send_file : Bytes → ℕ → List (Reply ℕ) → TcpConnection → TcpConnection
unfolding send_file_loop
send_file file size replies c = record c { sent = c.sent ++ send_file_loop file size 0 replies }
