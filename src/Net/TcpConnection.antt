-- ===== src/Net/TcpConnection.antt =====
-- l4lb/src/net/TcpConnection.h and TcpConnection.cpp: one TCP socket with its buffers.
pub mod Invariant
pub mod Closing
pub mod Reading
pub mod Sending
pub mod Writing
pub mod Opening
use l.Base.{
  Bool, List, Option, Result, [], drop, err, false, if◌then◌else◌, invalid_argument, length,
  logic_error, ltb, min, none, not, ok, some, take, true, ℕ, ◌&&◌, ◌*◌, ◌+◌, ◌==◌, ◌>>=◌, ◌>>◌,
  ◌||◌, ◌∷◌,
}
use l.Net.Buffer.{Buffer}
use l.Net.Buffer
use l.Net.System.{Answer, Context, Reply, assert_in_loop_thread, eagain, failed, retry, returned}
use l.Net.Epoller.{Channel}
use l.Net.Channel
use l.Net.Socket.{Socket}
use l.Net.Socket

pub data State : Type 0 where
  connecting connected disconnected : State

-- `name_` is left out: nothing reads it. `keepalives` counts the functors that ForceClose gives to
-- QueueInLoop; they do nothing but hold the object to the end of the batch of events.
pub record TcpConnection : Type 0 where
  pub socket : Socket
  pub channel : Channel
  pub state : State
  pub reading : Bool
  pub received_eof : Bool
  pub shutdown_requested : Bool
  pub write_shutdown : Bool
  pub input : Buffer
  pub output : Buffer
  pub keepalives : ℕ

-- The callback that a method calls. Each method calls at most one, as the last thing that it does,
-- so it is part of the result, and the owner runs it on the state that comes with it.
pub data Callback : Type 0 where
  message write_complete eof close : Callback

abbrev pub read_batch_size : ℕ
read_batch_size = 16 * 1024

abbrev pub Outcome : Type 0
Outcome = Result (TcpConnection × Option Callback)

abbrev pub is_connected : State → Bool
is_connected connecting = false
is_connected connected = true
is_connected disconnected = false

-- `TcpConnection::TcpConnection`
pub create : Context → Socket → Result TcpConnection
create k socket = do
  assert_in_loop_thread k
  elim socket.fd [
    | none ↦ err invalid_argument
    | some fd ↦ ok (record {
      socket = socket;
      channel = Channel.create fd;
      state = connecting;
      reading = false;
      received_eof = false;
      shutdown_requested = false;
      write_shutdown = false;
      input = Buffer.create Buffer.initial_size;
      output = Buffer.create Buffer.initial_size;
      keepalives = 0;
    })
  ]

pub start_read : Context → TcpConnection → Result TcpConnection
start_read k c =
    if is_connected c.state && not c.received_eof && not c.reading
    then (do
      channel ← Channel.enable_reading k c.channel
      ok (record c { reading = true; channel = channel }))
    else ok c

pub stop_read : Context → TcpConnection → Result TcpConnection
stop_read k c =
    if c.reading
    then (do
      channel ← Channel.disable_reading k c.channel
      ok (record c { reading = false; channel = channel }))
    else ok c

enter : Context → TcpConnection → Bool → State → Result TcpConnection
enter k c start_reading connecting =
    let c' = record c { state = connected; channel = Channel.tie c.channel } in
    if start_reading then start_read k c' else ok c'
enter k c start_reading connected = err logic_error
enter k c start_reading disconnected = err logic_error

pub establish : Context → TcpConnection → Bool → Result TcpConnection
establish k c start_reading = do assert_in_loop_thread k; enter k c start_reading c.state

disconnect : Context → TcpConnection → Outcome
disconnect k c = do
  channel ← Channel.remove k c.channel
  ok (
    record c {
      state = disconnected;
      reading = false;
      channel = channel;
      socket = Socket.close c.socket;
      keepalives = c.keepalives + 1;
    },
    some close,
  )

leave : Context → TcpConnection → State → Outcome
leave k c connecting = disconnect k c
leave k c connected = disconnect k c
leave k c disconnected = ok (c, none)

pub force_close : Context → TcpConnection → Outcome
force_close k c = do assert_in_loop_thread k; leave k c c.state

pub finish_write : Context → TcpConnection → Result TcpConnection
finish_write k c =
    if c.shutdown_requested && not c.write_shutdown && (Buffer.readable_bytes c.output == 0)
    then (do
      socket ← Socket.shutdown_write k c.socket
      ok (record c { write_shutdown = true; socket = socket }))
    else ok c

pub shutdown_write : Context → TcpConnection → Result TcpConnection
shutdown_write k c =
    if is_connected c.state then finish_write k (record c { shutdown_requested = true }) else ok c

-- The reply of read(): no bytes are the end of the peer's stream. At most the array is filled.
after_read : Context → TcpConnection → Reply (List ℕ) → Outcome
after_read k c (returned []) = do
  c' ← stop_read k (record c { received_eof = true })
  ok (c', some eof)
after_read k c (returned (byte ∷ bytes)) = do
  let got = take read_batch_size (byte ∷ bytes)
  input ← Buffer.append_string c.input got
  ok (record c { input = input; socket = Socket.receive c.socket got }, some message)
after_read k c (failed e) = if e == eagain then ok (c, none) else force_close k c

pub handle_read : Context → TcpConnection → Answer (List ℕ) → Outcome
handle_read k c answer =
    if not (is_connected c.state) || not c.reading
    then ok (c, none)
    else after_read k c (retry answer)

-- The part of `Send` behind the direct write: what is left waits for EPOLLOUT.
queue_rest : Context → TcpConnection → List ℕ → Outcome
queue_rest k c rest =
    if ltb 0 (length rest)
    then (do
      output ← Buffer.append_string c.output rest
      channel ← Channel.enable_writing k c.channel
      ok (record c { output = output; channel = channel }, none))
    else ok (c, none)

-- The reply of send(): it takes at most the bytes that it is offered.
after_send : Context → TcpConnection → List ℕ → Reply ℕ → Outcome
after_send k c bytes (returned n) =
    queue_rest k (record c { socket = Socket.deliver c.socket (take n bytes) }) (drop n bytes)
after_send k c bytes (failed e) = if e == eagain then queue_rest k c bytes else force_close k c

pub send : Context → TcpConnection → List ℕ → Answer ℕ → Outcome
send k c bytes answer = do
  assert_in_loop_thread k
  if not (is_connected c.state) || c.shutdown_requested || (length bytes == 0)
      then ok (c, none)
      else if Buffer.readable_bytes c.output == 0
      then after_send k c bytes (retry answer)
      else queue_rest k c bytes

-- The part of `HandleWrite` behind `Retrieve`: the output buffer is empty, or it is not.
finish_output : Context → TcpConnection → Outcome
finish_output k c = do
  channel ← Channel.disable_writing k c.channel
  c' ← finish_write k (record c { channel = channel })
  ok (c', (if is_connected c'.state then some write_complete else none))

after_retrieve : Context → TcpConnection → Outcome
after_retrieve k c = if Buffer.readable_bytes c.output == 0 then finish_output k c else ok (c, none)

after_write : Context → TcpConnection → Reply ℕ → Outcome
after_write k c (failed e) = if e == eagain then ok (c, none) else force_close k c
after_write k c (returned n) =
    let offered = Buffer.readable_bytes c.output in
    let count = min n offered in
    if ltb 0 count
    then (do
      output ← Buffer.retrieve c.output count
      let taken = Buffer.bytes_at c.output.storage (Buffer.peek c.output) count
      after_retrieve k (record c { output = output; socket = Socket.deliver c.socket taken }))
    else force_close k c

pub handle_write : Context → TcpConnection → Answer ℕ → Outcome
handle_write k c answer =
    if not (is_connected c.state) || (Buffer.readable_bytes c.output == 0)
    then ok (c, none)
    else after_write k c (retry answer)
