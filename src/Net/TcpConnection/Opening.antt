-- ===== src/Net/TcpConnection/Opening.antt =====
-- TcpConnection.cpp: a new connection, and the handlers of one that is not interested.
use l.Net.TcpConnection.{TcpConnection, connecting, create, handle_read, handle_write, is_connected}
use l.Net.TcpConnection.Invariant.{Closed, Fresh, pending}
use l.Base.{Bool, List, [], ap, arith, false, none, not, ok, refl, true, ℕ, ◌==◌, ◌||◌, ◌≡◌}
use l.Net.Buffer.{Buffer}
use l.Net.Buffer
use l.Net.Buffer.Queue.{create-IsValid}
use l.Net.System.{Answer, Context, Works, assert-Works}
use l.Net.Channel
use l.Net.Socket

abbrev pub made : ℕ → TcpConnection
made fd = record {
  socket = Socket.opened fd;
  channel = Channel.create fd;
  state = connecting;
  reading = false;
  received_eof = false;
  shutdown_requested = false;
  write_shutdown = false;
  input = Buffer.create Buffer.initial_size;
  output = Buffer.create Buffer.initial_size;
  keepalives = 0;
}

pub create-made : (k : Context) → Works k → (fd : ℕ) → create k (Socket.opened fd) ≡ ok (made fd)
unfolding create Socket.opened
create-made k works fd = rw (assert-Works k works) refl

fresh_buffer : Buffer
fresh_buffer = Buffer.create Buffer.initial_size

pub fresh_buffer-IsValid :
    Buffer.IsValid (Buffer.create Buffer.initial_size)
    × (Buffer.contents (Buffer.create Buffer.initial_size) ≡ [])
fresh_buffer-IsValid = create-IsValid Buffer.initial_size (omega arith)

pub made-Fresh : (fd : ℕ) → Fresh (made fd)
unfolding Socket.opened Channel.create
made-Fresh fd = record {
  made = refl;
  in_valid = fresh_buffer-IsValid.0;
  out_valid = fresh_buffer-IsValid.0;
  interest = record { wanted = refl; registered = refl };
  descriptor = refl;
  idle = refl;
  no_eof = refl;
  no_fin = (refl, refl, refl);
  drained = fresh_buffer-IsValid.1;
}

module _ (k : Context) (c : TcpConnection) where
  deaf : Bool
  deaf = not (is_connected c.state) || not c.reading

  mute : Bool
  mute = not (is_connected c.state) || (Buffer.readable_bytes c.output == 0)

  -- A connection that is not reading, closed or not, takes a readable event for nothing.
  pub handle_read-quiet :
      c.reading ≡ false → (answer : Answer (List ℕ)) → handle_read k c answer ≡ ok (c, none)
  unfolding handle_read deaf
  handle_read-quiet h answer = let skip : deaf ≡ true = ground (arith, h) in rw skip refl

  -- So does one with nothing to write with a writable event.
  pub handle_write-idle :
      pending c ≡ false → (answer : Answer ℕ) → handle_write k c answer ≡ ok (c, none)
  unfolding handle_write mute
  handle_write-idle h answer = let skip : mute ≡ true = ground (arith, h) in rw skip refl

  pub handle_write-Closed : Closed c → (answer : Answer ℕ) → handle_write k c answer ≡ ok (c, none)
  unfolding handle_write
  handle_write-Closed d answer = rw (ap is_connected d.down) refl
