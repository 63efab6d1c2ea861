-- ===== src/Net/TcpConnection/Invariant.antt =====
-- TcpConnection.cpp: what holds of a connection in each of its three states, and the switches of
-- its read interest.
use l.Base.{
  Bool, Bool-cases, List, [], ap, ap₂, arith, eq_nil, false, inl, inr, length, none, not, ok, refl,
  some, sym, true, ℕ, ◌&&◌, ◌++◌, ◌==◌, ◌∙◌, ◌≡◌,
}
use l.Net.Buffer
use l.Net.Buffer.Contents.{readable_bytes-length}
use l.Net.System.{Context, Works}
use l.Net.Channel.Interest.{
  Waits, disable_reading-waiting, enable_reading-waiting, waiting, waiting-Waits,
}
use l.Net.TcpConnection.{
  TcpConnection, connected, connecting, disconnected, is_connected, start_read, stop_read,
}

-- Some bytes wait to be written.
abbrev pub pending : TcpConnection → Bool
pending c = not (Buffer.readable_bytes c.output == 0)

-- All bytes that the connection has taken on, in order: those sent, then those that wait.
abbrev pub stream : TcpConnection → List ℕ
stream c = c.socket.delivered ++ Buffer.contents c.output

-- A connected connection. Its channel waits for input exactly while it is reading, and for room to
-- write exactly while bytes wait; nothing is read behind the end of the peer's stream; its own end
-- is sent exactly when that was asked for and no byte waits.
pub record Live (c : TcpConnection) : Type 0 where
  pub up : c.state ≡ connected
  pub in_valid : Buffer.IsValid c.input
  pub out_valid : Buffer.IsValid c.output
  pub interest : Waits c.reading (pending c) c.channel
  pub descriptor : c.socket.fd ≡ some c.channel.fd
  pub eof_stops : (c.received_eof && c.reading) ≡ false
  pub fin_rule : c.write_shutdown ≡ (c.shutdown_requested && not (pending c))
  pub fin_sent : c.socket.fin ≡ c.write_shutdown

-- A disconnected one: out of epoll's set, with no descriptor.
pub record Closed (c : TcpConnection) : Type 0 where
  pub down : c.state ≡ disconnected
  pub silent : c.reading ≡ false
  pub removed : c.channel.added ≡ false
  pub released : c.socket.fd ≡ none

-- A new one: nothing has happened yet.
pub record Fresh (c : TcpConnection) : Type 0 where
  pub made : c.state ≡ connecting
  pub in_valid : Buffer.IsValid c.input
  pub out_valid : Buffer.IsValid c.output
  pub interest : Waits false false c.channel
  pub descriptor : c.socket.fd ≡ some c.channel.fd
  pub idle : c.reading ≡ false
  pub no_eof : c.received_eof ≡ false
  pub no_fin : (c.shutdown_requested ≡ false) × (c.write_shutdown ≡ false) × (c.socket.fin ≡ false)
  pub drained : Buffer.contents c.output ≡ []

abbrev pub with_reading : Bool → TcpConnection → TcpConnection
with_reading b c = record c { reading = b; channel = waiting b (pending c) c.channel }

pub pending-nil :
    (c : TcpConnection)
    → Buffer.IsValid c.output
    → pending c ≡ false
    → Buffer.contents c.output ≡ []
pending-nil c v h =
    eq_nil (Buffer.contents c.output)
      (omega (arith, readable_bytes-length c.output v, zero_readable))
  where
    zero_readable : Buffer.readable_bytes c.output ≡ 0
    zero_readable = ground arith

pub nil-pending :
    (c : TcpConnection)
    → Buffer.IsValid c.output
    → Buffer.contents c.output ≡ []
    → pending c ≡ false
nil-pending c v h = ground (arith, none_readable)
  where
    none_readable : Buffer.readable_bytes c.output ≡ 0
    none_readable = readable_bytes-length c.output v ∙ ap length h

with_reading_self : (c : TcpConnection) → Live c → with_reading c.reading c ≡ c
with_reading_self c l = λ i. record c {
  channel = record (c.channel) {
    events = sym l.interest.wanted i;
    added = sym l.interest.registered i;
  };
}

pub with_reading-Live :
    (c : TcpConnection) (b : Bool)
    → Live c
    → (c.received_eof && b) ≡ false
    → Live (with_reading b c)
with_reading-Live c b l h = record {
  up = l.up;
  in_valid = l.in_valid;
  out_valid = l.out_valid;
  interest = waiting-Waits b (pending c) c.channel;
  descriptor = l.descriptor;
  eof_stops = h;
  fin_rule = l.fin_rule;
  fin_sent = l.fin_sent;
}

pub as_it_is : (c : TcpConnection) (b : Bool) → Live c → c.reading ≡ b → c ≡ with_reading b c
as_it_is c b l h = sym (with_reading_self c l) ∙ ap (λ r. with_reading r c) h

module _ (k : Context) (works : Works k) (c : TcpConnection) (l : Live c) where
  may_start : Bool
  may_start = is_connected c.state && not c.received_eof && not c.reading

  start-if-needed :
      (eof reading : Bool)
      → c.received_eof ≡ eof
      → c.reading ≡ reading
      → start_read k c ≡ ok (with_reading (not eof) c)
  unfolding start_read may_start
  start-if-needed true true e r = cc (sym l.eof_stops ∙ ap₂ ◌&&◌ e r)
  start-if-needed true false e r =
      let t : may_start ≡ false = rw (l.up, e) refl in rw t (ap ok (as_it_is c false l r))
  start-if-needed false true e r =
      let t : may_start ≡ false = rw (l.up, e, r) refl in rw t (ap ok (as_it_is c true l r))
  start-if-needed false false e r =
      let t : may_start ≡ true = rw (l.up, e, r) refl in
      rw (t, enable_reading-waiting k works c.reading (pending c) c.channel l.interest) refl

  -- Reading is on after `StartRead`, unless the peer's stream has ended.
  pub start_read-Live : start_read k c ≡ ok (with_reading (not c.received_eof) c)
  start_read-Live = start-if-needed c.received_eof c.reading refl refl

  pub stop_read-Live : stop_read k c ≡ ok (with_reading false c)
  unfolding stop_read
  stop_read-Live = elim (Bool-cases c.reading) [
    | inl t ↦
        simp (t, disable_reading-waiting k works c.reading (pending c) c.channel l.interest) refl
    | inr f ↦ simp f (ap ok (as_it_is c false l f))
  ]
