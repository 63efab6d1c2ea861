-- ===== src/Net/TcpConnection/Closing.antt =====
-- TcpConnection.cpp: ForceClose, FinishWrite and ShutdownWrite.
use l.Base.{
  Bool, Bool-cases, ap, arith, false, inl, inr, none, not, ok, refl, some, true, ℕ, ◌&&◌, ◌+◌, ◌==◌,
  ◌||◌, ◌∙◌, ◌≡◌, ◌≢◌,
}
use l.Net.Buffer.{Buffer}
use l.Net.Buffer
use l.Net.System.{Context, Works, assert-Works}
use l.Net.Channel.Interest.{remove-Works}
use l.Net.Socket.{Socket, shutdown_write-Works}
use l.Net.Socket
use l.Net.TcpConnection.{
  State, TcpConnection, close, connected, connecting, disconnect, disconnected, finish_write,
  force_close, is_connected, leave, shutdown_write,
}
use l.Net.TcpConnection.Invariant.{Closed, Live, pending}

-- What ForceClose makes of a connection that is not closed.
abbrev pub torn_down : TcpConnection → TcpConnection
torn_down c = record c {
  state = disconnected;
  reading = false;
  channel = record (c.channel) { added = false };
  socket = Socket.close c.socket;
  keepalives = c.keepalives + 1;
}

pub torn_down-Closed : (c : TcpConnection) → Closed (torn_down c)
unfolding Socket.close
torn_down-Closed c = record { down = refl; silent = refl; removed = refl; released = refl }

module _ (k : Context) (works : Works k) (c : TcpConnection) where
  leave-torn_down : (s : State) → s ≢ disconnected → leave k c s ≡ ok (torn_down c, some close)
  unfolding leave disconnect
  leave-torn_down connecting h = rw (remove-Works k works c.channel) refl
  leave-torn_down connected h = rw (remove-Works k works c.channel) refl
  leave-torn_down disconnected h = absurd (h refl)

  pub force_close-open : c.state ≢ disconnected → force_close k c ≡ ok (torn_down c, some close)
  unfolding force_close
  force_close-open h = rw (assert-Works k works) (leave-torn_down c.state h)

  pub force_close-Live : Live c → force_close k c ≡ ok (torn_down c, some close)
  force_close-Live l = force_close-open (λ e. cc (l.up))

  leave-closed : (s : State) → s ≡ disconnected → leave k c s ≡ ok (c, none)
  unfolding leave
  leave-closed connecting h = cc
  leave-closed connected h = cc
  leave-closed disconnected h = refl

  -- Closing again does nothing, and calls no callback.
  pub force_close-Closed : Closed c → force_close k c ≡ ok (c, none)
  unfolding force_close
  force_close-Closed h = rw (assert-Works k works) (leave-closed c.state h.down)

-- Whether the own end of the stream has been sent once FinishWrite has run.
abbrev pub finished : TcpConnection → Bool
finished c = c.write_shutdown || (c.shutdown_requested && not (pending c))

abbrev pub settled : TcpConnection → TcpConnection
settled c = record c {
  write_shutdown = finished c;
  socket = record (c.socket) { fin = finished c };
}

module _ (k : Context) (works : Works k) (c : TcpConnection) {fd : ℕ} (d : c.socket.fd ≡ some fd)
    (s : c.socket.fin ≡ c.write_shutdown) where
  must_finish : Bool
  must_finish =
      c.shutdown_requested && not c.write_shutdown && (Buffer.readable_bytes c.output == 0)

  pub finish_write-settled : finish_write k c ≡ ok (settled c)
  unfolding finish_write must_finish
  finish_write-settled = elim (Bool-cases must_finish) [
    | inl t ↦
        let e : true ≡ finished c = ground (arith, t) in
        rw (t, shutdown_write-Works k works c.socket d)
          (ap
            (λ (b : Bool).
              ok (record c { write_shutdown = b; socket = record (c.socket) { fin = b } }))
            e)
    | inr f ↦
        let p : c.write_shutdown ≡ finished c = ground (arith, f) in
        let q : c.socket.fin ≡ finished c = s ∙ p in
        rw f (λ i. ok (record c { write_shutdown = p i; socket = record (c.socket) { fin = q i } }))
  ]

module _ (k : Context) (works : Works k) (c : TcpConnection) (l : Live c) where
  pub shutdown_write-Live :
      shutdown_write k c ≡ ok (settled (record c { shutdown_requested = true }))
  unfolding shutdown_write
  shutdown_write-Live = rw (ap is_connected l.up) (
      finish_write-settled k works (record c { shutdown_requested = true }) l.descriptor l.fin_sent)

module _ (c : TcpConnection) (l : Live c) where
  pub settled-Live : Live (settled (record c { shutdown_requested = true }))
  settled-Live = record {
    up = l.up;
    in_valid = l.in_valid;
    out_valid = l.out_valid;
    interest = l.interest;
    descriptor = l.descriptor;
    eof_stops = l.eof_stops;
    fin_rule = rw l.fin_rule (ground arith);
    fin_sent = refl;
  }
