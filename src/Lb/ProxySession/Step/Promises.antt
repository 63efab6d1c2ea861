-- ===== src/Lb/ProxySession/Step/Promises.antt =====
-- ProxySession.cpp: what a session promises to its client, its backend and its owner.
use l.Lb.ProxySession.Relay.{Joined, Joined-swap}
use l.Lb.ProxySession.Step.Over.{run-Ended}
use l.Net.Buffer
use l.Net.Buffer.Contents.{readable_bytes-length}
use l.Lb.ProxySession.Step.{AllSound, Event, run}
use l.Lb.ProxySession.{ProxySession, exchanged}
use l.Lb.ProxySession.Invariant.{
  BackendClosed, Begins, ConnectorDone, Ended, Phase, finished, read_from, relaying, sent_on,
  starting,
}
use l.Lb.ProxySession.Finish.{Paired-Closable, Relaying-Paired}
use l.Base.{
  Bool, List, Option, [], ap, append-nil, arith, false, if◌then◌else◌, none, not, ok, refl, some,
  subst, sym, true, ℕ, ◌&&◌, ◌++◌, ◌∙◌, ◌≡◌, ◌≤◌,
}
use l.Net.TcpConnection.{TcpConnection, read_batch_size}
use l.Lb.ProxySession.Step.Served.{serve, serve-Phase}
use l.Net.System.{Context, Works}
use l.Net.TcpConnection.Invariant.{Closed, pending}

Phase-in_order :
    {s : ProxySession}
    → Phase s
    → Begins (sent_on s.backend) s.client.socket.received
      × Begins s.client.socket.delivered (read_from s.backend)
Phase-in_order {s} (starting st) = (
  subst (λ x. Begins (sent_on x) s.client.socket.received) (sym st.ready.alone)
      (s.client.socket.received, refl),
  subst (λ x. Begins s.client.socket.delivered (read_from x)) (sym st.ready.alone)
      ([], sym (append-nil s.client.socket.delivered ∙ st.ready.untouched.1)),
)
Phase-in_order (relaying r) =
    let h = Paired-Closable (Relaying-Paired r) in (h.upstream, h.downstream)
Phase-in_order (finished d) = (d.upstream, d.downstream)

pub Phase-told : {s : ProxySession} → Phase s → s.on_close_calls ≡ (if s.closed then 1 else 0)
Phase-told (starting st) = st.ready.uncalled ∙ sym (ap (λ b. if b then 1 else 0) st.ready.unclosed)
Phase-told (relaying r) = r.uncalled ∙ sym (ap (λ b. if b then 1 else 0) r.unclosed)
Phase-told (finished d) = d.once ∙ sym (ap (λ b. if b then 1 else 0) d.shut)

-- `P` of the two ends, while the session is open and has a backend.
abbrev Between :
    (TcpConnection → TcpConnection → Type 0) → Bool → TcpConnection → Option TcpConnection → Type 0
Between P true client backend = Unit
Between P false client none = Unit
Between P false client (some b) = P client b

abbrev pub WhileRelaying : (TcpConnection → TcpConnection → Type 0) → ProxySession → Type 0
WhileRelaying P s = Between P s.closed s.client s.backend

abbrev Afterwards : Type 0 → Bool → Type 0
Afterwards P true = P
Afterwards P false = Unit

-- `P`, once the session is closed.
abbrev pub OnceClosed : Type 0 → ProxySession → Type 0
OnceClosed P s = Afterwards P s.closed

Phase-relays :
    (P : TcpConnection → TcpConnection → Type 0)
    → ((a b : TcpConnection) → Joined a b → exchanged a b ≡ false → P a b)
    → {s : ProxySession} → Phase s
    → WhileRelaying P s
Phase-relays P f {s} (starting st) =
    subst (λ x. Between P x s.client s.backend) (sym st.ready.unclosed)
      (subst (Between P false s.client) (sym st.ready.alone) tt)
Phase-relays P f {s} (relaying r) =
    subst (λ x. Between P x s.client s.backend) (sym r.unclosed)
      (subst (Between P false s.client) (sym r.held) (f s.client r.backend r.joined r.unfinished))
Phase-relays P f {s} (finished d) = subst (λ x. Between P x s.client s.backend) (sym d.shut) tt

Phase-closed : {P : Type 0} {s : ProxySession} → Phase s → (Ended s → P) → OnceClosed P s
Phase-closed {P} (starting st) f = subst (Afterwards P) (sym st.ready.unclosed) tt
Phase-closed {P} (relaying r) f = subst (Afterwards P) (sym r.unclosed) tt
Phase-closed {P} (finished d) f = subst (Afterwards P) (sym d.shut) (f d)

-- No byte is lost: all that one side was read for has been sent to the other side or waits in its
-- output buffer, in order.
pub record Lossless (a b : TcpConnection) : Type 0 where
  pub there : a.socket.received ≡ b.socket.delivered ++ Buffer.contents b.output
  pub back : b.socket.received ≡ a.socket.delivered ++ Buffer.contents a.output

-- A side is read exactly if its stream has not ended and nothing waits for the other side, and at
-- most one batch waits.
pub record Paced (a b : TcpConnection) : Type 0 where
  pub there : a.reading ≡ (not a.received_eof && not (pending b))
  pub back : b.reading ≡ (not b.received_eof && not (pending a))
  pub few_there : Buffer.readable_bytes b.output ≤ read_batch_size
  pub few_back : Buffer.readable_bytes a.output ≤ read_batch_size

-- The stream to one side has been ended exactly if the other side's has ended and all its bytes
-- are sent; and not both have.
pub record HalfClosed (a b : TcpConnection) : Type 0 where
  pub there : b.socket.fin ≡ (a.received_eof && not (pending b))
  pub back : a.socket.fin ≡ (b.received_eof && not (pending a))
  pub one_open : (b.socket.fin && a.socket.fin) ≡ false

Joined-Paced : (a b : TcpConnection) → Joined a b → Paced a b
Joined-Paced a b j = record {
  there = j.there.reading_rule;
  back = j.back.reading_rule;
  few_there = omega (arith, readable_bytes-length b.output j.sink.out_valid, j.there.bounded);
  few_back = omega (arith, readable_bytes-length a.output j.source.out_valid, j.back.bounded);
}

fin-eq : (a b : TcpConnection) → Joined a b → b.socket.fin ≡ (a.received_eof && not (pending b))
fin-eq a b j = j.sink.fin_sent ∙ j.sink.fin_rule ∙ ap (λ x. x && not (pending b)) j.there.ending

Joined-HalfClosed : (a b : TcpConnection) → Joined a b → exchanged a b ≡ false → HalfClosed a b
Joined-HalfClosed a b j going =
    let there = fin-eq a b j in
    let back = fin-eq b a (Joined-swap j) in
    record { there = there; back = back; one_open = ground (arith, there, back, going) }

module _ (k : Context) (works : Works k) (client_fd backend_fd : ℕ) (answer : Option ℕ)
    (es : List Event) (sound : AllSound es) where
  abbrev Gives : (ProxySession → Type 0) → Type 0
  Gives P = (s : ProxySession) × (serve k client_fd backend_fd answer es ≡ ok s) × P s

  gives : (P : ProxySession → Type 0) → ((s : ProxySession) → Phase s → P s) → Gives P
  gives P f =
      let (s, p, q) = serve-Phase k works client_fd backend_fd answer es sound in (s, p, f s q)

  -- In any run of a session on the loop's thread, from its creation on, in which socket(),
  -- getsockopt(), epoll_ctl() and shutdown() succeed, what either side was sent is the beginning of
  -- what was read from the other side, in the same order.
  pub in_order : Gives (λ s.
      Begins (sent_on s.backend) s.client.socket.received
      × Begins s.client.socket.delivered (read_from s.backend))
  in_order = gives _ (λ s p. Phase-in_order p)

  -- In any run of a session on the loop's thread, from its creation on, in which socket(),
  -- getsockopt(), epoll_ctl() and shutdown() succeed, the owner's close callback has been called
  -- once if the session is closed, and else never.
  pub told_once : Gives (λ s. s.on_close_calls ≡ (if s.closed then 1 else 0))
  told_once = gives _ (λ s p. Phase-told p)

  -- In any run of a session on the loop's thread, from its creation on, in which socket(),
  -- getsockopt(), epoll_ctl() and shutdown() succeed, while it is open and has a backend, all that
  -- was read from either side has been sent to the other side, or waits in that side's output
  -- buffer behind what was sent.
  pub lossless : Gives (WhileRelaying Lossless)
  lossless = gives _ (λ s.
      Phase-relays Lossless
        (λ a b j going. record { there = j.there.carried; back = j.back.carried }))

  -- In any run of a session on the loop's thread, from its creation on, in which socket(),
  -- getsockopt(), epoll_ctl() and shutdown() succeed, while it is open and has a backend, a side is
  -- read exactly if its stream has not ended and nothing waits for the other side, and at most
  -- 16384 bytes wait on either side.
  pub paced : Gives (WhileRelaying Paced)
  paced = gives _ (λ s. Phase-relays Paced (λ a b j going. Joined-Paced a b j))

  -- In any run of a session on the loop's thread, from its creation on, in which socket(),
  -- getsockopt(), epoll_ctl() and shutdown() succeed, while it is open and has a backend, the
  -- stream to a side has been ended exactly if the other side's stream has ended and no byte of it
  -- waits; and not both streams have been ended.
  pub half_closed : Gives (WhileRelaying HalfClosed)
  half_closed = gives _ (λ s. Phase-relays HalfClosed Joined-HalfClosed)

  abbrev Freed : List Event → ProxySession → Type 0
  Freed later s =
      Closed s.client × BackendClosed s.backend × ConnectorDone s.connector × (run k s later ≡ ok s)

  -- In any run of a session on the loop's thread, from its creation on, in which socket(),
  -- getsockopt(), epoll_ctl() and shutdown() succeed, once it is closed, both connections are
  -- disconnected, out of epoll's set and without a descriptor, the connector is out of epoll's set
  -- with no descriptor and no running timer, and no later events change anything.
  pub released : (later : List Event) → Gives (λ s. OnceClosed (Freed later s) s)
  released later = gives _ (λ s p.
      Phase-closed p
        (λ d. (d.client_down, d.backend_down, d.connector_done, run-Ended k works s d later)))
