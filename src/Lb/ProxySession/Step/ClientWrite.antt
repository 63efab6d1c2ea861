-- ===== src/Lb/ProxySession/Step/ClientWrite.antt =====
-- ProxySession.cpp: a running exchange when the client can be written.
use l.Lb.ProxySession.{ProxySession, exchanged, on_client_written, resume_backend}
use l.Lb.ProxySession.Relay.{Joined-swap, drained-Joined, wrote-Joined}
use l.Lb.ProxySession.Invariant.{Relaying, relaying}
use l.Lb.ProxySession.Finish.{
  Paired-Relaying, Reaches, check_finished-Reaches, client-Paired, client_lost-Reaches, with_ends,
  with_ends-Paired,
}
use l.Lb.ProxySession.Step.{client_calls}
use l.Base.{Option, [], ap, arith, false, not, ok, refl, ℕ, ◌∙◌, ◌≡◌}
use l.Net.Buffer.{Buffer}
use l.Net.Buffer
use l.Net.System.{Answer, Context, Reply, Works}
use l.Net.Socket
use l.Net.TcpConnection.{TcpConnection}
use l.Net.TcpConnection
use l.Net.TcpConnection.Invariant.{start_read-Live, with_reading}
use l.Net.TcpConnection.Closing.{settled}
use l.Net.TcpConnection.Sending.{with_output}
use l.Net.TcpConnection.Writing.{WriteEffect, drained, idle, quiet, wrote}

module _ (k : Context) (works : Works k) (s : ProxySession) (r : Relaying s) where
  -- The joined ends once all that waited for the client is out.
  abbrev flushed_client : Buffer → TcpConnection
  flushed_client output = settled (with_output output (Buffer.contents s.client.output) s.client)

  abbrev resumed_backend : TcpConnection
  resumed_backend = with_reading (not r.backend.received_eof) r.backend

  resume_backend-resumed :
      (a : TcpConnection)
      → resume_backend k (record s { client = a }) s.backend ≡ ok (with_ends s a resumed_backend)
  unfolding resume_backend
  resume_backend-resumed a =
      ap (resume_backend k (record s { client = a })) r.held
      ∙ rw (ap not r.unclosed, start_read-Live k works r.backend r.joined.sink) refl

  written-Reaches :
      (output : Buffer)
      → Buffer.IsValid output
      → Buffer.contents output ≡ []
      → Reaches (on_client_written k (record s { client = flushed_client output }))
  unfolding on_client_written
  written-Reaches output v e = rw (resume_backend-resumed (flushed_client output)) (
      check_finished-Reaches k works (with_ends s (flushed_client output) resumed_backend)
        resumed_backend
        (with_ends-Paired r (flushed_client output) resumed_backend
          (Joined-swap (drained-Joined r.backend s.client (Joined-swap r.joined) output v e))))

  pub client_write-Reaches :
      (answer : Answer ℕ) {reply : Reply ℕ} {a : TcpConnection}
      {called : Option TcpConnection.Callback}
      → WriteEffect s.client reply a called
      → Reaches (client_calls k (record s { client = a }) called answer)
  unfolding client_calls
  client_write-Reaches answer (idle e) = (s, refl, relaying r)
  client_write-Reaches answer (quiet e p q) = (s, refl, relaying r)
  client_write-Reaches answer (wrote output sent v e w n p q t) =
      let a = record (s.client) { output = output; socket = Socket.deliver s.client.socket sent } in
      let joined =
        Joined-swap (wrote-Joined r.backend s.client (Joined-swap r.joined) output sent v e w) in
      let more : exchanged a r.backend ≡ false = ground (arith, w) in
      (record s { client = a }, refl, Paired-Relaying (client-Paired r a joined) more)
  client_write-Reaches answer (drained output v e n p q t) = written-Reaches output v e
  client_write-Reaches answer (WriteEffect.broke p q) = client_lost-Reaches k works r
