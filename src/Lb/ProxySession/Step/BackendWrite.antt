-- ===== src/Lb/ProxySession/Step/BackendWrite.antt =====
-- ProxySession.cpp: a running exchange when the backend can be written.
use l.Lb.ProxySession.{ProxySession, check_finished, exchanged, on_backend_written}
use l.Lb.ProxySession.Relay.{drained-Joined, wrote-Joined}
use l.Lb.ProxySession.Invariant.{Relaying}
use l.Lb.ProxySession.Finish.{
  Paired-Relaying, Reaches, backend_lost-Reaches, check_finished-Reaches, with_ends,
  with_ends-Paired,
}
use l.Lb.ProxySession.Step.{backend_calls}
use l.Base.{Option, [], ap, arith, false, not, refl, some, subst, sym, ℕ, ◌≡◌}
use l.Net.Buffer.{Buffer}
use l.Net.Buffer
use l.Net.System.{Answer, Context, Reply, Works}
use l.Net.Socket
use l.Net.TcpConnection.{TcpConnection}
use l.Net.TcpConnection
use l.Net.TcpConnection.Invariant.{start_read-Live, with_reading}
use l.Net.TcpConnection.Closing.{settled}
use l.Net.TcpConnection.Sending.{with_output}
use l.Net.TcpConnection.Writing.{WriteEffect, drained, idle, quiet, wrote}

module _ (k : Context) (works : Works k) (s : ProxySession) (r : Relaying s) where
  -- The joined ends once all that waited for the backend is out.
  abbrev flushed_backend : Buffer → TcpConnection
  flushed_backend output = settled (with_output output (Buffer.contents r.backend.output) r.backend)

  abbrev resumed_client : TcpConnection
  resumed_client = with_reading (not s.client.received_eof) s.client

  written-Reaches :
      (output : Buffer)
      → Buffer.IsValid output
      → Buffer.contents output ≡ []
      → Reaches (on_backend_written k (record s { backend = some (flushed_backend output) }))
  unfolding on_backend_written
  written-Reaches output v e = subst Reaches (sym resumed) (
      check_finished-Reaches k works (with_ends s resumed_client (flushed_backend output))
        (flushed_backend output)
        (with_ends-Paired r resumed_client (flushed_backend output)
          (drained-Joined s.client r.backend r.joined output v e)))
    where
      resumed :
          on_backend_written k (record s { backend = some (flushed_backend output) })
          ≡ check_finished k (with_ends s resumed_client (flushed_backend output))
      resumed = rw (ap not r.unclosed, start_read-Live k works s.client r.joined.source) refl

  pub backend_write-Reaches :
      (answer : Answer ℕ) {reply : Reply ℕ} {b : TcpConnection}
      {called : Option TcpConnection.Callback}
      → WriteEffect r.backend reply b called
      → Reaches (backend_calls k (record s { backend = some b }) called answer)
  unfolding backend_calls
  backend_write-Reaches answer (idle e) =
      (_, refl, Paired-Relaying (with_ends-Paired r s.client r.backend r.joined) r.unfinished)
  backend_write-Reaches answer (quiet e p q) =
      (_, refl, Paired-Relaying (with_ends-Paired r s.client r.backend r.joined) r.unfinished)
  backend_write-Reaches answer (wrote output sent v e w n p q t) =
      let b = record (r.backend) {
        output = output;
        socket = Socket.deliver r.backend.socket sent;
      } in
      let joined = wrote-Joined s.client r.backend r.joined output sent v e w in
      let more : exchanged s.client b ≡ false = ground (arith, w) in
      (
        record s { backend = some b },
        refl,
        Paired-Relaying (with_ends-Paired r s.client b joined) more,
      )
  backend_write-Reaches answer (drained output v e n p q t) = written-Reaches output v e
  backend_write-Reaches answer (WriteEffect.broke p q) = backend_lost-Reaches k works r
