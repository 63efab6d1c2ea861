-- ===== src/Lb/ProxySession/Step/Every.antt =====
-- ProxySession.cpp: whole runs of a session, from its creation on.
use l.Lb.ProxySession.Step.{
  AllSound, Event, SoundEvent, backend_broken, backend_calls, backend_does, backend_readable,
  backend_writable, client_broken, client_calls, client_does, client_readable, client_writable,
  connecting, connector_does, no_send, on_backend, on_connecting, run, step, stopped,
}
use l.Lb.ProxySession.Step.ClientRead.{client_read-Reaches}
use l.Lb.ProxySession.Step.ClientWrite.{client_write-Reaches}
use l.Lb.ProxySession.Step.BackendRead.{backend_read-Reaches}
use l.Lb.ProxySession.Step.BackendWrite.{backend_write-Reaches}
use l.Lb.ProxySession.Step.Connecting.{step-Starting}
use l.Lb.ProxySession.Step.Over.{step-Ended}
use l.Lb.ProxySession.{ProxySession}
use l.Lb.ProxySession.Invariant.{Phase, Relaying, finished, relaying, starting}
use l.Lb.ProxySession.Finish.{
  Paired-Closable, Reaches, Relaying-Paired, backend_lost-Reaches, client_lost-Reaches,
  close-Reaches,
}
use l.Base.{List, Result, [], ap, arith, length, refl, subst, sym, ℕ, ◌∷◌}
use l.Net.System.{Answer, Context, Works}
use l.Net.TcpConnection.{TcpConnection}
use l.Net.TcpConnection
use l.Net.TcpConnection.Closing.{force_close-Live}
use l.Net.TcpConnection.Reading.{handle_read-effect}
use l.Net.TcpConnection.Writing.{handle_write-effect}
use l.Lb.Connector

module _ (k : Context) (works : Works k) (s : ProxySession) (r : Relaying s) where
  client_reads :
      (bytes : Answer (List ℕ)) (answer : Answer ℕ)
      → Reaches (client_does k s (TcpConnection.handle_read k s.client bytes) answer)
  unfolding client_does
  client_reads bytes answer =
      let (a, called, p, effect) =
        handle_read-effect k works s.client r.joined.source
          (omega (arith, ap length r.joined.there.passed_on)) bytes in
      rw p (client_read-Reaches k works s r answer effect)

  client_writes :
      (answer : Answer ℕ)
      → Reaches (client_does k s (TcpConnection.handle_write k s.client answer) no_send)
  unfolding client_does
  client_writes answer =
      let (a, called, p, effect) = handle_write-effect k works s.client r.joined.source answer in
      rw p (client_write-Reaches k works s r no_send effect)

  client_breaks : Reaches (client_does k s (TcpConnection.force_close k s.client) no_send)
  unfolding client_does client_calls
  client_breaks =
      rw (force_close-Live k works s.client r.joined.source) (client_lost-Reaches k works r)

  backend_reads :
      (bytes : Answer (List ℕ)) (answer : Answer ℕ)
      → Reaches (backend_does k s (TcpConnection.handle_read k r.backend bytes) answer)
  unfolding backend_does
  backend_reads bytes answer =
      let (b, called, p, effect) =
        handle_read-effect k works r.backend r.joined.sink
          (omega (arith, ap length r.joined.back.passed_on)) bytes in
      rw p (backend_read-Reaches k works s r answer effect)

  backend_writes :
      (answer : Answer ℕ)
      → Reaches (backend_does k s (TcpConnection.handle_write k r.backend answer) no_send)
  unfolding backend_does
  backend_writes answer =
      let (b, called, p, effect) = handle_write-effect k works r.backend r.joined.sink answer in
      rw p (backend_write-Reaches k works s r no_send effect)

  backend_breaks : Reaches (backend_does k s (TcpConnection.force_close k r.backend) no_send)
  unfolding backend_does backend_calls
  backend_breaks =
      rw (force_close-Live k works r.backend r.joined.sink) (backend_lost-Reaches k works r)

  there_is :
      (f : TcpConnection → Result ProxySession)
      → Reaches (f r.backend)
      → Reaches (on_backend s s.backend f)
  unfolding on_backend
  there_is f h = subst (λ x. Reaches (on_backend s x f)) (sym r.held) h

  step-Relaying : (e : Event) → Reaches (step k s e)
  unfolding step on_connecting
  step-Relaying (client_readable bytes answer) = client_reads bytes answer
  step-Relaying (client_writable answer) = client_writes answer
  step-Relaying client_broken = client_breaks
  step-Relaying (backend_readable bytes answer) =
      there_is (λ b. backend_does k s (TcpConnection.handle_read k b bytes) answer)
        (backend_reads bytes answer)
  step-Relaying (backend_writable answer) =
      there_is (λ b. backend_does k s (TcpConnection.handle_write k b answer) no_send)
        (backend_writes answer)
  step-Relaying backend_broken =
      there_is (λ b. backend_does k s (TcpConnection.force_close k b) no_send) backend_breaks
  step-Relaying (connecting e) =
      subst
        (λ x. Reaches (on_connecting s x (λ c. connector_does k s (Connector.Once.handle k c e))))
        (sym r.unconnecting) (s, refl, relaying r)
  step-Relaying stopped = close-Reaches k works s (Paired-Closable (Relaying-Paired r))

module _ (k : Context) (works : Works k) where
  pub step-Reaches :
      (s : ProxySession) → Phase s → (e : Event) → SoundEvent e → Reaches (step k s e)
  step-Reaches s (starting st) e h = step-Starting k works s st e h
  step-Reaches s (relaying r) e h = step-Relaying k works s r e
  step-Reaches s (finished d) e h = (s, step-Ended k works s d e, finished d)

  pub run-Reaches :
      (s : ProxySession) → Phase s → (es : List Event) → AllSound es → Reaches (run k s es)
  unfolding run
  run-Reaches s p [] h = (s, refl, p)
  run-Reaches s p (e ∷ es) h =
      let (s', q, p') = step-Reaches s p e h.0 in rw q (run-Reaches s' p' es h.1)
