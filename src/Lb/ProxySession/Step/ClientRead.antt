-- ===== src/Lb/ProxySession/Step/ClientRead.antt =====
-- ProxySession.cpp: a running exchange when the client can be read.
use l.Lb.ProxySession.{
  ProxySession, all_bytes, closed_by, emptied, end_backend, exchanged, forward_to_backend,
  on_client_eof, on_client_message, pause_client,
}
use l.Lb.ProxySession.Relay.{
  all_bytes-contents, eof-Joined, heard-Live, message-Joined, no_eof, not_asked,
}
use l.Lb.ProxySession.Invariant.{Ended-emptied, Relaying, finished, relaying}
use l.Lb.ProxySession.Release.{Closable, ConnectorHeld, close-Ended}
use l.Lb.ProxySession.Finish.{
  Paired-Relaying, Reaches, check_finished-Reaches, client_lost-Reaches, with_ends,
  with_ends-Paired,
}
use l.Lb.ProxySession.Step.{client_calls}
use l.Base.{
  Bool, Bool-cases, List, Option, Result, ap, append_assoc, arith, false, inl, inr, length, not, ok,
  refl, some, subst, sym, true, ℕ, ◌&&◌, ◌++◌, ◌>>=◌, ◌∙◌, ◌≡◌, ◌≤◌,
}
use l.Net.Buffer.{Buffer}
use l.Net.Buffer
use l.Net.System.{Answer, Context, Reply, Works, retry}
use l.Net.Socket
use l.Net.TcpConnection.{TcpConnection}
use l.Net.TcpConnection
use l.Net.TcpConnection.Closing.{settled, shutdown_write-Live, torn_down, torn_down-Closed}
use l.Net.TcpConnection.Reading.{Does, ReadEffect, broke, deaf, ended, got, input-Live, quiet}
use l.Net.TcpConnection.Invariant.{Live, as_it_is, pending, stop_read-Live, with_reading}
use l.Net.TcpConnection.Sending.{SendEffect, send-effect, took, waits_in, with_output}

module _ (k : Context) (works : Works k) (s : ProxySession) (r : Relaying s) where
  module _ (input : Buffer) (bytes : List ℕ) (v : Buffer.IsValid input)
      (t : s.client.reading ≡ true) where
    abbrev raw : TcpConnection
    raw = record (s.client) { input = input; socket = Socket.receive s.client.socket bytes }

    -- The backend takes the bytes on, and the client pauses if some have to wait.
    pause_client-paused :
        (output : Buffer) (sent : List ℕ)
        → Live (emptied raw)
        → pause_client k
            (with_ends s (emptied raw) (with_output output sent r.backend))
            (with_output output sent r.backend)
          ≡ ok (
              with_ends s
                (with_reading (not (waits_in output)) (emptied raw))
                (with_output output sent r.backend))
    unfolding pause_client
    pause_client-paused output sent l = elim (Bool-cases (waits_in output)) [
      | inl w ↦
          let go : (not s.closed && waits_in output) ≡ true = ground (arith, w, r.unclosed) in
          rw (go, stop_read-Live k works (emptied raw) l)
            (ap
              (λ (p : Bool).
                ok (with_ends s (with_reading p (emptied raw)) (with_output output sent r.backend)))
              (sym (ap not w)))
      | inr w ↦
          let stay : (not s.closed && waits_in output) ≡ false = ground (arith, w) in
          rw stay (
            ap (λ (x : TcpConnection). ok (with_ends s x (with_output output sent r.backend)))
              (as_it_is (emptied raw) true l t
                ∙ ap (λ p. with_reading p (emptied raw)) (sym (ap not w))))
    ]

    abbrev hearing : ProxySession
    hearing = record s { client = raw }

    message-lost : Closable (record hearing { backend = some (torn_down r.backend) })
    unfolding Socket.close
    message-lost = record {
      unclosed = r.unclosed;
      uncalled = r.uncalled;
      client_held = inl (input-Live s.client r.joined.source input bytes v);
      backend_held = inr (torn_down-Closed r.backend);
      connector_held = subst ConnectorHeld (sym r.unconnecting) tt;
      upstream = (
        Buffer.contents r.backend.output ++ bytes,
        ap (λ l. l ++ bytes) r.joined.there.carried
            ∙ append_assoc r.backend.socket.delivered (Buffer.contents r.backend.output) bytes,
      );
      downstream = (Buffer.contents s.client.output, r.joined.back.carried);
    }

    after_forward : TcpConnection → Option TcpConnection.Callback → Result ProxySession
    after_forward b called = do
      s' ← closed_by k called (record hearing { backend = some b })
      pause_client k (record s' { client = emptied s'.client }) b

    after_forward-Reaches :
        length bytes ≤ TcpConnection.read_batch_size
        → {reply : Reply ℕ} {b : TcpConnection} {called : Option TcpConnection.Callback}
        → SendEffect r.backend bytes reply b called
        → Reaches (after_forward b called)
    unfolding after_forward closed_by pause_client
    after_forward-Reaches h (took output sent w e g) =
        let j = message-Joined s.client r.backend r.joined input bytes v output sent w t h e in
        let paused_client = with_reading (not (waits_in output)) (emptied raw) in
        let open_stream : exchanged paused_client (with_output output sent r.backend) ≡ false =
          ground (arith, no_eof s.client r.backend r.joined t) in
        (
          with_ends s paused_client (with_output output sent r.backend),
          pause_client-paused output sent
              (heard-Live s.client r.backend r.joined input bytes v output sent w),
          Paired-Relaying (with_ends-Paired r paused_client (with_output output sent r.backend) j)
              open_stream,
        )
    after_forward-Reaches h (SendEffect.broke _ _ _ _ _) =
        let (s', p, d, n) =
          close-Ended k works (record hearing { backend = some (torn_down r.backend) })
            message-lost in
        let stay : (not s'.closed && pending (torn_down r.backend)) ≡ false =
          ground (arith, d.shut) in
        (record s' { client = emptied s'.client }, rw (p, stay) refl, finished (Ended-emptied d))

    message_open :
        (answer : Answer ℕ)
        → on_client_message k hearing answer ≡ forward_to_backend k hearing answer (some r.backend)
    unfolding on_client_message
    message_open answer = (rw r.unclosed refl) ∙ ap (forward_to_backend k hearing answer) r.held

    message-Reaches :
        (answer : Answer ℕ)
        → Buffer.contents input ≡ Buffer.contents s.client.input ++ bytes
        → length bytes ≤ TcpConnection.read_batch_size
        → Reaches (on_client_message k hearing answer)
    unfolding forward_to_backend after_forward
    message-Reaches answer q h =
        subst Reaches (sym (message_open answer)) (rw (whole, p) (after_forward-Reaches h effect))
      where
        whole : all_bytes input ≡ bytes
        whole = all_bytes-contents input v ∙ q ∙ ap (λ l. l ++ bytes) r.joined.there.passed_on

        sending :
            Does
              (TcpConnection.send k r.backend bytes answer)
              (SendEffect r.backend bytes (retry answer))
        sending =
            send-effect r.backend r.joined.sink k works bytes
              (omega (arith, r.joined.there.bounded)) (not_asked s.client r.backend r.joined t)
              answer

        p : TcpConnection.send k r.backend bytes answer ≡ ok (sending.0, sending.1)
        p = sending.2

        effect : SendEffect r.backend bytes (retry answer) sending.0 sending.1
        effect = sending.3

  abbrev told : TcpConnection
  told = with_reading false (record (s.client) { received_eof = true })

  abbrev ending : TcpConnection
  ending = settled (record (r.backend) { shutdown_requested = true })

  eof_open :
      on_client_eof k (record s { client = told })
      ≡ end_backend k (record s { client = told }) (some r.backend)
  unfolding on_client_eof
  eof_open = (rw r.unclosed refl) ∙ ap (end_backend k (record s { client = told })) r.held

  eof-Reaches : s.client.reading ≡ true → Reaches (on_client_eof k (record s { client = told }))
  unfolding end_backend
  eof-Reaches t = subst Reaches (sym eof_open) (
      rw (shutdown_write-Live k works r.backend r.joined.sink) (
        check_finished-Reaches k works (with_ends s told ending) ending
          (with_ends-Paired r told ending (eof-Joined s.client r.backend r.joined t))))

  pub client_read-Reaches :
      (answer : Answer ℕ) {reply : Reply (List ℕ)} {a : TcpConnection}
      {called : Option TcpConnection.Callback}
      → ReadEffect s.client reply a called
      → Reaches (client_calls k (record s { client = a }) called answer)
  unfolding client_calls
  client_read-Reaches answer (deaf e) = (s, refl, relaying r)
  client_read-Reaches answer (quiet e p q) = (s, refl, relaying r)
  client_read-Reaches answer (got input bytes v q h t byte more e p) =
      message-Reaches input bytes v t answer q h
  client_read-Reaches answer (ended t e) = eof-Reaches t
  client_read-Reaches answer (broke t e p q) = client_lost-Reaches k works r
