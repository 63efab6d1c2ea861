-- ===== src/Lb/ProxySession/Step/BackendRead.antt =====
-- ProxySession.cpp: a running exchange when the backend can be read.
use l.Lb.ProxySession.Step.{backend_calls}
use l.Lb.ProxySession.{
  ProxySession, all_bytes, backend_emptied, check_finished, closed_by, emptied, exchanged,
  forward_to_client, on_backend_eof, on_backend_message, pause_backend,
}
use l.Lb.ProxySession.Relay.{
  Joined-swap, all_bytes-contents, eof-Joined, heard-Live, message-Joined, no_eof, not_asked,
}
use l.Lb.ProxySession.Invariant.{Ended, Ended-backend_emptied, Relaying, finished}
use l.Lb.ProxySession.Release.{Closable, ConnectorHeld, close-Ended}
use l.Lb.ProxySession.Finish.{
  Paired-Relaying, Reaches, backend_lost-Reaches, check_finished-Reaches, with_ends,
  with_ends-Paired,
}
use l.Base.{
  Bool, Bool-cases, List, Option, Result, ap, append_assoc, arith, false, inl, inr, length, none,
  not, ok, refl, some, subst, sym, true, ℕ, ◌&&◌, ◌++◌, ◌>>=◌, ◌∙◌, ◌≡◌, ◌≢◌, ◌≤◌,
}
use l.Net.Buffer.{Buffer}
use l.Net.Buffer
use l.Net.System.{Answer, Context, Reply, Works, retry}
use l.Net.Socket
use l.Net.TcpConnection.{TcpConnection}
use l.Net.TcpConnection
use l.Net.TcpConnection.Closing.{settled, shutdown_write-Live, torn_down, torn_down-Closed}
use l.Net.TcpConnection.Reading.{Does, ReadEffect, broke, deaf, ended, got, input-Live, quiet}
use l.Net.TcpConnection.Invariant.{Live, as_it_is, pending, stop_read-Live, with_reading}
use l.Net.TcpConnection.Sending.{SendEffect, send-effect, took, waits_in, with_output}

module _ (k : Context) (works : Works k) (s : ProxySession) (r : Relaying s) where
  module _ (input : Buffer) (bytes : List ℕ) (v : Buffer.IsValid input)
      (t : r.backend.reading ≡ true) where
    abbrev raw : TcpConnection
    raw = record (r.backend) { input = input; socket = Socket.receive r.backend.socket bytes }

    abbrev hearing : ProxySession
    hearing = record s { backend = some raw }

    -- The client takes the bytes on, and the backend pauses if some have to wait.
    pause_backend-paused :
        (output : Buffer) (sent : List ℕ)
        → Live (emptied raw)
        → pause_backend k
            (with_ends s (with_output output sent s.client) (emptied raw))
            (emptied raw)
          ≡ ok (
              with_ends s
                (with_output output sent s.client)
                (with_reading (not (waits_in output)) (emptied raw)))
    unfolding pause_backend
    pause_backend-paused output sent l = elim (Bool-cases (waits_in output)) [
      | inl w ↦
          let go : (not s.closed && waits_in output) ≡ true = ground (arith, w, r.unclosed) in
          rw (go, stop_read-Live k works (emptied raw) l)
            (ap
              (λ (p : Bool).
                ok (with_ends s (with_output output sent s.client) (with_reading p (emptied raw))))
              (sym (ap not w)))
      | inr w ↦
          let stay : (not s.closed && waits_in output) ≡ false = ground (arith, w) in
          rw stay (
            ap (λ (x : TcpConnection). ok (with_ends s (with_output output sent s.client) x))
              (as_it_is (emptied raw) true l t
                ∙ ap (λ p. with_reading p (emptied raw)) (sym (ap not w))))
    ]

    message-lost : Closable (record hearing { client = torn_down s.client })
    unfolding Socket.close
    message-lost = record {
      unclosed = r.unclosed;
      uncalled = r.uncalled;
      client_held = inr (torn_down-Closed s.client);
      backend_held = inl (input-Live r.backend r.joined.sink input bytes v);
      connector_held = subst ConnectorHeld (sym r.unconnecting) tt;
      upstream = (Buffer.contents r.backend.output, r.joined.there.carried);
      downstream = (
        Buffer.contents s.client.output ++ bytes,
        ap (λ l. l ++ bytes) r.joined.back.carried
            ∙ append_assoc s.client.socket.delivered (Buffer.contents s.client.output) bytes,
      );
    }

    after_forward : TcpConnection → Option TcpConnection.Callback → Result ProxySession
    after_forward client called = do
      s' ← closed_by k called (record hearing { client = client })
      backend_emptied k s' s'.backend

    -- Emptying the backend's input once the session is closed.
    emptied-Reaches :
        {s' : ProxySession}
        → Ended s'
        → (b : Option TcpConnection) → s'.backend ≡ b
        → b ≢ none
        → Reaches (backend_emptied k s' b)
    unfolding backend_emptied pause_backend
    emptied-Reaches d none e n = absurd (n refl)
    emptied-Reaches {s'} d (some b) e n =
        let stay : (not s'.closed && pending s'.client) ≡ false = ground (arith, d.shut) in
        (
          record s' { backend = some (emptied b) },
          rw stay refl,
          finished (Ended-backend_emptied d b e),
        )

    after_forward-Reaches :
        length bytes ≤ TcpConnection.read_batch_size
        → {reply : Reply ℕ} {a : TcpConnection} {called : Option TcpConnection.Callback}
        → SendEffect s.client bytes reply a called
        → Reaches (after_forward a called)
    unfolding after_forward closed_by backend_emptied
    after_forward-Reaches h (took output sent w e g) =
        let a = with_output output sent s.client in
        let j =
          message-Joined r.backend s.client (Joined-swap r.joined) input bytes v output sent w t h
            e in
        let paused_backend = with_reading (not (waits_in output)) (emptied raw) in
        let open_stream : exchanged a paused_backend ≡ false =
          ground (arith, no_eof r.backend s.client (Joined-swap r.joined) t) in
        (
          with_ends s a paused_backend,
          pause_backend-paused output sent
              (heard-Live r.backend s.client (Joined-swap r.joined) input bytes v output sent w),
          Paired-Relaying (with_ends-Paired r a paused_backend (Joined-swap j)) open_stream,
        )
    after_forward-Reaches h (SendEffect.broke _ _ _ _ _) =
        let (s', p, d, n) =
          close-Ended k works (record hearing { client = torn_down s.client }) message-lost in
        rw p (emptied-Reaches d s'.backend refl (n (λ e. cc)))

    message_open :
        (answer : Answer ℕ)
        → on_backend_message k hearing answer ≡ forward_to_client k hearing answer (some raw)
    unfolding on_backend_message
    message_open answer = rw r.unclosed refl

    message-Reaches :
        (answer : Answer ℕ)
        → Buffer.contents input ≡ Buffer.contents r.backend.input ++ bytes
        → length bytes ≤ TcpConnection.read_batch_size
        → Reaches (on_backend_message k hearing answer)
    unfolding forward_to_client after_forward
    message-Reaches answer q h =
        subst Reaches (sym (message_open answer)) (rw (whole, p) (after_forward-Reaches h effect))
      where
        whole : all_bytes input ≡ bytes
        whole = all_bytes-contents input v ∙ q ∙ ap (λ l. l ++ bytes) r.joined.back.passed_on

        sending :
            Does
              (TcpConnection.send k s.client bytes answer)
              (SendEffect s.client bytes (retry answer))
        sending =
            send-effect s.client r.joined.source k works bytes
              (omega (arith, r.joined.back.bounded))
              (not_asked r.backend s.client (Joined-swap r.joined) t) answer

        p : TcpConnection.send k s.client bytes answer ≡ ok (sending.0, sending.1)
        p = sending.2

        effect : SendEffect s.client bytes (retry answer) sending.0 sending.1
        effect = sending.3

  abbrev told : TcpConnection
  told = with_reading false (record (r.backend) { received_eof = true })

  abbrev ending : TcpConnection
  ending = settled (record (s.client) { shutdown_requested = true })

  eof_open :
      on_backend_eof k (record s { backend = some told })
      ≡ check_finished k (with_ends s ending told)
  unfolding on_backend_eof
  eof_open = rw (r.unclosed, shutdown_write-Live k works s.client r.joined.source) refl

  eof-Reaches :
      r.backend.reading ≡ true → Reaches (on_backend_eof k (record s { backend = some told }))
  eof-Reaches t = rw eof_open (
      check_finished-Reaches k works (with_ends s ending told) told (
        with_ends-Paired r ending told
          (Joined-swap (eof-Joined r.backend s.client (Joined-swap r.joined) t))))

  pub backend_read-Reaches :
      (answer : Answer ℕ) {reply : Reply (List ℕ)} {b : TcpConnection}
      {called : Option TcpConnection.Callback}
      → ReadEffect r.backend reply b called
      → Reaches (backend_calls k (record s { backend = some b }) called answer)
  unfolding backend_calls
  backend_read-Reaches answer (deaf e) = (
    with_ends s s.client r.backend,
    refl,
    Paired-Relaying (with_ends-Paired r s.client r.backend r.joined) r.unfinished,
  )
  backend_read-Reaches answer (quiet e p q) = (
    with_ends s s.client r.backend,
    refl,
    Paired-Relaying (with_ends-Paired r s.client r.backend r.joined) r.unfinished,
  )
  backend_read-Reaches answer (got input bytes v q h t byte more e p) =
      message-Reaches input bytes v t answer q h
  backend_read-Reaches answer (ended t e) = eof-Reaches t
  backend_read-Reaches answer (broke t e p q) = backend_lost-Reaches k works r
