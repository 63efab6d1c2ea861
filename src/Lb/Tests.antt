-- ===== src/Lb/Tests.antt =====
-- Runs of l4lb/src/lb on concrete inputs.
use l.Lb.ProxySession.Step.{
  AllSound, Event, backend_readable, backend_writable, client_broken, client_readable,
  connect_timeout, connecting, run, stopped,
}
use l.Base.{List, Result, [], if◌then◌else◌, none, ok, some, ℕ, ◌∷◌, ◌≡◌}
use l.Net.System.{einprogress, interrupted, replied, returned, sound_context, sound_context-Works}
use l.Lb.Connector.Once.{Done, cancel_call, timeout, writable}
use l.Lb.ProxySession.{ProxySession}
use l.Lb.ProxySession.Invariant.{BackendClosed, Begins, ConnectorDone, read_from, sent_on}
use l.Lb.ProxySession.Finish.{Reaches}
use l.Lb.ProxySession.Step.Served.{serve, serve-Phase}
use l.Lb.ProxySession.Step.Promises.{
  HalfClosed, Lossless, OnceClosed, Paced, WhileRelaying, half_closed, in_order, lossless, paced,
  released, told_once,
}
use l.Net.TcpConnection.Invariant.{Closed}
use l.Lb.Connector.{Connector}
use l.Lb.Connector
use l.Lb.Connector.Run
use l.Lb.Connector.Run.{Starts, run-once, start-Starts, watched, watched-Waiting}
use l.Net.Socket

abbrev hello : List ℕ
hello = b'h' ∷ b'i' ∷ []

-- connect() is in progress and succeeds; two bytes come from the client, one goes out and then the
-- other, and both streams end.
abbrev exchange : List Event
exchange =
    connecting (writable (returned 0))
    ∷ client_readable (replied (returned hello)) (replied (returned 1))
    ∷ backend_writable (interrupted (replied (returned 5)))
    ∷ client_readable (replied (returned [])) (replied (returned 0))
    ∷ backend_readable (replied (returned [])) (replied (returned 0))
    ∷ []

abbrev half : List Event
half =
    connecting (writable (returned 0))
    ∷ client_readable (replied (returned hello)) (replied (returned 1))
    ∷ []

abbrev served : List Event → Result ProxySession
served es = serve sound_context 5 6 (some einprogress) es

abbrev exchange-Sound : AllSound exchange
exchange-Sound = (tt, (tt, (tt, (tt, (tt, tt)))))

abbrev half-Sound : AllSound half
half-Sound = (tt, (tt, tt))

serve-Phase_example : Reaches (served exchange)
serve-Phase_example =
    serve-Phase sound_context sound_context-Works 5 6 (some einprogress) exchange exchange-Sound

in_order_example :
    (s : ProxySession) × (served exchange ≡ ok s)
    × (Begins (sent_on s.backend) s.client.socket.received
        × Begins s.client.socket.delivered (read_from s.backend))
in_order_example =
    in_order sound_context sound_context-Works 5 6 (some einprogress) exchange exchange-Sound

told_once_example :
    (s : ProxySession) × (served exchange ≡ ok s) × (s.on_close_calls ≡ (if s.closed then 1 else 0))
told_once_example =
    told_once sound_context sound_context-Works 5 6 (some einprogress) exchange exchange-Sound

lossless_example : (s : ProxySession) × (served half ≡ ok s) × WhileRelaying Lossless s
lossless_example = lossless sound_context sound_context-Works 5 6 (some einprogress) half half-Sound

paced_example : (s : ProxySession) × (served half ≡ ok s) × WhileRelaying Paced s
paced_example = paced sound_context sound_context-Works 5 6 (some einprogress) half half-Sound

half_closed_example : (s : ProxySession) × (served half ≡ ok s) × WhileRelaying HalfClosed s
half_closed_example =
    half_closed sound_context sound_context-Works 5 6 (some einprogress) half half-Sound

released_example :
    (s : ProxySession) × (served exchange ≡ ok s)
    × OnceClosed
        (Closed s.client
          × BackendClosed s.backend
          × ConnectorDone s.connector
          × (run sound_context s (client_broken ∷ stopped ∷ []) ≡ ok s))
        s
released_example =
    released sound_context sound_context-Works 5 6 (some einprogress) exchange exchange-Sound
      (client_broken ∷ stopped ∷ [])

-- A connector, and what it is once connect() is in progress.
abbrev connector : Connector
connector = record {
  timeout = connect_timeout;
  state = Connector.idle;
  socket = Socket.empty;
  channel = none;
  timeout_timer = none;
}

abbrev watching : Connector
watching = watched connector 6

run-once_example :
    (c : Connector) × (Run.run sound_context watching
        (writable (returned 0) ∷ timeout ∷ cancel_call ∷ [])
      ≡ ok (c, Connector.success (Socket.opened 6) ∷ []))
    × Done c
unfolding watched-Waiting
run-once_example =
    run-once sound_context sound_context-Works watching (watched-Waiting connector 6)
      (writable (returned 0)) (timeout ∷ cancel_call ∷ []) tt
