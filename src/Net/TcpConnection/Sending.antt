-- ===== src/Net/TcpConnection/Sending.antt =====
-- TcpConnection.cpp: Send, on every reply of send().
use l.Base.{
  ==_iff, Bool, Bool-cases, List, Option, [], ap, append-nil, arith, drop, eq_nil, false,
  if◌then◌else◌, inl, inr, length, length-append, length-drop, ltb, ltb_false→le, ltb→lt, none, not,
  ok, refl, some, subst, sym, take, take-append-drop, true, ℕ, ◌&&◌, ◌*◌, ◌++◌, ◌+◌, ◌<◌, ◌==◌,
  ◌||◌, ◌∙◌, ◌≡◌, ◌≤◌, ◌⊎◌,
}
use l.Net.Buffer.{Buffer}
use l.Net.Buffer
use l.Net.Buffer.Contents.{readable_bytes-length}
use l.Net.Buffer.Queue.{append_string-Appends}
use l.Net.System.{Answer, Context, Reply, Works, assert-Works, eagain, failed, retry, returned}
use l.Net.Channel.Interest.{enable_writing-waiting, waiting, waiting-Waits}
use l.Net.Socket.{Socket}
use l.Net.Socket
use l.Net.TcpConnection.{Callback, TcpConnection, after_send, close, is_connected, queue_rest, send}
use l.Net.TcpConnection.Invariant.{Live, pending, pending-nil}
use l.Net.TcpConnection.Closing.{force_close-Live, torn_down}
use l.Net.TcpConnection.Reading.{Does}

abbrev pub waits_in : Buffer → Bool
waits_in b = not (Buffer.readable_bytes b == 0)

-- The connection once `sent` more bytes are out and `output` waits.
abbrev pub with_output : Buffer → List ℕ → TcpConnection → TcpConnection
with_output output sent c = record c {
  output = output;
  socket = Socket.deliver c.socket sent;
  channel = waiting c.reading (waits_in output) c.channel;
}

-- What the socket takes of `bytes` at once, by the reply of send(): nothing if other bytes wait, or
-- there are none, or the socket is full, and else as many as it says.
pub data Goes (c : TcpConnection) (bytes : List ℕ) (reply : Reply ℕ) (sent : List ℕ) : Type 0 where
  not_first : waits_in c.output ≡ true → sent ≡ [] → Goes c bytes reply sent
  no_bytes : bytes ≡ [] → sent ≡ [] → Goes c bytes reply sent
  as_said :
      Buffer.contents c.output ≡ []
      → (n : ℕ) → reply ≡ returned n
      → sent ≡ take n bytes
      → Goes c bytes reply sent
  full : (e : ℕ) → reply ≡ failed e → (e == eagain) ≡ true → sent ≡ [] → Goes c bytes reply sent

-- What Send does with `bytes`: they go out or wait behind those that waited, or the connection
-- breaks.
pub data SendEffect (c : TcpConnection) (bytes : List ℕ) (reply : Reply ℕ)
    : TcpConnection → Option Callback → Type 0 where
  took :
      (output : Buffer) (sent : List ℕ)
      → Buffer.IsValid output
      → sent ++ Buffer.contents output ≡ Buffer.contents c.output ++ bytes
      → Goes c bytes reply sent
      → SendEffect c bytes reply (with_output output sent c) none
  broke :
      Buffer.contents c.output ≡ []
      → 0 < length bytes
      → (e : ℕ) → reply ≡ failed e
      → (e == eagain) ≡ false
      → SendEffect c bytes reply (torn_down c) (some close)

waits_in-pos : (b : Buffer) → Buffer.IsValid b → 0 < length (Buffer.contents b) → waits_in b ≡ true
waits_in-pos b v h = ground (arith, readable_bytes-length b v)

-- One of two pieces is empty, so their order does not matter.
one_empty :
    (sent waiting rest : List ℕ)
    → (sent ≡ []) ⊎ (waiting ≡ [])
    → sent ++ (waiting ++ rest) ≡ waiting ++ (sent ++ rest)
one_empty sent waiting rest (inl e) =
    ap (λ s. s ++ (waiting ++ rest)) e ∙ ap (λ s. waiting ++ (s ++ rest)) (sym e)
one_empty sent waiting rest (inr e) =
    ap (λ w. sent ++ (w ++ rest)) e ∙ ap (λ w. w ++ (sent ++ rest)) (sym e)

module _ (c : TcpConnection) (l : Live c) where
  pub with_output-Live :
      (output : Buffer) (sent : List ℕ)
      → Buffer.IsValid output
      → c.write_shutdown ≡ (c.shutdown_requested && not (waits_in output))
      → Live (with_output output sent c)
  with_output-Live output sent v h = record {
    up = l.up;
    in_valid = l.in_valid;
    out_valid = v;
    interest = waiting-Waits c.reading (waits_in output) c.channel;
    descriptor = l.descriptor;
    eof_stops = l.eof_stops;
    fin_rule = h;
    fin_sent = l.fin_sent;
  }

  delivered_only :
      (sent : List ℕ)
      → record c { socket = Socket.deliver c.socket sent } ≡ with_output c.output sent c
  delivered_only sent = λ i. record c {
    socket = Socket.deliver c.socket sent;
    channel = record (c.channel) { events = l.interest.wanted i; added = l.interest.registered i };
  }

  module _ (k : Context) (works : Works k) (bytes : List ℕ) where
    queue_rest-effect :
        (reply : Reply ℕ) (sent rest : List ℕ)
        → Goes c bytes reply sent
        → length (Buffer.contents c.output) + 2 * length rest + 8 ≤ Buffer.max_size
        → (sent ≡ []) ⊎ (Buffer.contents c.output ≡ [])
        → sent ++ rest ≡ bytes
        → Does
            (queue_rest k (record c { socket = Socket.deliver c.socket sent }) rest)
            (SendEffect c bytes reply)
    unfolding queue_rest
    queue_rest-effect reply sent rest goes h empty e = elim (Bool-cases (ltb 0 (length rest))) [
      | inl t ↦
          let (output, p, a) = append_string-Appends c.output l.out_valid rest h in
          let busy : true ≡ waits_in output = sym (
            waits_in-pos output a.valid (
              omega (
                arith,
                ltb→lt 0 (length rest) t,
                ap length a.queued,
                length-append (Buffer.contents c.output) rest,
              ))) in
          (
            _,
            _,
            rw (t, p, enable_writing-waiting k works c.reading (pending c) c.channel l.interest)
                (ap
                  (λ (w : Bool). ok (
                    record c {
                      output = output;
                      socket = Socket.deliver c.socket sent;
                      channel = waiting c.reading w c.channel;
                    },
                    none,
                  ))
                  busy),
            took output sent a.valid
                (ap (◌++◌ sent) a.queued
                  ∙ one_empty sent (Buffer.contents c.output) rest empty
                  ∙ ap (◌++◌ (Buffer.contents c.output)) e)
                goes,
          )
      | inr f ↦ (
        _,
        _,
        rw f (ap (λ (x : TcpConnection). ok (x, none)) (delivered_only sent)),
        took c.output sent l.out_valid (nothing_left f) goes,
      )
    ]
      where
        nothing_left :
            ltb 0 (length rest) ≡ false
            → sent ++ Buffer.contents c.output ≡ Buffer.contents c.output ++ bytes
        nothing_left f =
            ap (◌++◌ sent) (sym (append-nil (Buffer.contents c.output)))
            ∙ one_empty sent (Buffer.contents c.output) [] empty
            ∙ ap (λ r. Buffer.contents c.output ++ (sent ++ r))
                (sym (eq_nil rest (omega (arith, ltb_false→le 0 (length rest) f))))
            ∙ ap (◌++◌ (Buffer.contents c.output)) e

    undelivered : record c { socket = Socket.deliver c.socket [] } ≡ c
    undelivered =
        λ i. record c { socket = record (c.socket) { delivered = append-nil c.socket.delivered i } }

    queue_all-effect :
        (reply : Reply ℕ)
        → Goes c bytes reply []
        → length (Buffer.contents c.output) + 2 * length bytes + 8 ≤ Buffer.max_size
        → Does (queue_rest k c bytes) (SendEffect c bytes reply)
    queue_all-effect reply goes h =
        subst (λ x. Does (queue_rest k x bytes) (SendEffect c bytes reply)) undelivered
          (queue_rest-effect reply [] bytes goes h (inl refl) refl)

    after_send-effect :
        length (Buffer.contents c.output) + 2 * length bytes + 8 ≤ Buffer.max_size
        → Buffer.contents c.output ≡ []
        → 0 < length bytes
        → (reply : Reply ℕ) → Does (after_send k c bytes reply) (SendEffect c bytes reply)
    unfolding after_send
    after_send-effect h empty some_bytes (returned n) =
        queue_rest-effect (returned n) (take n bytes) (drop n bytes) (as_said empty n refl refl)
          (omega (arith, length-drop n bytes)) (inr empty) (take-append-drop n bytes)
    after_send-effect h empty some_bytes (failed e) = elim (Bool-cases (e == eagain)) [
      | inl t ↦ rw t (queue_all-effect (failed e) (full e refl t refl) h)
      | inr f ↦ (_, _, rw (f, force_close-Live k works c l) refl, broke empty some_bytes e refl f)
    ]

    stays : Bool
    stays = not (is_connected c.state) || c.shutdown_requested || (length bytes == 0)

    -- Send of a connected connection that has not been asked to end its stream and whose output
    -- buffer has room succeeds, if epoll_ctl() and shutdown() do. If other bytes wait, or there are
    -- none to send, or send(), behind any number of interruptions, answers EAGAIN, none of the new
    -- bytes goes out; if it answers a number, as many go out; what does not go out waits behind
    -- what waited, and the channel waits for room exactly while some wait. On any other error of
    -- send() the connection is torn down and the close callback is called.
    pub send-effect :
        length (Buffer.contents c.output) + 2 * length bytes + 8 ≤ Buffer.max_size
        → c.shutdown_requested ≡ false
        → (answer : Answer ℕ) → Does (send k c bytes answer) (SendEffect c bytes (retry answer))
    unfolding send stays
    send-effect h s answer = rw (assert-Works k works) (elim (Bool-cases (length bytes == 0)) [
      | inl t ↦
          let skip : stays ≡ true = rw (l.up, s, t) refl in
          rw skip (
            _,
            _,
            ap (λ (x : TcpConnection). ok (x, none)) (sym undelivered ∙ delivered_only []),
            took c.output [] l.out_valid (nothing_more t) (no_bytes (none_of t) refl),
          )
      | inr f ↦ let go : stays ≡ false = rw (l.up, s, f) refl in rw go (direct_or_queued f)
    ])
      where
        none_of : (length bytes == 0) ≡ true → bytes ≡ []
        none_of t = eq_nil bytes ((==_iff (length bytes) 0).0 t)

        nothing_more :
            (length bytes == 0) ≡ true
            → Buffer.contents c.output ≡ Buffer.contents c.output ++ bytes
        nothing_more t =
            sym (append-nil (Buffer.contents c.output))
            ∙ ap (◌++◌ (Buffer.contents c.output)) (sym (none_of t))

        direct_or_queued :
            (length bytes == 0) ≡ false
            → Does
                (if Buffer.readable_bytes c.output == 0
                  then after_send k c bytes (retry answer)
                  else queue_rest k c bytes)
                (SendEffect c bytes (retry answer))
        direct_or_queued g = elim (Bool-cases (Buffer.readable_bytes c.output == 0)) [
          | inl t ↦ rw t (
              after_send-effect h (pending-nil c l.out_valid (ap not t)) (ground arith)
                (retry answer))
          | inr f ↦ rw f (queue_all-effect (retry answer) (not_first (ap not f) refl) h)
        ]
