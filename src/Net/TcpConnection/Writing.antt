-- ===== src/Net/TcpConnection/Writing.antt =====
-- TcpConnection.cpp: HandleWrite, on every reply of send().
use l.Base.{
  ==_iff, Bool, Bool-cases, List, Option, [], ap, append-nil, ap₂, arith, drop, eq_nil, false,
  if◌then◌else◌, inl, inr, length, length-append, length-take, ltb, ltb_false→le, ltb→lt, min, none,
  not, ok, refl, some, subst, sym, take, take-append-drop, take-append_length, true, ℕ, ◌&&◌, ◌++◌,
  ◌==◌, ◌||◌, ◌∙◌, ◌≡◌, ◌≤◌, ◌+◌, ◌<◌, ◌⊎◌,
}
use l.Net.Buffer.{Buffer}
use l.Net.Buffer
use l.Net.Buffer.Contents.{readable_bytes-length}
use l.Net.Buffer.Retrieve.{bytes_at-contents, retrieve-Takes}
use l.Net.System.{Answer, Context, Reply, Works, eagain, failed, retry, returned}
use l.Net.Channel.Interest.{Waits, disable_writing-waiting, waiting, waiting-Waits}
use l.Net.Socket.{Socket}
use l.Net.Socket
use l.Net.TcpConnection.{
  Callback, State, TcpConnection, after_retrieve, after_write, close, finish_output, handle_write,
  is_connected, write_complete,
}
use l.Net.TcpConnection.Invariant.{Live, pending, pending-nil}
use l.Net.TcpConnection.Closing.{finish_write-settled, force_close-Live, settled, torn_down}
use l.Net.TcpConnection.Reading.{Does}
use l.Net.TcpConnection.Sending.{waits_in, with_output}

-- What HandleWrite does on a reply of send(): nothing, if nothing waits or the socket is full; the
-- first bytes that waited go out, all of them do, or the connection breaks.
pub data WriteEffect (c : TcpConnection) (reply : Reply ℕ)
    : TcpConnection → Option Callback → Type 0 where
  idle : Buffer.contents c.output ≡ [] → WriteEffect c reply c none
  quiet : (e : ℕ) → reply ≡ failed e → (e == eagain) ≡ true → WriteEffect c reply c none
  wrote :
      (output : Buffer) (sent : List ℕ)
      → Buffer.IsValid output
      → sent ++ Buffer.contents output ≡ Buffer.contents c.output
      → waits_in output ≡ true
      → (n : ℕ) → reply ≡ returned n
      → 0 < n
      → sent ≡ take n (Buffer.contents c.output)
      → WriteEffect c reply
          (record c { output = output; socket = Socket.deliver c.socket sent })
          none
  drained :
      (output : Buffer)
      → Buffer.IsValid output
      → Buffer.contents output ≡ []
      → (n : ℕ) → reply ≡ returned n
      → 0 < length (Buffer.contents c.output)
      → length (Buffer.contents c.output) ≤ n
      → WriteEffect c reply
          (settled (with_output output (Buffer.contents c.output) c))
          (some write_complete)
  broke :
      0 < length (Buffer.contents c.output)
      → (reply ≡ returned 0) ⊎ ((e : ℕ) × (reply ≡ failed e) × ((e == eagain) ≡ false))
      → WriteEffect c reply (torn_down c) (some close)

module _ (k : Context) (works : Works k) (c : TcpConnection) (l : Live c) where
  abbrev flushed : Buffer → List ℕ → TcpConnection
  flushed output sent = record c { output = output; socket = Socket.deliver c.socket sent }

  abbrev stopped : Buffer → List ℕ → TcpConnection
  stopped output sent = record c {
    output = output;
    socket = Socket.deliver c.socket sent;
    channel = waiting c.reading false c.channel;
  }

  finish_output-settled :
      (output : Buffer) (sent : List ℕ)
      → finish_output k (flushed output sent)
        ≡ ok (settled (stopped output sent), some write_complete)
  unfolding finish_output
  finish_output-settled output sent =
      rw
        (
          disable_writing-waiting k works c.reading (pending c) c.channel l.interest,
          finish_write-settled k works (stopped output sent) l.descriptor l.fin_sent,
        )
        (ap
          (λ (s : State).
            ok (
              settled (stopped output sent),
              (if is_connected s then some write_complete else none),
            ))
          l.up)

  after_retrieve-effect :
      (n : ℕ) (output : Buffer) (sent : List ℕ)
      → Buffer.IsValid output
      → sent ++ Buffer.contents output ≡ Buffer.contents c.output
      → 0 < length sent
      → length sent ≡ min n (length (Buffer.contents c.output))
      → Does (after_retrieve k (flushed output sent)) (WriteEffect c (returned n))
  unfolding after_retrieve
  after_retrieve-effect n output sent v e p m =
      elim (Bool-cases (Buffer.readable_bytes output == 0)) [
        | inl t ↦ rw t (
          settled (with_output output (Buffer.contents c.output) c),
          some write_complete,
          finish_output-settled output sent
              ∙ ap (λ (x : TcpConnection). ok (settled x, some write_complete)) (all_out t),
          drained output v (emptied t) n refl (omega (arith, p, m))
              (omega (arith, m, ap length (everything t))),
        )
        | inr f ↦ (
          _,
          _,
          rw f refl,
          wrote output sent v e (ap not f) n refl (omega (arith, p, m)) (front f),
        )
      ]
    where
      sizes : length sent + length (Buffer.contents output) ≡ length (Buffer.contents c.output)
      sizes = omega (arith, ap length e, length-append sent (Buffer.contents output))

      front : (Buffer.readable_bytes output == 0) ≡ false → sent ≡ take n (Buffer.contents c.output)
      front f =
          let part : length sent ≡ n = ground (arith, m, sizes, readable_bytes-length output v) in
          sym (take-append_length n sent (Buffer.contents output) part) ∙ ap (take n) e

      emptied : (Buffer.readable_bytes output == 0) ≡ true → Buffer.contents output ≡ []
      emptied t =
          eq_nil (Buffer.contents output)
            (sym (readable_bytes-length output v) ∙ (==_iff (Buffer.readable_bytes output) 0).0 t)

      everything : (Buffer.readable_bytes output == 0) ≡ true → sent ≡ Buffer.contents c.output
      everything t = sym (append-nil sent) ∙ ap (◌++◌ sent) (sym (emptied t)) ∙ e

      all_out :
          (Buffer.readable_bytes output == 0) ≡ true
          → stopped output sent ≡ with_output output (Buffer.contents c.output) c
      all_out t = λ i. record c {
        output = output;
        socket = Socket.deliver c.socket (everything t i);
        channel = waiting c.reading (not (sym t i)) c.channel;
      }

  after_write-effect :
      0 < length (Buffer.contents c.output)
      → (reply : Reply ℕ) → Does (after_write k c reply) (WriteEffect c reply)
  unfolding after_write
  after_write-effect some_wait (failed e) = elim (Bool-cases (e == eagain)) [
    | inl t ↦ (_, _, rw t refl, quiet e refl t)
    | inr f ↦ (_, _, rw (f, force_close-Live k works c l) refl, broke some_wait (inr (e, refl, f)))
  ]
  after_write-effect some_wait (returned n) = elim (Bool-cases (ltb 0 count)) [
    | inl t ↦
        let (output, e, taken) = retrieve-Takes c.output l.out_valid count few in
        rw (t, e)
          (after_retrieve-effect n output sent taken.valid (split output taken.rest)
            (omega (arith, size, ltb→lt 0 count t)) (omega (arith, size, waiting_length)))
    | inr f ↦ (
      _,
      _,
      rw (f, force_close-Live k works c l) refl,
      broke some_wait (inl (ap returned (none_taken f))),
    )
  ]
    where
      count : ℕ
      count = min n (Buffer.readable_bytes c.output)

      sent : List ℕ
      sent = Buffer.bytes_at c.output.storage (Buffer.peek c.output) count

      waiting_length : Buffer.readable_bytes c.output ≡ length (Buffer.contents c.output)
      waiting_length = readable_bytes-length c.output l.out_valid

      few : count ≤ length (Buffer.contents c.output)
      few = omega (arith, waiting_length)

      none_taken : ltb 0 count ≡ false → n ≡ 0
      none_taken f = omega (arith, ltb_false→le 0 count f, waiting_length)

      size : length sent ≡ count
      size = omega (
        arith,
        ap length (bytes_at-contents c.output l.out_valid count few),
        length-take count (Buffer.contents c.output),
        waiting_length,
      )

      split :
          (output : Buffer)
          → Buffer.contents output ≡ drop count (Buffer.contents c.output)
          → sent ++ Buffer.contents output ≡ Buffer.contents c.output
      split output rest =
          ap₂ ◌++◌ (bytes_at-contents c.output l.out_valid count few) rest
          ∙ take-append-drop count (Buffer.contents c.output)

  idle_output : Bool
  idle_output = not (is_connected c.state) || (Buffer.readable_bytes c.output == 0)

  -- HandleWrite of a connected connection succeeds, if epoll_ctl() and shutdown() do. If no bytes
  -- wait, nothing happens. If some do, the reply of send(), behind any number of interruptions,
  -- decides: EAGAIN changes nothing; a number that is not 0 and less than what waits takes as many
  -- bytes from the front, and the others still wait; a number that is not less takes all, the
  -- channel stops waiting for room, the stream is ended if that was asked for and the
  -- write-complete callback is called; and on 0 or any other error the connection is torn down and
  -- the close callback is called.
  pub handle_write-effect :
      (answer : Answer ℕ) → Does (handle_write k c answer) (WriteEffect c (retry answer))
  unfolding handle_write idle_output
  handle_write-effect answer = elim (Bool-cases (Buffer.readable_bytes c.output == 0)) [
    | inl t ↦
        let skip : idle_output ≡ true = rw (l.up, t) refl in
        (_, _, rw skip refl, idle (pending-nil c l.out_valid (ap not t)))
    | inr f ↦
        let go : idle_output ≡ false = rw (l.up, f) refl in
        rw go (
          after_write-effect (ground (arith, readable_bytes-length c.output l.out_valid))
            (retry answer))
  ]

module _ (c : TcpConnection) (l : Live c) (output : Buffer) (v : Buffer.IsValid output) where
  -- While bytes still wait the channel keeps waiting for room, and the own end stays unsent.
  pub wrote-Live :
      (sent : List ℕ)
      → pending c ≡ true
      → waits_in output ≡ true
      → Live (record c { output = output; socket = Socket.deliver c.socket sent })
  wrote-Live sent p q = record {
    up = l.up;
    in_valid = l.in_valid;
    out_valid = v;
    interest = subst (λ w. Waits c.reading w c.channel) (p ∙ sym q) l.interest;
    descriptor = l.descriptor;
    eof_stops = l.eof_stops;
    fin_rule = l.fin_rule ∙ ap (λ w. c.shutdown_requested && not w) (p ∙ sym q);
    fin_sent = l.fin_sent;
  }

  pub drained-Live :
      (sent : List ℕ) → waits_in output ≡ false → Live (settled (with_output output sent c))
  drained-Live sent q = record {
    up = l.up;
    in_valid = l.in_valid;
    out_valid = v;
    interest = waiting-Waits c.reading (waits_in output) c.channel;
    descriptor = l.descriptor;
    eof_stops = l.eof_stops;
    fin_rule = rw (l.fin_rule, q) (ground arith);
    fin_sent = refl;
  }
