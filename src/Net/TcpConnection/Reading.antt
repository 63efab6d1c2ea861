-- ===== src/Net/TcpConnection/Reading.antt =====
-- TcpConnection.cpp: Establish and HandleRead, on every reply of read().
use l.Base.{
  Bool, Bool-cases, List, Option, Result, [], ap, arith, false, if◌then◌else◌, inl, inr, length,
  length-take, none, not, ok, refl, some, sym, take, true, ℕ, ◌&&◌, ◌*◌, ◌++◌, ◌+◌, ◌==◌, ◌||◌, ◌∙◌,
  ◌∷◌, ◌≡◌, ◌≤◌,
}
use l.Net.Buffer.{Buffer}
use l.Net.Buffer
use l.Net.Buffer.Queue.{append_string-Appends}
use l.Net.System.{Answer, Context, Reply, Works, assert-Works, eagain, failed, retry, returned}
use l.Net.Channel
use l.Net.Channel.Interest.{disable_reading-waiting, waiting-Waits}
use l.Net.Socket
use l.Net.TcpConnection.{
  Callback, State, TcpConnection, after_read, close, connected, connecting, disconnected, enter,
  eof, establish, handle_read, is_connected, message, read_batch_size, stop_read,
}
use l.Net.TcpConnection.Invariant.{Fresh, Live, nil-pending, pending, start_read-Live, with_reading}
use l.Net.TcpConnection.Closing.{force_close-Live, torn_down}

abbrev pub entered : TcpConnection → TcpConnection
entered c = record c { state = connected; channel = Channel.tie c.channel }

module _ (c : TcpConnection) (f : Fresh c) where
  pub entered-Live : Live (entered c)
  unfolding Channel.tie
  entered-Live = record {
    up = refl;
    in_valid = f.in_valid;
    out_valid = f.out_valid;
    interest =
        rw (f.idle, nil-pending c f.out_valid f.drained)
          (record { wanted = f.interest.wanted; registered = f.interest.registered });
    descriptor = f.descriptor;
    eof_stops = rw (f.idle, f.no_eof) refl;
    fin_rule = f.no_fin.1 ∙ sym (ap (λ b. b && not (pending c)) f.no_fin.0);
    fin_sent = f.no_fin.2 ∙ sym f.no_fin.1;
  }

  module _ (k : Context) (works : Works k) where
    enter-entered :
        (s : State) (start : Bool)
        → s ≡ connecting
        → enter k c start s ≡ ok (if start then with_reading true (entered c) else entered c)
    unfolding enter
    enter-entered connecting true h =
        start_read-Live k works (entered c) entered-Live
        ∙ ap (λ b. ok (with_reading (not b) (entered c))) f.no_eof
    enter-entered connecting false h = refl
    enter-entered connected start h = cc
    enter-entered disconnected start h = cc

    -- Establish connects a new connection, and reads at once exactly if asked to.
    pub establish-Fresh :
        (start : Bool)
        → establish k c start ≡ ok (if start then with_reading true (entered c) else entered c)
    unfolding establish
    establish-Fresh start = rw (assert-Works k works) (enter-entered c.state start f.made)

-- What HandleRead does on a reply of read(): nothing, if it does not read or nothing has come; a
-- batch of what has come; the end of the stream; or a broken connection.
pub data ReadEffect (c : TcpConnection) (reply : Reply (List ℕ))
    : TcpConnection → Option Callback → Type 0 where
  deaf : c.reading ≡ false → ReadEffect c reply c none
  quiet : (e : ℕ) → reply ≡ failed e → (e == eagain) ≡ true → ReadEffect c reply c none
  got :
      (input : Buffer) (bytes : List ℕ)
      → Buffer.IsValid input
      → Buffer.contents input ≡ Buffer.contents c.input ++ bytes
      → length bytes ≤ read_batch_size
      → c.reading ≡ true
      → (byte : ℕ) (more : List ℕ) → reply ≡ returned (byte ∷ more)
      → bytes ≡ take read_batch_size (byte ∷ more)
      → ReadEffect c reply
          (record c { input = input; socket = Socket.receive c.socket bytes })
          (some message)
  ended :
      c.reading ≡ true
      → reply ≡ returned []
      → ReadEffect c reply (with_reading false (record c { received_eof = true })) (some eof)
  broke :
      c.reading ≡ true
      → (e : ℕ) → reply ≡ failed e
      → (e == eagain) ≡ false
      → ReadEffect c reply (torn_down c) (some close)

abbrev pub Does : {A : Type 0} {B : Type 0} → Result (A × B) → (A → B → Type 0) → Type 0
Does {A} {B} r P = (a : A) × (b : B) × (r ≡ ok (a, b)) × P a b

module _ (c : TcpConnection) (l : Live c) where
  pub input-Live :
      (input : Buffer) (bytes : List ℕ)
      → Buffer.IsValid input
      → Live (record c { input = input; socket = Socket.receive c.socket bytes })
  input-Live input bytes v = record {
    up = l.up;
    in_valid = v;
    out_valid = l.out_valid;
    interest = l.interest;
    descriptor = l.descriptor;
    eof_stops = l.eof_stops;
    fin_rule = l.fin_rule;
    fin_sent = l.fin_sent;
  }

  pub eof-Live : c.reading ≡ true → Live (with_reading false (record c { received_eof = true }))
  eof-Live h = record {
    up = l.up;
    in_valid = l.in_valid;
    out_valid = l.out_valid;
    interest = waiting-Waits false (pending c) c.channel;
    descriptor = l.descriptor;
    eof_stops = refl;
    fin_rule = l.fin_rule;
    fin_sent = l.fin_sent;
  }

module _ (k : Context) (works : Works k) (c : TcpConnection) (l : Live c) where
  stop-after-eof :
      c.reading ≡ true
      → stop_read k (record c { received_eof = true })
        ≡ ok (with_reading false (record c { received_eof = true }))
  unfolding stop_read
  stop-after-eof r =
      simp (r, disable_reading-waiting k works c.reading (pending c) c.channel l.interest) refl

  after_read-effect :
      length (Buffer.contents c.input) + 2 * read_batch_size + 8 ≤ Buffer.max_size
      → c.reading ≡ true
      → (reply : Reply (List ℕ)) → Does (after_read k c reply) (ReadEffect c reply)
  unfolding after_read
  after_read-effect h r (returned []) = (_, _, rw (stop-after-eof r) refl, ended r refl)
  after_read-effect h r (returned (byte ∷ bytes)) =
      let batch : List ℕ = take read_batch_size (byte ∷ bytes) in
      let size : length batch ≤ read_batch_size =
        omega (arith, length-take read_batch_size (byte ∷ bytes)) in
      let (input, e, a) = append_string-Appends c.input l.in_valid batch (omega arith) in
      (_, _, rw e refl, got input batch a.valid a.queued size r byte bytes refl refl)
  after_read-effect h r (failed e) = elim (Bool-cases (e == eagain)) [
    | inl t ↦ (_, _, rw t refl, quiet e refl t)
    | inr f ↦ (_, _, rw (f, force_close-Live k works c l) refl, broke r e refl f)
  ]

  -- HandleRead of a connected connection whose input buffer has room succeeds, if epoll_ctl() and
  -- shutdown() do. While it does not read, nothing happens. While it reads, the reply of read(),
  -- behind any number of interruptions, decides: EAGAIN changes nothing; the bytes that have come,
  -- but at most 16384 of them, go behind the input and the message callback is called; on the end
  -- of the stream reading stops and the callback for that is called; and on any other error the
  -- connection is torn down and the close callback is called.
  pub handle_read-effect :
      length (Buffer.contents c.input) + 2 * read_batch_size + 8 ≤ Buffer.max_size
      → (answer : Answer (List ℕ)) → Does (handle_read k c answer) (ReadEffect c (retry answer))
  unfolding handle_read
  handle_read-effect h answer = elim (Bool-cases c.reading) [
    | inl t ↦
        let go : not (is_connected c.state) || not c.reading ≡ false = rw (l.up, t) refl in
        rw go (after_read-effect h t (retry answer))
    | inr f ↦
        let skip : not (is_connected c.state) || not c.reading ≡ true = rw (l.up, f) refl in
        (_, _, rw skip refl, deaf f)
  ]
