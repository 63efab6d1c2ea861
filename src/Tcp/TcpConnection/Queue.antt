-- ===== src/Tcp/TcpConnection/Queue.antt =====
-- The tutorial's Send and HandleWrite: what was given to Send goes out in order.
use l.Base.{
  ==_iff, All, Bool-cases, Bytes, List, Result, [], ap, append-nil, append_assoc, arith,
  assertion_failed, drop, err, eq_nil, inl, inr, length, length-append, length-drop, ltb,
  ltb_false→le, ltb→lt, min, ok, refl, sym, take, take-append-drop, true, ℕ, ◌*◌, ◌+◌, ◌++◌, ◌-◌,
  ◌<◌, ◌==◌, ◌>>=◌, ◌∙◌, ◌∷◌, ◌≡◌, ◌≤◌, ◌⊎◌,
}
use l.Net.Buffer.{IsValid, bytes_at, contents}
use l.Net.Buffer.Contents.{bytes_at-take, length-contents}
use l.Net.Buffer.Retrieve.{Takes}
use l.Net.System.{Reply, eagain, failed, returned}
use l.Tcp.Buffer.{int_max, peek_as_string, readablebytes}
use l.Tcp.Buffer.Queue.{IsSound, append-Appends, to_int_lem, retrieve-less, retrieve-rest}
use l.Tcp.TcpConnection.{TcpConnection, keep_rest, send, send_bytes, write_non_blocking}

-- Not an error that loses bytes: the call took some, or it would have had to wait.
abbrev pub IsSoft : Reply ℕ → Type 0
IsSoft (returned n) = Unit
IsSoft (failed e) = (e == eagain) ≡ true

-- All that the connection was given: what is out, and what waits.
abbrev pub given : TcpConnection → Bytes
given c = c.sent ++ contents c.send_buf

-- What Send makes of the connection.
pub record Sends (c : TcpConnection) (msg : Bytes) (c' : TcpConnection) : Type 0 where
  pub sound : IsSound c'.send_buf
  pub in_order : given c' ≡ given c ++ msg
  pub waiting : length (contents c'.send_buf) ≤ length (contents c.send_buf) + length msg

module _ (c : TcpConnection) (v : IsSound c.send_buf) where
  keep_rest-Sends :
      (rest : Bytes)
      → length (contents c.send_buf) + 2 * length rest + 8 ≤ int_max
      → (c' : TcpConnection) × (keep_rest rest c ≡ ok c') × Sends c rest c'
  unfolding keep_rest
  keep_rest-Sends rest h = elim (Bool-cases (ltb 0 (length rest))) [
    | inl t ↦
        let (b, e, w, a) = append-Appends c.send_buf v rest h in
        (
          record c { send_buf = b; watches_write = true },
          rw (t, e) refl,
          record {
            sound = w;
            in_order = ap (◌++◌ c.sent) a ∙ sym (append_assoc c.sent (contents c.send_buf) rest);
            waiting = omega (arith, ap length a, length-append (contents c.send_buf) rest);
          },
        )
    | inr f ↦ (
      c,
      rw f refl,
      record {
        sound = v;
        in_order =
            sym (append-nil (given c))
            ∙ ap (◌++◌ (given c))
                (sym (eq_nil rest (omega (arith, ltb_false→le 0 (length rest) f))));
        waiting = omega arith;
      },
    )
  ]

  nothing_waits : (readablebytes c.send_buf == 0) ≡ true → contents c.send_buf ≡ []
  unfolding readablebytes
  nothing_waits t =
      eq_nil (contents c.send_buf) (
        omega
          (arith, length-contents c.send_buf v.valid, (==_iff (readablebytes c.send_buf) 0).0 t))

module _ (c : TcpConnection) (v : IsSound c.send_buf) (msg : Bytes) where
  joined :
      (n : ℕ)
      → contents c.send_buf ≡ []
      → (c.sent ++ take n msg) ++ contents c.send_buf ++ drop n msg ≡ given c ++ msg
  joined n e =
      rw
        (
          e,
          append-nil (c.sent ++ take n msg),
          append-nil c.sent,
          append_assoc c.sent (take n msg) (drop n msg),
          take-append-drop n msg,
        )
        refl

  -- The direct write: nothing waited before it.
  direct-Sends :
      (n : ℕ)
      → contents c.send_buf ≡ []
      → length (contents c.send_buf) + 2 * length msg + 8 ≤ int_max
      → (c' : TcpConnection) × (keep_rest (drop n msg) (record c { sent = c.sent ++ take n msg })
          ≡ ok c')
        × Sends c msg c'
  direct-Sends n e h =
      let (c', p, s) =
        keep_rest-Sends (record c { sent = c.sent ++ take n msg }) v (drop n msg)
          (omega (arith, length-drop n msg)) in
      (
        c',
        p,
        record {
          sound = s.sound;
          in_order = s.in_order ∙ joined n e;
          waiting = omega (arith, s.waiting, length-drop n msg);
        },
      )

  pub send-Sends :
      (reply : Reply ℕ)
      → IsSoft reply
      → length (contents c.send_buf) + 2 * length msg + 8 ≤ int_max
      → (c' : TcpConnection) × (send msg reply c ≡ ok c') × Sends c msg c'
  unfolding send send_bytes
  send-Sends (returned n) s h = elim (Bool-cases (readablebytes c.send_buf == 0)) [
    | inl t ↦ rw (to_int_lem (length msg) (omega arith), t) (direct-Sends n (nothing_waits c v t) h)
    | inr f ↦ rw (to_int_lem (length msg) (omega arith), f) (keep_rest-Sends c v msg h)
  ]
  send-Sends (failed e) s h = elim (Bool-cases (readablebytes c.send_buf == 0)) [
    | inl t ↦ rw (to_int_lem (length msg) (omega arith), t, s) (keep_rest-Sends c v msg h)
    | inr f ↦ rw (to_int_lem (length msg) (omega arith), f) (keep_rest-Sends c v msg h)
  ]

-- What HandleWrite makes of the connection.
abbrev Writes : TcpConnection → TcpConnection → Type 0
Writes c c' =
    IsSound c'.send_buf
    × (given c' ≡ given c)
    × (length (contents c'.send_buf) ≤ length (contents c.send_buf))

-- The connection once `n` bytes have gone from the output buffer.
abbrev written : TcpConnection → ℕ → TcpConnection
written c n = record c {
  send_buf = record c.send_buf { reader_index = c.send_buf.reader_index + n };
  sent = c.sent ++ bytes_at c.send_buf.storage c.send_buf.reader_index n;
}

module _ (c : TcpConnection) (v : IsValid c.send_buf) where
  waiting_eq : readablebytes c.send_buf ≡ length (contents c.send_buf)
  unfolding readablebytes
  waiting_eq = omega (arith, length-contents c.send_buf v)

  -- If the socket takes all that waits in a valid output buffer, HandleWrite ends the program by an
  -- assert, which asks that bytes are left.
  pub write_non_blocking-aborts :
      (n : ℕ)
      → length (contents c.send_buf) ≤ n
      → write_non_blocking (returned n) c ≡ err assertion_failed
  unfolding write_non_blocking
  write_non_blocking-aborts n h =
      rw (retrieve-rest c.send_buf v (min n (readablebytes c.send_buf)) (omega (arith, waiting_eq)))
        refl

module _ (c : TcpConnection) (s : IsSound c.send_buf) where
  abbrev v : IsValid c.send_buf
  v = s.valid

  written-Writes :
      (n : ℕ)
      → n ≤ length (contents c.send_buf)
      → Takes c.send_buf n (record c.send_buf { reader_index = c.send_buf.reader_index + n })
      → Writes c (written c n)
  written-Writes n h t = (
    record { valid = t.valid; fits = s.fits },
    ap (◌++◌ (c.sent ++ bytes_at c.send_buf.storage c.send_buf.reader_index n)) t.rest
        ∙ append_assoc c.sent (bytes_at c.send_buf.storage c.send_buf.reader_index n)
            (drop n (contents c.send_buf))
        ∙ ap (◌++◌ c.sent) (
            ap (λ l. l ++ drop n (contents c.send_buf)) first
            ∙ take-append-drop n (contents c.send_buf)),
    omega (arith, ap length t.rest, length-drop n (contents c.send_buf)),
  )
    where
      first : bytes_at c.send_buf.storage c.send_buf.reader_index n ≡ take n (contents c.send_buf)
      first =
          unfold contents in
          sym (
            bytes_at-take c.send_buf.storage c.send_buf.reader_index
              (c.send_buf.writer_index - c.send_buf.reader_index) n
              (omega (arith, length-contents c.send_buf v)))

  write_part :
      (n : ℕ)
      → n < length (contents c.send_buf)
      → (c' : TcpConnection) × (write_non_blocking (returned n) c ≡ ok c') × Writes c c'
  unfolding write_non_blocking peek_as_string
  write_part n h =
      let size : min n (readablebytes c.send_buf) ≡ n = omega (arith, waiting_eq c v) in
      let (e, t) = retrieve-less c.send_buf v n h in
      (written c n, rw (size, e) refl, written-Writes n (omega arith) t)

  write_nothing :
      0 < length (contents c.send_buf)
      → (e : ℕ) → (e == eagain) ≡ true
      → (c' : TcpConnection) × (write_non_blocking (failed e) c ≡ ok c') × Writes c c'
  unfolding write_non_blocking
  write_nothing h e soft =
      let (p, t) = retrieve-less c.send_buf v 0 h in
      (
        record c { send_buf = record c.send_buf { reader_index = c.send_buf.reader_index + 0 } },
        rw (soft, p) refl,
        (
          record { valid = t.valid; fits = s.fits },
          ap (◌++◌ c.sent) t.rest,
          omega (arith, ap length t.rest),
        ),
      )

  nothing_to_write :
      length (contents c.send_buf) ≤ 0
      → (e : ℕ) → (e == eagain) ≡ true
      → write_non_blocking (failed e) c ≡ err assertion_failed
  unfolding write_non_blocking
  nothing_to_write h e soft = rw (soft, retrieve-rest c.send_buf v 0 h) refl

  pub write_non_blocking-Writes :
      (reply : Reply ℕ)
      → IsSoft reply
      → (write_non_blocking reply c ≡ err assertion_failed)
        ⊎ ((c' : TcpConnection) × (write_non_blocking reply c ≡ ok c') × Writes c c')
  write_non_blocking-Writes (returned n) soft =
      elim (Bool-cases (ltb n (length (contents c.send_buf)))) [
        | inl t ↦ inr (write_part n (ltb→lt _ _ t))
        | inr f ↦ inl (write_non_blocking-aborts c v n (ltb_false→le _ _ f))
      ]
  write_non_blocking-Writes (failed e) soft =
      elim (Bool-cases (ltb 0 (length (contents c.send_buf)))) [
        | inl t ↦ inr (write_nothing (ltb→lt _ _ t) e soft)
        | inr f ↦ inl (nothing_to_write (ltb_false→le _ _ f) e soft)
      ]

-- A call of Send, or the write callback, with what write() answers.
pub data Call : Type 0 where
  sends : Bytes → Reply ℕ → Call
  writes : Reply ℕ → Call

abbrev pub calls_run : TcpConnection → List Call → Result TcpConnection
calls_run c [] = ok c
calls_run c (sends msg reply ∷ calls) = send msg reply c >>= λ c'. calls_run c' calls
calls_run c (writes reply ∷ calls) = write_non_blocking reply c >>= λ c'. calls_run c' calls

-- The texts that the calls of Send were given, one behind the other.
abbrev pub texts : List Call → Bytes
texts [] = []
texts (sends msg reply ∷ calls) = msg ++ texts calls
texts (writes reply ∷ calls) = texts calls

abbrev pub IsSoftCall : Call → Type 0
IsSoftCall (sends msg reply) = IsSoft reply
IsSoftCall (writes reply) = IsSoft reply

abbrev pub Keeps : TcpConnection → Bytes → Result TcpConnection → Type 0
Keeps c more r =
    (r ≡ err assertion_failed)
    ⊎ ((c' : TcpConnection) × (r ≡ ok c') × IsSound c'.send_buf × (given c' ≡ given c ++ more))

-- From an output buffer on that is valid and whose size is an int, whatever is sent and written, if
-- write() takes any number of bytes, or would have to wait, and if the bytes that wait, twice those
-- that are sent and 8 fit an int: the run ends by the assert of Retrieve, or what is out and what
-- waits behind it is what was there, and then the texts sent, whole and in order.
pub calls_run-in_order :
    (c : TcpConnection) (calls : List Call)
    → IsSound c.send_buf
    → All IsSoftCall calls
    → length (contents c.send_buf) + 2 * length (texts calls) + 8 ≤ int_max
    → Keeps c (texts calls) (calls_run c calls)
calls_run-in_order c [] v s h = inr (c, refl, v, sym (append-nil (given c)))
calls_run-in_order c (sends msg reply ∷ calls) v (s, ss) h =
    let size = length-append msg (texts calls) in
    let (d, p, a) = send-Sends c v msg reply s (omega (arith, size)) in
    rw p (elim (calls_run-in_order d calls a.sound ss (omega (arith, size, a.waiting))) [
      | inl e ↦ inl e
      | inr (c', e, w, g) ↦ inr (
        c',
        e,
        w,
        g ∙ ap (λ l. l ++ texts calls) a.in_order ∙ append_assoc (given c) msg (texts calls),
      )
    ])
calls_run-in_order c (writes reply ∷ calls) v (s, ss) h =
    elim (write_non_blocking-Writes c v reply s) [
      | inl e ↦ inl (rw e refl)
      | inr (d, e, (w, g, m)) ↦ rw e (elim (calls_run-in_order d calls w ss (omega (arith, m))) [
        | inl p ↦ inl p
        | inr (c', p, u, q) ↦ inr (c', p, u, q ∙ ap (λ l. l ++ texts calls) g)
      ])
    ]
