-- ===== src/Tcp/TcpConnection/Reads.antt =====
-- The tutorial's ReadNonBlocking, on any answers of read().
use l.Base.{
  Result, ok, Bool, Bool-cases, Bytes, List, [], ap, append-nil, append_assoc, arith, false,
  if◌then◌else◌, inl, inr, length, length-append, refl, sym, take, true, ◌*◌, ◌+◌, ◌++◌, ◌==◌, ◌∙◌,
  ◌∷◌, ◌≡◌, ◌≤◌,
}
use l.Net.Buffer.{Buffer, contents}
use l.Net.System.{Reply, eagain, eintr, failed, returned}
use l.Tcp.Buffer.{int_max}
use l.Tcp.Buffer.Queue.{IsSound, append-Appends}
use l.Tcp.TcpConnection.{TcpConnection, handle_close, read_non_blocking, read_size}

-- What is read before an answer ends the loop, and whether that answer ends the connection.
unfoldable pub heard : List (Reply Bytes) → Bytes
heard [] = []
heard (returned [] ∷ replies) = []
heard (returned (byte ∷ bytes) ∷ replies) = take read_size (byte ∷ bytes) ++ heard replies
heard (failed e ∷ replies) = let more = heard replies in if e == eintr then more else []

unfoldable pub hangs_up : List (Reply Bytes) → Bool
hangs_up [] = false
hangs_up (returned [] ∷ replies) = true
hangs_up (returned (byte ∷ bytes) ∷ replies) = hangs_up replies
hangs_up (failed e ∷ replies) =
    let later = hangs_up replies in
    if e == eintr then later else if e == eagain then false else true

-- The connection with what was read, closed if the peer hung up.
abbrev pub with_read : Bool → Buffer → TcpConnection → TcpConnection
with_read hung_up b c =
    if hung_up then handle_close (record c { read_buf = b }) else record c { read_buf = b }

abbrev pub Hears : TcpConnection → Bytes → Bool → Result TcpConnection → Type 0
Hears c bytes hung_up r =
    (b : Buffer) × (r ≡ ok (with_read hung_up b c))
    × IsSound b
    × (contents b ≡ contents c.read_buf ++ bytes)

nothing_Hears : (c : TcpConnection) → IsSound c.read_buf → Hears c [] false (ok c)
nothing_Hears c v = (c.read_buf, refl, v, sym (append-nil (contents c.read_buf)))

closed_Hears : (c : TcpConnection) → IsSound c.read_buf → Hears c [] true (ok (handle_close c))
closed_Hears c v = (c.read_buf, refl, v, sym (append-nil (contents c.read_buf)))

-- Whatever read() answers, if the input buffer is valid and its size an int, and the bytes held,
-- twice those that are read and 8 fit an int, the loop
-- of ReadNonBlocking puts the bytes that it reads before the answer that ends it behind those in
-- the input buffer, in order, and closes the connection exactly if that answer is the end of the
-- stream or an error other than EAGAIN and EINTR; nothing else of the connection changes.
pub read_non_blocking-Hears :
    (replies : List (Reply Bytes)) (c : TcpConnection)
    → IsSound c.read_buf
    → length (contents c.read_buf) + 2 * length (heard replies) + 8 ≤ int_max
    → Hears c (heard replies) (hangs_up replies) (read_non_blocking replies c)
unfolding heard hangs_up read_non_blocking
read_non_blocking-Hears [] c v h = nothing_Hears c v
read_non_blocking-Hears (returned [] ∷ replies) c v h = closed_Hears c v
read_non_blocking-Hears (returned (byte ∷ bytes) ∷ replies) c v h =
    let got = take read_size (byte ∷ bytes) in
    let size = length-append got (heard replies) in
    let (d, p, u, a) = append-Appends c.read_buf v got (omega (arith, size)) in
    let (b, e, w, q) =
      read_non_blocking-Hears replies (record c { read_buf = d }) u
        (omega (arith, size, ap length a, length-append (contents c.read_buf) got)) in
    (
      b,
      rw p e,
      w,
      q ∙ ap (λ l. l ++ heard replies) a ∙ append_assoc (contents c.read_buf) got (heard replies),
    )
read_non_blocking-Hears (failed e ∷ replies) c v h = elim (Bool-cases (e == eintr)) [
  | inl t ↦ rw t (read_non_blocking-Hears replies c v (rw t at h))
  | inr f ↦ elim (Bool-cases (e == eagain)) [
    | inl u ↦ rw (f, u) (nothing_Hears c v)
    | inr g ↦ rw (f, g) (closed_Hears c v)
  ]
]
