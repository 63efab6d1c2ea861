-- ===== src/Tcp/Exchange/Messages.antt =====
-- What the tutorial's server makes of what a connection reads, and of a file that it sends.
use l.Base.{
  ==_iff, Bool, Bool-cases, Bytes, List, Result, [], ap, arith, assertion_failed, drop, eq_nil, err,
  false, if◌then◌else◌, inl, inr, length, length-drop, ltb, ltb_false→le, ok, pos, refl, sym, take,
  true, ℕ, ◌*◌, ◌+◌, ◌++◌, ◌==◌, ◌>>=◌, ◌∙◌, ◌∷◌, ◌≡◌, ◌≤◌,
}
use l.Net.Buffer.{Buffer, IsValid, contents}
use l.Net.Buffer.Contents.{length-contents}
use l.Net.System.{Reply, returned}
use l.Http.HttpServer.Upload
use l.Http.HttpServer.Upload.{ConnectionAction}
use l.Http.HttpResponse.{HttpResponse, beforebody, file_type, html_type, message}
use l.Http.HttpServer.{HttpServer, on_message, respond}
use l.Tcp.Buffer.{int_max, peek_all_as_string, readablebytes, retrieve_all, retrieve_all_as_string}
use l.Tcp.Buffer.Queue.{IsSound, append-Appends, to_int_lem}
use l.Tcp.TcpConnection.{
  TcpConnection, connected, handle_close, handle_close-quiet, keep_rest, send, send_bytes,
}
use l.Tcp.TcpConnection.Reads.{hangs_up, heard, read_non_blocking-Hears}
use l.Tcp.TcpConnection.Files.{send_file-whole}
use l.Tcp.Exchange.{
  send_some, send_sized, Surroundings, handle_message, is_connected, message_callback, perform,
}

-- What the server makes of a text that has been read whole.
abbrev pub on_text :
    HttpServer → Surroundings → List (Reply ℕ) → TcpConnection → Bytes → Result TcpConnection
on_text server s writes c text =
    on_message server s.any_length s.any_fd true c.context text >>= λ p.
    perform s writes p.1 (record c { context = p.0 })

held : (b : Buffer) → IsValid b → readablebytes b ≡ length (contents b)
unfolding readablebytes
held b v = omega (arith, length-contents b v)

module _ (c : TcpConnection) (up : c.state ≡ connected) where
  closed_quiet :
      (server : HttpServer) (s : Surroundings) (writes : List (Reply ℕ)) (b : Buffer)
      → message_callback server s writes (handle_close (record c { read_buf = b }))
        ≡ ok (handle_close (record c { read_buf = b }))
  unfolding message_callback handle_close is_connected
  closed_quiet server s writes b = rw up refl

  text_taken :
      (b : Buffer)
      → IsValid b
      → (server : HttpServer) (s : Surroundings) (writes : List (Reply ℕ)) (text : Bytes)
      → contents b ≡ text
      → message_callback server s writes (record c { read_buf = b }) ≡ (
          if ltb 0 (length text)
          then on_text server s writes (record c { read_buf = retrieve_all b }) text
          else err assertion_failed)
  unfolding message_callback is_connected retrieve_all_as_string peek_all_as_string
  text_taken b v server s writes text e = elim (Bool-cases (ltb 0 (length text))) [
    | inl t ↦ rw (up, held b v, e, t) refl
    | inr f ↦ rw (up, held b v, e, f) refl
  ]

  -- On a connected connection whose input buffer is valid, empty and of a size that is an int, if
  -- twice the bytes that are read and 8 fit an int, HandleMessage does one of three things,
  -- whatever read() answers: if the peer hung up, it closes the connection, and what was read with
  -- it is not looked at; if nothing was read, the program ends by an assert; and else the server is
  -- given all that was read, as one text, however read() cut it, and makes of the connection what
  -- its calls say.
  pub handle_message-Hears :
      (server : HttpServer) (s : Surroundings) (writes : List (Reply ℕ))
      (replies : List (Reply Bytes))
      → IsSound c.read_buf
      → contents c.read_buf ≡ []
      → 2 * length (heard replies) + 8 ≤ int_max
      → (b : Buffer) × IsSound b
        × (handle_message server s writes replies c ≡ (
            if hangs_up replies
            then ok (handle_close (record c { read_buf = b }))
            else if ltb 0 (length (heard replies))
            then on_text server s writes (record c { read_buf = retrieve_all b }) (heard replies)
            else err assertion_failed))
  unfolding handle_message
  handle_message-Hears server s writes replies v e h =
      let (b, p, w, q) = read_non_blocking-Hears replies c v (omega (arith, ap length e)) in
      let same : contents b ≡ heard replies = q ∙ ap (λ l. l ++ heard replies) e in
      (
        b,
        w,
        rw p (elim (Bool-cases (hangs_up replies)) [
          | inl t ↦ rw t (closed_quiet server s writes b)
          | inr f ↦ rw f (text_taken b w.valid server s writes (heard replies) same)
        ]),
      )

-- The parts of a message whose body is a file go to the socket in this order.
module _ (c : TcpConnection) (v : IsSound c.send_buf) (nothing : contents c.send_buf ≡ []) where
  idle_eq : (readablebytes c.send_buf == 0) ≡ true
  idle_eq =
      (==_iff (readablebytes c.send_buf) 0).1
        (omega (arith, held c.send_buf v.valid, ap length nothing))

  -- What a direct write of `head` leaves.
  head_sent :
      (head : Bytes) (n : ℕ)
      → 2 * length head + 8 ≤ int_max
      → (c' : TcpConnection) × (send head (returned n) c ≡ ok c')
        × (c'.sent ≡ c.sent ++ take n head)
        × (contents c'.send_buf ≡ drop n head)
  unfolding send send_bytes keep_rest
  head_sent head n h =
      let direct : TcpConnection = record c { sent = c.sent ++ take n head } in
      let size = to_int_lem (length head) (omega arith) in
      elim (Bool-cases (ltb 0 (length (drop n head)))) [
        | inl t ↦
            let (b, e, w, a) =
              append-Appends c.send_buf v (drop n head)
                (omega (arith, length-drop n head, ap length nothing)) in
            (
              record direct { send_buf = b; watches_write = true },
              rw (size, idle_eq, t, e) refl,
              refl,
              a ∙ ap (λ l. l ++ drop n head) nothing,
            )
        | inr f ↦ (
          direct,
          rw (size, idle_eq, f) refl,
          refl,
          nothing ∙ sym (eq_nil (drop n head) (omega (arith, ltb_false→le _ _ f))),
        )
      ]

  module _ (s : Surroundings) (r : HttpResponse) (file : Bytes) (n : ℕ) where
    abbrev last_calls : Bool → List ConnectionAction
    last_calls close = if close then Upload.handle_close ∷ [] else []

    abbrev and_file : TcpConnection → TcpConnection
    and_file d = record d { sent = d.sent ++ file }

    last_calls-quiet :
        (close : Bool) (d : TcpConnection)
        → (c' : TcpConnection) × (perform s [] (last_calls close) d ≡ ok c')
          × (c'.sent ≡ d.sent)
          × (c'.send_buf ≡ d.send_buf)
    unfolding perform
    last_calls-quiet true d =
        let (sent, waits) = handle_close-quiet d in (handle_close d, refl, sent, waits)
    last_calls-quiet false d = (d, refl, refl, refl)

    file_calls :
        r.body_type ≡ file_type
        → respond r
          ≡ Upload.send_text (beforebody r)
            ∷ Upload.send_file r.filefd r.content_length
            ∷ Upload.close_file r.filefd
            ∷ last_calls r.close_connection
    unfolding respond
    file_calls t =
        ap
          (λ b.
            (elim b [
              | html_type ↦ Upload.send_text (message r) ∷ []
              | file_type ↦
                  Upload.send_text (beforebody r)
                  ∷ Upload.send_file r.filefd r.content_length
                  ∷ Upload.close_file r.filefd
                  ∷ []
            ])
            ++ last_calls r.close_connection)
          t

    -- Behind the first write() no answers are left.
    abbrev no_answers : TcpConnection → Result (TcpConnection × List (Reply ℕ))
    no_answers d = ok (d, [])

    performed :
        (d : TcpConnection)
        → send (beforebody r) (returned n) c ≡ ok d
        → r.body_type ≡ file_type
        → r.content_length ≡ pos (length file)
        → s.file_of r.filefd ≡ file
        → s.pieces ≡ returned (length file) ∷ []
        → perform s (returned n ∷ []) (respond r) c
          ≡ perform s [] (last_calls r.close_connection) (and_file d)
    unfolding perform send_some
    performed d e t k f p =
        ap (λ calls. perform s (returned n ∷ []) calls c) (file_calls t)
        ∙ ap
            (λ x. x >>= no_answers >>= λ sent.
              perform s sent.1
                (Upload.send_file r.filefd r.content_length
                  ∷ Upload.close_file r.filefd
                  ∷ last_calls r.close_connection)
                sent.0)
            e
        ∙ ap (perform s [] (last_calls r.close_connection)) sized
      where
        sized : send_sized (s.file_of r.filefd) r.content_length s.pieces d ≡ and_file d
        sized =
            ap (λ x. send_sized x r.content_length s.pieces d) f
            ∙ ap (λ x. send_sized file x s.pieces d) k
            ∙ ap (λ x. send_sized file (pos (length file)) x d) p
            ∙ send_file-whole file d

    -- A response with a file, on a connection whose output buffer is valid, empty and of a size
    -- that is an int, when twice the head and 8 bytes fit an int, write() takes n bytes of the head
    -- and sendfile() takes the file at once: what goes out is the first n bytes of the head and
    -- then the file, and the rest of the head waits behind it. So the message is whole if write()
    -- took the whole head, and else out of order.
    pub respond-overtakes :
        r.body_type ≡ file_type
        → r.content_length ≡ pos (length file)
        → s.file_of r.filefd ≡ file
        → s.pieces ≡ returned (length file) ∷ []
        → 2 * length (beforebody r) + 8 ≤ int_max
        → (c' : TcpConnection) × (perform s (returned n ∷ []) (respond r) c ≡ ok c')
          × (c'.sent ≡ c.sent ++ take n (beforebody r) ++ file)
          × (contents c'.send_buf ≡ drop n (beforebody r))
    respond-overtakes t k f p h =
        let (d, e, sent, rest) = head_sent (beforebody r) n h in
        let (c', q, same, kept) = last_calls-quiet r.close_connection (and_file d) in
        (c', performed d e t k f p ∙ q, same ∙ ap (λ l. l ++ file) sent, ap contents kept ∙ rest)
