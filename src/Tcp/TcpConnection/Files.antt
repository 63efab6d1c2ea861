-- ===== src/Tcp/TcpConnection/Files.antt =====
-- The tutorial's SendFile, when sendfile() takes the file in one piece or in two.
use l.Base.{
  Bool-cases, eq_nil, inl, inr, ltb_false→le, Bytes, [], append-nil, arith, drop, length,
  length-drop, lt→ltb, ltb, min, refl, take, take_all, true, ℕ, ◌*◌, ◌+◌, ◌++◌, ◌-◌, ◌<◌, ◌∷◌, ◌≡◌,
}
use l.Net.System.{returned}
use l.Tcp.TcpConnection.{TcpConnection, send_file, send_file_loop}

module _ (file : Bytes) where
  pub send_file-whole :
      (c : TcpConnection)
      → send_file file (length file) (returned (length file) ∷ []) c
        ≡ record c { sent = c.sent ++ file }
  unfolding send_file send_file_loop
  send_file-whole c = elim (Bool-cases (ltb 0 (length file))) [
    | inl t ↦ rw (t, whole, take_all (length file) file (omega arith), append-nil file) refl
    | inr f ↦ rw (f, eq_nil file (omega (arith, ltb_false→le 0 (length file) f))) refl
  ]
    where
      whole : min (length file) (length file - 0) ≡ length file
      whole = omega arith

  -- A file that sendfile() takes at once goes out whole, behind what was sent. If the first call
  -- takes n bytes of it, less than half, and the second all that it is then asked for, then the
  -- n bytes behind the first n are left out.
  pub send_file-skips :
      (n : ℕ) (c : TcpConnection)
      → 0 < n
      → 2 * n < length file
      → (send_file file (length file) (returned (length file) ∷ []) c
          ≡ record c { sent = c.sent ++ file })
        × (send_file file (length file) (returned n ∷ returned (length file) ∷ []) c
            ≡ record c { sent = c.sent ++ (take n file ++ drop (2 * n) file) })
  unfolding send_file send_file_loop
  send_file-skips n c h k =
      let some_left : ltb 0 (length file) ≡ true = lt→ltb _ _ (omega arith) in
      let first : min n (length file - 0) ≡ n = omega arith in
      let double : 0 + n + n ≡ 2 * n = omega arith in
      let more : ltb (2 * n) (length file) ≡ true = lt→ltb _ _ (omega arith) in
      let second : min (length file) (length file - 2 * n) ≡ length file - 2 * n = omega arith in
      (
        send_file-whole c,
        rw
            (
              some_left,
              first,
              double,
              more,
              second,
              take_all (length file - 2 * n) (drop (2 * n) file)
                  (omega (arith, length-drop (2 * n) file)),
              append-nil (drop (2 * n) file),
            )
            refl,
      )
