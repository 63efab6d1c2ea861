-- ===== src/Tcp/Buffer/Queue.antt =====
-- The tutorial's buffer as a queue of bytes.
use l.Base.{
  length-replicate, zero, [], Bool-cases, Bytes, ap, arith, assertion_failed, err, inl, inr, sym,
  ◌++◌, le→ltb_false, lt→ltb, ltb_false→le, ltb→lt, length, ltb, ok, pos, refl, true, ℕ, ◌*◌, ◌+◌,
  ◌<◌, ◌≡◌, ◌≤◌, false,
}
use l.Net.Buffer.{Buffer, IsValid, cheap_prepend, contents, initial_size, write_at}
use l.Net.Buffer.Contents.{length-contents}
use l.Net.Buffer.Queue.{Appends, write_back, write_back-Appends}
use l.Net.Buffer.Retrieve.{Takes, advance-Takes}
use l.Net.Buffer.Space.{Makes, compact, compact-Makes, extended, extended-Makes}
use l.Tcp.Buffer.{
  append, int_max, room_for, to_int, ensure_writable_bytes, new_buffer, prependablebytes,
  readablebytes, retrieve, writablebytes,
}

-- The buffer is valid, and its size an int.
pub record IsSound (b : Buffer) : Type 0 where
  pub valid : IsValid b
  pub fits : length b.storage ≤ int_max

pub new_buffer-IsSound : IsSound new_buffer × (contents new_buffer ≡ [])
unfolding new_buffer contents
new_buffer-IsSound = (
  record {
    valid = record {
      reserved = omega arith;
      ordered = omega arith;
      within = omega (arith, length-replicate initial_size zero);
      bounded = omega (arith, length-replicate initial_size zero);
    };
    fits = omega (arith, length-replicate initial_size zero);
  },
  refl,
)

-- A size that is an int stays itself.
pub to_int_lem : (n : ℕ) → n ≤ int_max → to_int n ≡ ok n
unfolding to_int
to_int_lem n h = rw (le→ltb_false int_max n h) refl

module _ (b : Buffer) (s : IsSound b) where
  abbrev sound_valid : IsValid b
  sound_valid = s.valid

  ensure_writable_bytes-Makes :
      (len : ℕ)
      → length (contents b) + 2 * len + cheap_prepend ≤ int_max
      → (b' : Buffer) × (ensure_writable_bytes b len ≡ ok b') × Makes b len b'
  unfolding ensure_writable_bytes room_for writablebytes prependablebytes readablebytes
  ensure_writable_bytes-Makes len h = elim (Bool-cases (ltb (writablebytes b) len)) [
    | inl t ↦
        let few = ltb→lt (writablebytes b) len t in
        let needed = to_int_lem (cheap_prepend + len) (omega arith) in
        elim (Bool-cases (ltb (writablebytes b + prependablebytes b) (cheap_prepend + len))) [
          | inl u ↦
              let none = ltb→lt (writablebytes b + prependablebytes b) (cheap_prepend + len) u in
              let size : b.writer_index + len ≤ int_max =
                omega (arith, none, length-contents b sound_valid) in
              (
                extended b (b.writer_index + len),
                rw (t, needed, u, to_int_lem (b.writer_index + len) size) refl,
                extended-Makes b sound_valid len (omega (arith, few)) (omega (arith, size))
                    (omega (arith, none)),
              )
          | inr f ↦ (
            compact b,
            rw (t, needed, f) (ap ok (sym compact-eq)),
            compact-Makes b sound_valid len (
                omega (
                  arith,
                  ltb_false→le (writablebytes b + prependablebytes b) (cheap_prepend + len) f,
                )),
          )
        ]
    | inr f ↦ (
      b,
      rw f refl,
      record {
        valid = sound_valid;
        same = refl;
        room = omega (arith, ltb_false→le (writablebytes b) len f);
        small = inl (omega arith);
      },
    )
  ]
    where
      compact-eq : ◌≡◌ {A = Buffer} (compact b) (record {
        storage = write_at b.storage cheap_prepend (contents b);
        reader_index = cheap_prepend;
        writer_index = cheap_prepend + readablebytes b;
      })
      compact-eq =
          unfold compact in
          ap
            (λ n. record {
              storage = write_at b.storage cheap_prepend (contents b);
              reader_index = cheap_prepend;
              writer_index = cheap_prepend + n;
            })
            (length-contents b sound_valid)

  -- What is appended to a sound buffer stands behind what it held, if no int is too large.
  pub append-Appends :
      (bytes : Bytes)
      → length (contents b) + 2 * length bytes + cheap_prepend ≤ int_max
      → (b' : Buffer) × (append b bytes ≡ ok b') × IsSound b' × (contents b' ≡ contents b ++ bytes)
  unfolding append write_back
  append-Appends bytes h =
      let (c, e, m) = ensure_writable_bytes-Makes (length bytes) h in
      let a = write_back-Appends c bytes m in
      (
        write_back c bytes,
        rw (to_int_lem (length bytes) (omega arith), e) refl,
        record { valid = a.valid; fits = fitting (write_back c bytes) a },
        a.queued,
      )
    where
      fitting : (b' : Buffer) → Appends b bytes b' → length b'.storage ≤ int_max
      fitting b' a = elim a.small [ inl k ↦ omega (arith, k, s.fits) | inr k ↦ omega (arith, k, h) ]

module _ (b : Buffer) (v : IsValid b) where
  pub retrieve-less :
      (n : ℕ)
      → n < length (contents b)
      → (retrieve b (pos n) ≡ ok (record b { reader_index = b.reader_index + n }))
        × Takes b n (record b { reader_index = b.reader_index + n })
  unfolding retrieve readablebytes
  retrieve-less n h =
      let held : ltb n (readablebytes b) ≡ true =
        lt→ltb n (readablebytes b) (omega (arith, length-contents b v)) in
      let inside : ltb (n + b.reader_index) b.writer_index ≡ true =
        lt→ltb _ _ (omega (arith, length-contents b v)) in
      (rw (held, inside) refl, advance-Takes b v n (omega arith))

  pub retrieve-rest : (n : ℕ) → length (contents b) ≤ n → retrieve b (pos n) ≡ err assertion_failed
  unfolding retrieve readablebytes
  retrieve-rest n h =
      let few : ltb n (readablebytes b) ≡ false =
        le→ltb_false n (readablebytes b) (omega (arith, length-contents b v)) in
      rw few refl
