-- ===== src/Net/Buffer/Space.antt =====
-- Buffer.cpp: MakeSpace and EnsureWritableBytes.
use l.Base.{
  Bool-cases, List, add_size, ap, arith, drop, drop-append, inl, inr, length, length-append,
  length-drop, length-replicate, length-take, le→ltb_false, ltb, ltb_false→le, ltb→lt, ok, refl,
  replicate, sub_size, take, take-append, take_all, true, zero, ℕ, ◌*◌, ◌++◌, ◌+◌, ◌-◌, ◌<◌, ◌∙◌,
  ◌≡◌, ◌≤◌, ◌⊎◌,
}
use l.Net.Buffer.{
  Buffer, IsValid, bytes_at, cheap_prepend, contents, ensure_writable_bytes, make_space, max_size,
  peek, prependable_bytes, readable_bytes, resize, writable_bytes, write_at,
}
use l.Net.Buffer.Contents.{
  bytes_at-append, length-contents, length-write_at, readable_bytes-eq, writable_bytes-eq,
}

-- `b'` is `b` with room for `len` more bytes.
pub record Makes (b : Buffer) (len : ℕ) (b' : Buffer) : Type 0 where
  pub valid : IsValid b'
  pub same : contents b' ≡ contents b
  pub room : b'.writer_index + len ≤ length b'.storage
  pub small :
      (length b'.storage ≤ length b.storage)
      ⊎ (length b'.storage ≤ length (contents b) + 2 * len + cheap_prepend)

unfoldable pub compact : Buffer → Buffer
compact b = record {
  storage = write_at b.storage cheap_prepend (contents b);
  reader_index = cheap_prepend;
  writer_index = cheap_prepend + length (contents b);
}

abbrev pub extended : Buffer → ℕ → Buffer
extended b n = record b { storage = b.storage ++ replicate (n - length b.storage) 0 }

module _ (b : Buffer) (v : IsValid b) (len : ℕ) where
  spare-eq :
      sub_size (add_size (writable_bytes b) (prependable_bytes b)) cheap_prepend
      ≡ length b.storage - b.writer_index + b.reader_index - cheap_prepend
  unfolding prependable_bytes
  spare-eq = omega (arith, writable_bytes-eq b v)

  extended-same : (zs : List ℕ) → contents (record b { storage = b.storage ++ zs }) ≡ contents b
  unfolding contents
  extended-same zs = rw (drop-append b.reader_index b.storage zs (omega arith)) (
      take-append (b.writer_index - b.reader_index) (drop b.reader_index b.storage) zs
        (omega (arith, length-drop b.reader_index b.storage)))

  pub extended-Makes :
      length b.storage < b.writer_index + len
      → b.writer_index + len ≤ max_size
      → length b.storage - b.writer_index + b.reader_index - cheap_prepend < len
      → Makes b len (extended b (b.writer_index + len))
  extended-Makes h k t = record {
    valid = record {
      reserved = v.reserved;
      ordered = v.ordered;
      within = omega (arith, size);
      bounded = omega (arith, size);
    };
    same = extended-same zeros;
    room = omega (arith, size);
    small = inr (omega (arith, size, length-contents b v));
  }
    where
      zeros : List ℕ
      zeros = replicate (b.writer_index + len - length b.storage) 0

      size : length (b.storage ++ zeros) ≡ b.writer_index + len
      size = omega (
        arith,
        length-append b.storage zeros,
        length-replicate (b.writer_index + len - length b.storage) (zero),
      )

  compact-size : length (write_at b.storage cheap_prepend (contents b)) ≡ length b.storage
  compact-size =
      length-write_at b.storage cheap_prepend (contents b) (omega (arith, length-contents b v))

  compact-same : contents (compact b) ≡ contents b
  unfolding compact
  compact-same =
      contents-eq
      ∙ bytes_at-append (take cheap_prepend b.storage) (contents b)
          (drop (cheap_prepend + length (contents b)) b.storage) cheap_prepend (length (contents b))
          (omega (arith, length-take cheap_prepend b.storage, length-contents b v)) refl
    where
      contents-eq :
          contents (compact b) ≡ bytes_at (compact b).storage cheap_prepend (length (contents b))
      contents-eq = unfold contents in ap (bytes_at (compact b).storage cheap_prepend) (omega arith)

  pub compact-Makes :
      len ≤ length b.storage - b.writer_index + b.reader_index - cheap_prepend
      → Makes b len (compact b)
  unfolding compact
  compact-Makes t = record {
    valid = record {
      reserved = omega arith;
      ordered = omega arith;
      within = omega (arith, compact-size, length-contents b v);
      bounded = omega (arith, compact-size);
    };
    same = compact-same;
    room = omega (arith, compact-size, length-contents b v);
    small = inl (omega (arith, compact-size));
  }

  resize_lem :
      length b.storage < b.writer_index + len
      → b.writer_index + len ≤ max_size
      → resize b.storage (add_size b.writer_index len)
        ≡ ok (b.storage ++ replicate (b.writer_index + len - length b.storage) 0)
  unfolding resize
  resize_lem h k =
      let e : add_size b.writer_index len ≡ b.writer_index + len = omega arith in
      rw e (
        rw (le→ltb_false max_size (b.writer_index + len) k)
          (rw (take_all (b.writer_index + len) b.storage (omega arith)) refl))

  moved-compact :
      ◌≡◌ {A = Buffer}
        (record {
          storage =
              write_at b.storage cheap_prepend (bytes_at b.storage (peek b) (readable_bytes b));
          reader_index = cheap_prepend;
          writer_index = add_size cheap_prepend (readable_bytes b);
        })
        (compact b)
  unfolding compact contents peek
  moved-compact = λ i. record {
    storage =
        write_at b.storage cheap_prepend
          (bytes_at b.storage b.reader_index (readable_bytes-eq b v i));
    reader_index = cheap_prepend;
    writer_index = writer i;
  }
    where
      writer : add_size cheap_prepend (readable_bytes b) ≡ cheap_prepend + length (contents b)
      writer = omega (arith, readable_bytes-eq b v, length-contents b v)

  pub make_space-Makes :
      length b.storage < b.writer_index + len
      → length (contents b) + 2 * len + cheap_prepend ≤ max_size
      → (b' : Buffer) × (make_space b len ≡ ok b') × Makes b len b'
  unfolding make_space
  make_space-Makes h k = elim (Bool-cases (ltb spare len)) [
    | inl t ↦ (
      extended b (b.writer_index + len),
      rw (spare-eq, t, resize_lem h (bound t)) refl,
      extended-Makes h (bound t) (ltb→lt _ _ t),
    )
    | inr f ↦
        (compact b, rw (spare-eq, f) (ap ok moved-compact), compact-Makes (ltb_false→le _ _ f))
  ]
    where
      spare : ℕ
      spare = length b.storage - b.writer_index + b.reader_index - cheap_prepend

      bound : ltb spare len ≡ true → b.writer_index + len ≤ max_size
      bound t = omega (arith, ltb→lt spare len t, length-contents b v)

  -- If the bytes held, twice `len` and the reserved 8 fit a vector, EnsureWritableBytes of a valid
  -- buffer succeeds: the result is valid, holds the same bytes and has room for `len` more, and its
  -- storage has not grown, or is no larger than the bytes held, twice `len` and the reserved 8.
  pub ensure_writable_bytes-Makes :
      length (contents b) + 2 * len + cheap_prepend ≤ max_size
      → (b' : Buffer) × (ensure_writable_bytes b len ≡ ok b') × Makes b len b'
  unfolding ensure_writable_bytes
  ensure_writable_bytes-Makes k = elim (Bool-cases (ltb (writable_bytes b) len)) [
    | inl t ↦
        let (b', e, m) =
          make_space-Makes (omega (arith, ltb→lt (writable_bytes b) len t, writable_bytes-eq b v))
            k in
        (b', rw t e, m)
    | inr f ↦ (
      b,
      rw f refl,
      record {
        valid = v;
        same = refl;
        room = omega (arith, ltb_false→le (writable_bytes b) len f, writable_bytes-eq b v);
        small = inl (omega arith);
      },
    )
  ]
