-- ===== src/Net/Buffer/Queue.antt =====
-- Buffer.cpp: a new buffer, and Append.
use l.Base.{
  ==_iff, Bool-cases, List, [], add_size, ap, append-nil, arith, eq_nil, false, inl, inr, length,
  length-replicate, le→ltb_false, ltb, ok, refl, sub_size, sym, take_all, true, zero, ℕ, ◌*◌, ◌++◌,
  ◌+◌, ◌-◌, ◌==◌, ◌∙◌, ◌≡◌, ◌≤◌, ◌⊎◌,
}
use l.Net.Buffer.{
  Buffer, IsValid, append, append_string, begin_write, cheap_prepend, contents, create, has_written,
  max_size, writable_bytes, write_at,
}
use l.Net.Buffer.Contents.{bytes_at-write_at, length-write_at}
use l.Net.Buffer.Space.{Makes, ensure_writable_bytes-Makes}

pub create-IsValid :
    (n : ℕ) → cheap_prepend + n ≤ max_size → IsValid (create n) × (contents (create n) ≡ [])
unfolding create contents
create-IsValid n h = (
  record {
    reserved = omega arith;
    ordered = omega arith;
    within = omega (arith, length-replicate (cheap_prepend + n) (zero));
    bounded = omega (arith, length-replicate (cheap_prepend + n) (zero));
  },
  refl,
)

-- What a buffer is after `bytes` have been appended to it.
pub record Appends (b : Buffer) (bytes : List ℕ) (b' : Buffer) : Type 0 where
  pub valid : IsValid b'
  pub queued : contents b' ≡ contents b ++ bytes
  pub small :
      (length b'.storage ≤ length b.storage)
      ⊎ (length b'.storage ≤ length (contents b) + 2 * length bytes + cheap_prepend)

unfoldable pub write_back : Buffer → List ℕ → Buffer
write_back b bytes = record b {
  storage = write_at b.storage b.writer_index bytes;
  writer_index = b.writer_index + length bytes;
}

module _ (b : Buffer) (bytes : List ℕ) where
  write_back-queued :
      IsValid b
      → b.writer_index + length bytes ≤ length b.storage
      → contents (write_back b bytes) ≡ contents b ++ bytes
  unfolding contents write_back
  write_back-queued v h =
      rw (start-eq, len-eq) at
        (bytes_at-write_at b.storage b.reader_index (b.writer_index - b.reader_index) bytes
          (omega arith))
    where
      start-eq : b.reader_index + (b.writer_index - b.reader_index) ≡ b.writer_index
      start-eq = omega arith

      len-eq :
          b.writer_index - b.reader_index + length bytes
          ≡ b.writer_index + length bytes - b.reader_index
      len-eq = omega arith

  pub write_back-Appends :
      {c : Buffer} → Makes c (length bytes) b → Appends c bytes (write_back b bytes)
  unfolding write_back
  write_back-Appends m = record {
    valid = record {
      reserved = v.reserved;
      ordered = omega arith;
      within = omega (arith, size);
      bounded = omega (arith, size);
    };
    queued = write_back-queued v m.room ∙ ap (λ l. l ++ bytes) m.same;
    small = elim m.small [ inl h ↦ inl (omega (arith, size)) | inr h ↦ inr (omega (arith, size)) ];
  }
    where
      v : IsValid b
      v = m.valid

      size : length (write_at b.storage b.writer_index bytes) ≡ length b.storage
      size = length-write_at b.storage b.writer_index bytes m.room

  has_written-write_back :
      IsValid b
      → b.writer_index + length bytes ≤ length b.storage
      → has_written (record b { storage = write_at b.storage b.writer_index bytes }) (length bytes)
        ≡ ok (write_back b bytes)
  unfolding has_written write_back writable_bytes
  has_written-write_back v h =
      let size = length-write_at b.storage b.writer_index bytes h in
      let room : ltb (sub_size (length (write_at b.storage b.writer_index bytes)) b.writer_index)
            (length bytes)
          ≡ false =
        le→ltb_false _ _ (omega (arith, size)) in
      let sum : add_size b.writer_index (length bytes) ≡ b.writer_index + length bytes =
        omega (arith, size) in
      rw (room, sum) refl

module _ (b : Buffer) (v : IsValid b) (bytes : List ℕ) where
  append-fresh :
      length (contents b) + 2 * length bytes + cheap_prepend ≤ max_size
      → (length bytes == 0) ≡ false
      → (b' : Buffer) × (append_string b bytes ≡ ok b') × Appends b bytes b'
  unfolding append append_string begin_write
  append-fresh h n =
      let (c, e, m) = ensure_writable_bytes-Makes b v (length bytes) h in
      (
        write_back c bytes,
        rw (n, e, take_all (length bytes) bytes (omega arith))
            (has_written-write_back c bytes m.valid m.room),
        write_back-Appends c bytes m,
      )

  append-nothing : (length bytes == 0) ≡ true → (append_string b bytes ≡ ok b) × Appends b bytes b
  unfolding append append_string
  append-nothing t = (
    rw t refl,
    record {
      valid = v;
      queued =
          sym (append-nil (contents b))
          ∙ ap (◌++◌ (contents b)) (sym (eq_nil bytes ((==_iff (length bytes) 0).0 t)));
      small = inl (omega arith);
    },
  )

  -- If the bytes held, twice the bytes added and the reserved 8 fit a vector, Append of a string to
  -- a valid buffer succeeds: the result is valid and holds the old bytes and then the new ones, and
  -- its storage has not grown, or is no larger than the bytes held, twice the bytes added and the
  -- reserved 8.
  pub append_string-Appends :
      length (contents b) + 2 * length bytes + cheap_prepend ≤ max_size
      → (b' : Buffer) × (append_string b bytes ≡ ok b') × Appends b bytes b'
  append_string-Appends h = elim (Bool-cases (length bytes == 0)) [
    | inl t ↦ let (e, a) = append-nothing t in (b, e, a)
    | inr f ↦ append-fresh h f
  ]
