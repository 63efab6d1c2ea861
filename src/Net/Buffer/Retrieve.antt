-- ===== src/Net/Buffer/Retrieve.antt =====
-- Buffer.cpp: Retrieve, RetrieveUntil, RetrieveAll and the reading variants.
use l.Base.{
  ==_iff, Bool-cases, [], add_size, ap, arith, drop, drop_all, err, false, inl, inr, length,
  le→ltb_false, ltb, lt→ltb, ok, out_of_range, refl, subst, sym, take, take_all, true, ℕ, ◌+◌, ◌-◌,
  ◌<◌, ◌==◌, ◌∙◌, ◌≡◌, ◌≤◌, ◌⊎◌,
}
use l.Net.Buffer.{
  Buffer, IsValid, begin_write, bytes_at, contents, peek, readable_bytes, retrieve, retrieve_all,
  retrieve_all_as_string, retrieve_as_string, retrieve_until,
}
use l.Net.Buffer.Contents.{bytes_at-take, drop-bytes_at, length-contents, readable_bytes-length}

-- What a buffer is after its first `n` bytes have been taken off.
pub record Takes (b : Buffer) (n : ℕ) (b' : Buffer) : Type 0 where
  pub valid : IsValid b'
  pub rest : contents b' ≡ drop n (contents b)
  pub kept : b'.storage ≡ b.storage

module _ (b : Buffer) (v : IsValid b) where
  pub retrieve_all-Takes : Takes b (length (contents b)) (retrieve_all b)
  unfolding retrieve_all
  retrieve_all-Takes = record {
    valid = record {
      reserved = omega arith;
      ordered = omega arith;
      within = omega arith;
      bounded = v.bounded;
    };
    rest = unfold contents in sym (drop_all (length (contents b)) (contents b) (omega arith));
    kept = refl;
  }

  pub contents-retrieve_all : contents (retrieve_all b) ≡ []
  unfolding retrieve_all contents
  contents-retrieve_all = refl

  pub advance-Takes :
      (n : ℕ) → n ≤ length (contents b) → Takes b n (record b { reader_index = b.reader_index + n })
  advance-Takes n h = record {
    valid = record {
      reserved = omega arith;
      ordered = omega (arith, length-contents b v);
      within = v.within;
      bounded = v.bounded;
    };
    rest =
        unfold contents in
        ap (bytes_at b.storage (b.reader_index + n)) (omega arith)
        ∙ sym (drop-bytes_at b.storage b.reader_index (b.writer_index - b.reader_index) n);
    kept = refl;
  }

  -- Retrieve of at most as many bytes as a valid buffer holds succeeds: the result is valid, holds
  -- what is left without them, from the front, and has the same storage.
  pub retrieve-Takes :
      (n : ℕ) → n ≤ length (contents b) → (b' : Buffer) × (retrieve b n ≡ ok b') × Takes b n b'
  unfolding retrieve
  retrieve-Takes n h = elim (Bool-cases (n == readable_bytes b)) [
    | inl t ↦ (
      retrieve_all b,
      rw (enough, t) refl,
      subst (λ k. Takes b k (retrieve_all b))
          (omega (arith, (==_iff n (readable_bytes b)).0 t, readable_bytes-length b v))
          retrieve_all-Takes,
    )
    | inr f ↦ (
      record b { reader_index = b.reader_index + n },
      rw (enough, f, sum) refl,
      advance-Takes n h,
    )
  ]
    where
      enough : ltb (readable_bytes b) n ≡ false
      enough = le→ltb_false _ _ (omega (arith, readable_bytes-length b v))

      sum : add_size b.reader_index n ≡ b.reader_index + n
      sum = omega (arith, length-contents b v)

  short : (n : ℕ) → length (contents b) < n → ltb (readable_bytes b) n ≡ true
  short n h = lt→ltb _ _ (omega (arith, readable_bytes-length b v))

  -- More bytes than are there: the calls that take a length throw.
  pub retrieve_too_long :
      (n : ℕ)
      → length (contents b) < n
      → (retrieve b n ≡ err out_of_range) × (retrieve_as_string b n ≡ err out_of_range)
  unfolding retrieve retrieve_as_string
  retrieve_too_long n h = (rw (short n h) refl, rw (short n h) refl)

  pub bytes_at-contents :
      (n : ℕ) → n ≤ length (contents b) → bytes_at b.storage (peek b) n ≡ take n (contents b)
  unfolding peek contents
  bytes_at-contents n h = sym (
      bytes_at-take b.storage b.reader_index (b.writer_index - b.reader_index) n
        (omega (arith, length-contents b v)))

  -- RetrieveAsString of at most as many bytes as a valid buffer holds succeeds: it hands out that
  -- many bytes from the front, and the result is valid, holds the rest and has the same storage.
  pub retrieve_as_string-Takes :
      (n : ℕ)
      → n ≤ length (contents b)
      → (b' : Buffer) × (retrieve_as_string b n ≡ ok (take n (contents b), b')) × Takes b n b'
  unfolding retrieve_as_string
  retrieve_as_string-Takes n h =
      let (b', e, t) = retrieve-Takes n h in (b', rw (enough, e, bytes_at-contents n h) refl, t)
    where
      enough : ltb (readable_bytes b) n ≡ false
      enough = le→ltb_false _ _ (omega (arith, readable_bytes-length b v))

  -- RetrieveAllAsString hands out everything, in order, and leaves the buffer empty.
  pub retrieve_all_as_string-contents :
      (b' : Buffer) × (retrieve_all_as_string b ≡ ok (contents b, b'))
      × IsValid b'
      × (contents b' ≡ [])
  unfolding retrieve_all_as_string
  retrieve_all_as_string-contents =
      let (b', e, t) =
        retrieve_as_string-Takes (readable_bytes b) (omega (arith, readable_bytes-length b v)) in
      (
        b',
        e
            ∙ ap (λ l. ok (l, b'))
                (take_all (readable_bytes b) (contents b)
                  (omega (arith, readable_bytes-length b v))),
        t.valid,
        t.rest
            ∙ drop_all (readable_bytes b) (contents b) (omega (arith, readable_bytes-length b v)),
      )

  -- A pointer inside the readable bytes, its ends included.
  pub retrieve_until-Takes :
      (end : ℕ)
      → b.reader_index ≤ end
      → end ≤ b.writer_index
      → (b' : Buffer) × (retrieve_until b end ≡ ok b') × Takes b (end - b.reader_index) b'
  unfolding retrieve_until peek begin_write
  retrieve_until-Takes end h k =
      rw (le→ltb_false end b.reader_index h, le→ltb_false b.writer_index end k)
        (retrieve-Takes (end - b.reader_index) (omega (arith, length-contents b v)))

  pub retrieve_until_outside :
      (end : ℕ)
      → (end < b.reader_index) ⊎ (b.writer_index < end)
      → retrieve_until b end ≡ err out_of_range
  unfolding retrieve_until peek begin_write
  retrieve_until_outside end (inl h) = rw (lt→ltb end b.reader_index h) refl
  retrieve_until_outside end (inr h) = ground (arith, lt→ltb b.writer_index end h)
