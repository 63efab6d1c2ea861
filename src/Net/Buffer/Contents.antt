-- ===== src/Net/Buffer/Contents.antt =====
-- Buffer.cpp: the buffer as a queue of bytes, and its sizes.
use l.Base.{
  List, ap, arith, drop, drop-append, drop-append_length, drop-drop, drop-take, length,
  length-append, length-drop, length-take, refl, take, take-append_add, take-append_length,
  take-take, ℕ, ◌++◌, ◌+◌, ◌-◌, ◌∙◌, ◌≡◌, ◌≤◌,
}
use l.Net.Buffer.{Buffer, IsValid, bytes_at, contents, readable_bytes, writable_bytes, write_at}

module _ (b : Buffer) (v : IsValid b) where
  pub readable_bytes-eq : readable_bytes b ≡ b.writer_index - b.reader_index
  unfolding readable_bytes
  readable_bytes-eq = omega arith

  pub writable_bytes-eq : writable_bytes b ≡ length b.storage - b.writer_index
  unfolding writable_bytes
  writable_bytes-eq = omega arith

  pub length-contents : length (contents b) ≡ b.writer_index - b.reader_index
  unfolding contents
  length-contents = omega (
    arith,
    length-take (b.writer_index - b.reader_index) (drop b.reader_index b.storage),
    length-drop b.reader_index b.storage,
  )

  pub readable_bytes-length : readable_bytes b ≡ length (contents b)
  readable_bytes-length = omega (arith, readable_bytes-eq, length-contents)

-- A section of the storage, once the storage is cut at both of its ends.
pub bytes_at-append :
    (xs ys zs : List ℕ) (start len : ℕ)
    → length xs ≡ start
    → length ys ≡ len
    → bytes_at (xs ++ (ys ++ zs)) start len ≡ ys
bytes_at-append xs ys zs start len h k =
    rw (drop-append_length start xs (ys ++ zs) h) (take-append_length len ys zs k)

pub length-write_at :
    (s : List ℕ) (start : ℕ) (bytes : List ℕ)
    → start + length bytes ≤ length s
    → length (write_at s start bytes) ≡ length s
length-write_at s start bytes h = omega (
  arith,
  length-append (take start s) (bytes ++ drop (start + length bytes) s),
  length-append bytes (drop (start + length bytes) s),
  length-take start s,
  length-drop (start + length bytes) s,
)

-- Writing behind a section appends to it.
pub bytes_at-write_at :
    (s : List ℕ) (start len : ℕ) (bytes : List ℕ)
    → start + len ≤ length s
    → bytes_at (write_at s (start + len) bytes) start (len + length bytes)
      ≡ bytes_at s start len ++ bytes
bytes_at-write_at s start len bytes h =
    rw (drop-append start (take (start + len) s) rest (omega (arith, length-take (start + len) s)))
      (rw (drop-take start (start + len) s) (
        rw (section-eq) (
          rw
            (take-append_add len (length bytes) (bytes_at s start len) rest
              (omega (arith, length-take len (drop start s), length-drop start s)))
            (rw (
              take-append_length (length bytes) bytes (drop (start + len + length bytes) s)
                refl)))))
  where
    rest : List ℕ
    rest = bytes ++ drop (start + len + length bytes) s

    section-eq : take (start + len - start) (drop start s) ≡ bytes_at s start len
    section-eq = ap (λ k. take k (drop start s)) (omega arith)

pub bytes_at-take :
    (s : List ℕ) (start len n : ℕ) → n ≤ len → take n (bytes_at s start len) ≡ bytes_at s start n
bytes_at-take s start len n h = take-take n len (drop start s) h

pub drop-bytes_at :
    (s : List ℕ) (start len n : ℕ)
    → drop n (bytes_at s start len) ≡ bytes_at s (start + n) (len - n)
drop-bytes_at s start len n =
    drop-take n len (drop start s) ∙ ap (take (len - n)) (drop-drop n start s)
