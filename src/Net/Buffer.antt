-- ===== src/Net/Buffer.antt =====
-- l4lb/src/net/Buffer.h and Buffer.cpp. A byte is a number; a pointer into the storage is its
-- offset from Begin(). size_t arithmetic wraps as in C++.
pub mod Contents
pub mod Space
pub mod Queue
pub mod Retrieve
use l.Base.{
  List, Option, Result, add_size, drop, err, if◌then◌else◌, invalid_argument, length, length_error,
  ltb, none, ok, out_of_range, replicate, some, sub_size, take, ℕ, ◌++◌, ◌+◌, ◌-◌, ◌==◌, ◌>>=◌, ◌^◌,
  ◌||◌, ◌≤◌,
}

-- `storage_.size()` is the length of the list.
pub record Buffer : Type 0 where
  pub storage : List ℕ
  pub reader_index : ℕ
  pub writer_index : ℕ

abbrev pub cheap_prepend : ℕ
cheap_prepend = 8

abbrev pub initial_size : ℕ
initial_size = 1024

-- `std::vector<char>::max_size()`: the largest ptrdiff_t.
abbrev pub max_size : ℕ
max_size = 2 ^ 63 - 1

-- `Buffer::Buffer`
pub create : ℕ → Buffer
create size = record {
  storage = replicate (cheap_prepend + size) 0;
  reader_index = cheap_prepend;
  writer_index = cheap_prepend;
}

pub readable_bytes : Buffer → ℕ
readable_bytes b = sub_size b.writer_index b.reader_index

pub writable_bytes : Buffer → ℕ
writable_bytes b = sub_size (length b.storage) b.writer_index

pub prependable_bytes : Buffer → ℕ
prependable_bytes b = b.reader_index

-- The offset from Begin() of the pointer returned.
pub peek : Buffer → ℕ
peek b = b.reader_index

pub begin_write : Buffer → ℕ
begin_write b = b.writer_index

pub retrieve_all : Buffer → Buffer
retrieve_all b = record b { reader_index = cheap_prepend; writer_index = cheap_prepend }

pub retrieve : Buffer → ℕ → Result Buffer
retrieve b len =
    if ltb (readable_bytes b) len
    then err out_of_range
    else if len == readable_bytes b
    then ok (retrieve_all b)
    else ok (record b { reader_index = add_size b.reader_index len })

-- The argument is a pointer into the storage, as its offset.
pub retrieve_until : Buffer → ℕ → Result Buffer
retrieve_until b end =
    if ltb end (peek b) || ltb (begin_write b) end
    then err out_of_range
    else retrieve b (end - peek b)

-- The bytes that `std::string(Peek(), length)` copies.
abbrev pub bytes_at : List ℕ → ℕ → ℕ → List ℕ
bytes_at storage start len = take len (drop start storage)

pub retrieve_as_string : Buffer → ℕ → Result (List ℕ × Buffer)
retrieve_as_string b len =
    if ltb (readable_bytes b) len
    then err out_of_range
    else do b' ← retrieve b len; ok (bytes_at b.storage (peek b) len, b')

pub retrieve_all_as_string : Buffer → Result (List ℕ × Buffer)
retrieve_all_as_string b = retrieve_as_string b (readable_bytes b)

-- `std::copy` and `std::memmove` into the storage at an offset.
abbrev pub write_at : List ℕ → ℕ → List ℕ → List ℕ
write_at storage start bytes = take start storage ++ (bytes ++ drop (start + length bytes) storage)

-- `storage_.resize(n)`: cut off, or filled up with zero bytes; more than max_size() throws.
pub resize : List ℕ → ℕ → Result (List ℕ)
resize storage n =
    if ltb max_size n
    then err length_error
    else ok (take n storage ++ replicate (n - length storage) 0)

pub make_space : Buffer → ℕ → Result Buffer
make_space b len =
    if ltb (sub_size (add_size (writable_bytes b) (prependable_bytes b)) cheap_prepend) len
    then (do
      storage ← resize b.storage (add_size b.writer_index len)
      ok (record b { storage = storage }))
    else ok (record {
      storage = write_at b.storage cheap_prepend (bytes_at b.storage (peek b) (readable_bytes b));
      reader_index = cheap_prepend;
      writer_index = add_size cheap_prepend (readable_bytes b);
    })

pub ensure_writable_bytes : Buffer → ℕ → Result Buffer
ensure_writable_bytes b len = if ltb (writable_bytes b) len then make_space b len else ok b

pub has_written : Buffer → ℕ → Result Buffer
has_written b len =
    if ltb (writable_bytes b) len
    then err out_of_range
    else ok (record b { writer_index = add_size b.writer_index len })

-- `Append(data, length)`: the list is the bytes at `data`, `none` a null pointer.
pub append : Buffer → Option (List ℕ) → ℕ → Result Buffer
append b none len = if len == 0 then ok b else err invalid_argument
append b (some bytes) len = if len == 0 then ok b else do
  b' ← ensure_writable_bytes b len
  has_written (record b' { storage = write_at b'.storage (begin_write b') (take len bytes) }) len

-- `Append(const std::string&)`
pub append_string : Buffer → List ℕ → Result Buffer
append_string b bytes = append b (some bytes) (length bytes)

-- The offsets are in order and behind the reserved bytes, and the storage is no larger than a
-- vector can be.
pub record IsValid (b : Buffer) : Type 0 where
  pub reserved : cheap_prepend ≤ b.reader_index
  pub ordered : b.reader_index ≤ b.writer_index
  pub within : b.writer_index ≤ length b.storage
  pub bounded : length b.storage ≤ max_size

-- What the buffer holds: the bytes between the two offsets, oldest first.
unfoldable pub contents : Buffer → List ℕ
contents b = bytes_at b.storage b.reader_index (b.writer_index - b.reader_index)
