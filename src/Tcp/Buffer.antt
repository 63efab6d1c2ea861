-- ===== src/Tcp/Buffer.antt =====
-- code/day29/tcp/Buffer.h and Buffer.cpp. The class keeps the same three members as the load
-- balancer's buffer, so its record is used again. A pointer into the storage is its offset. An int
-- that would be too large is an error; an assert is active, since the build sets no NDEBUG.
pub mod Queue
use l.Base.{
  int_overflow, ◌^◌, Bytes, List, Result, assertion_failed, err, if◌then◌else◌, length,
  length_error, ltb, negsuc, null_pointer, ok, pos, replicate, ℕ, ℤ, ◌+◌, ◌++◌, ◌-◌, ◌>>=◌,
}
use l.Net.Buffer.{Buffer, bytes_at, cheap_prepend, contents, initial_size, write_at}

abbrev pub int_max : ℕ
int_max = 2 ^ 31 - 1

-- A size or a sum as an int.
unfoldable pub to_int : ℕ → Result ℕ
to_int n = if ltb int_max n then err int_overflow else ok n

-- `Buffer::Buffer`
unfoldable pub new_buffer : Buffer
new_buffer = record {
  storage = replicate initial_size 0;
  reader_index = cheap_prepend;
  writer_index = cheap_prepend;
}

unfoldable pub readablebytes : Buffer → ℕ
readablebytes b = b.writer_index - b.reader_index

unfoldable pub writablebytes : Buffer → ℕ
writablebytes b = length b.storage - b.writer_index

unfoldable pub prependablebytes : Buffer → ℕ
prependablebytes b = b.reader_index

unfoldable pub peek_as_string : Buffer → ℕ → Bytes
peek_as_string b len = bytes_at b.storage b.reader_index len

unfoldable pub peek_all_as_string : Buffer → Bytes
peek_all_as_string b = contents b

unfoldable pub retrieve_all : Buffer → Buffer
retrieve_all b = record b { reader_index = cheap_prepend; writer_index = cheap_prepend }

-- `Retrieve`, also of a negative number of bytes, which moves the index back; an index before the
-- storage is an error of the model.
unfoldable pub retrieve : Buffer → ℤ → Result Buffer
retrieve b (pos len) =
    if ltb len (readablebytes b)
    then (if ltb (len + b.reader_index) b.writer_index
        then ok (record b { reader_index = b.reader_index + len })
        else ok (retrieve_all b))
    else err assertion_failed
retrieve b (negsuc n) =
    if ltb n b.reader_index
    then ok (record b { reader_index = b.reader_index - (n + 1) })
    else err null_pointer

-- The argument of the next two is a pointer, as its offset.
unfoldable pub retrieve_util : Buffer → ℕ → Result Buffer
retrieve_util b end =
    if ltb b.writer_index end then err assertion_failed else ok (record b { reader_index = end })

unfoldable pub retrieve_util_as_string : Buffer → ℕ → Result (Bytes × Buffer)
retrieve_util_as_string b end =
    if ltb b.writer_index end
    then err assertion_failed
    else if ltb end b.reader_index
    then err length_error
    else do b' ← retrieve_util b end; ok (peek_as_string b (end - b.reader_index), b')

unfoldable pub retrieve_as_string : Buffer → ℕ → Result (Bytes × Buffer)
retrieve_as_string b len = do
  end ← to_int (b.reader_index + len)
  if ltb b.writer_index end
      then err assertion_failed
      else do b' ← retrieve b (pos len); ok (peek_as_string b len, b')

unfoldable pub retrieve_all_as_string : Buffer → Result (Bytes × Buffer)
retrieve_all_as_string b =
    if ltb 0 (readablebytes b)
    then ok (peek_all_as_string b, retrieve_all b)
    else err assertion_failed

-- The end of `EnsureWritableBytes`, with the size that is asked for.
room_for : Buffer → ℕ → ℕ → Result Buffer
room_for b len needed =
    if ltb (writablebytes b + prependablebytes b) needed
    then (to_int (b.writer_index + len) >>= λ size.
        ok (record b { storage = b.storage ++ replicate (size - length b.storage) 0 }))
    else ok (record {
      storage = write_at b.storage cheap_prepend (contents b);
      reader_index = cheap_prepend;
      writer_index = cheap_prepend + readablebytes b;
    })

unfoldable pub ensure_writable_bytes : Buffer → ℕ → Result Buffer
unfolding room_for
ensure_writable_bytes b len =
    if ltb (writablebytes b) len then to_int (cheap_prepend + len) >>= room_for b len else ok b

-- `Append(message, len)` of the bytes at `message`; the size of a text is made an int.
unfoldable pub append : Buffer → Bytes → Result Buffer
append b bytes = do
  len ← to_int (length bytes)
  b' ← ensure_writable_bytes b len
  ok (record b' {
    storage = write_at b'.storage b'.writer_index bytes;
    writer_index = b'.writer_index + len;
  })
