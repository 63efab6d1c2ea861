-- ===== src/Log/FixedBuffer.antt =====
-- `FixedBuffer<SIZE>` of code/day29/log/LogStream.h: an array with a mark behind its content. The
-- content is the list of bytes before the mark; what stands behind it is never read.
pub mod Bounds
use l.Base.{Bytes, [], if◌then◌else◌, length, ltb, ℕ, ◌++◌, ◌-◌}

pub record FixedBuffer : Type 0 where
  pub size : ℕ
  pub content : Bytes

-- `FixedBuffer::FixedBuffer`
abbrev pub new_buffer : ℕ → FixedBuffer
new_buffer size = record { size = size; content = [] }

-- `len`
abbrev pub len : FixedBuffer → ℕ
len b = length b.content

-- `avail`
unfoldable pub avail : FixedBuffer → ℕ
avail b = b.size - length b.content

-- What does not fit, or fits to the last byte, is dropped.
unfoldable pub append : Bytes → FixedBuffer → FixedBuffer
append bytes b =
    if ltb (length bytes) (avail b) then record b { content = b.content ++ bytes } else b

-- `add(n)`, behind which the `n` bytes written at `current()` stand in the buffer.
unfoldable pub add : Bytes → FixedBuffer → FixedBuffer
add written b = record b { content = b.content ++ written }

abbrev pub reset : FixedBuffer → FixedBuffer
reset b = record b { content = [] }

abbrev pub bzero : FixedBuffer → FixedBuffer
bzero b = record b { content = [] }
