-- ===== src/Log/LogStream.antt =====
-- `LogStream` of code/day29/log/LogStream.h and LogStream.cpp.
pub mod Put
mod Tests
pub mod Digits
pub mod Bounds
use mathlib.Core.List.{reverse}
use l.Base.{
  Bool, Bytes, [], false, if◌then◌else◌, is_negative, leb, negated, negsuc, pos, suc, zero, ℕ, ℤ,
  ◌%◌, ◌++◌, ◌+◌, ◌-◌, ◌/◌, ◌==◌, ◌∷◌,
}
use l.Log.FixedBuffer.{FixedBuffer, add, append, avail, bzero, new_buffer}

abbrev pub fixed_buffer_size : ℕ
fixed_buffer_size = 4096

abbrev pub k_max_numeric_size : ℕ
k_max_numeric_size = 48

pub record LogStream : Type 0 where
  pub buffer : FixedBuffer

-- `LogStream::LogStream`
abbrev pub new_stream : LogStream
new_stream = record { buffer = new_buffer fixed_buffer_size }

unfoldable pub append_text : Bytes → LogStream → LogStream
append_text bytes s = record s { buffer = append bytes s.buffer }

abbrev pub reset_buffer : LogStream → LogStream
reset_buffer s = record s { buffer = bzero s.buffer }

-- `value % 10 + '0'`: the remainder has the sign of the value.
abbrev pub digit_char : ℤ → ℕ
digit_char (pos n) = b'0' + n % 10
digit_char (negsuc n) = b'0' - (n + 1) % 10

-- `value /= 10` rounds towards zero.
unfoldable pub tenth : ℤ → ℤ
tenth (pos n) = pos (n / 10)
tenth (negsuc n) = negated ((n + 1) / 10)

abbrev pub is_zero : ℤ → Bool
is_zero (pos n) = n == 0
is_zero (negsuc n) = false

-- The do loop: the characters written, and the value behind it. A number of at most 64 bits takes
-- at most 20 rounds.
unfoldable pub digits_loop : ℕ → ℤ → Bytes × ℤ
digits_loop zero value = ([], value)
digits_loop (suc k) value =
    let rest = digits_loop k (tenth value) in
    if is_zero (tenth value)
    then (digit_char value ∷ [], tenth value)
    else (digit_char value ∷ rest.0, rest.1)

sign_char : ℤ → Bytes
sign_char value = if is_negative value then b'-' ∷ [] else []

-- `formatInteger`
unfoldable pub format_integer : ℤ → LogStream → LogStream
unfolding sign_char
format_integer value s =
    let done = digits_loop 20 value in
    if leb k_max_numeric_size (avail s.buffer)
    then record s { buffer = add (reverse (done.0 ++ sign_char done.1)) s.buffer }
    else s
