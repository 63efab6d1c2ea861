-- ===== src/Log/LogStream/Bounds.antt =====
-- What `formatInteger` writes stays inside the stream's buffer.
use mathlib.Core.List.{reverse, reverse_aux}
use l.Base.{
  Bool-cases, Bytes, [], arith, inl, inr, leb, length, length-append, negsuc, pos, refl, suc, zero,
  ℕ, ℤ, ◌++◌, ◌+◌, ◌<◌, ◌∷◌, ◌≡◌, ◌≤◌,
}
use l.Log.FixedBuffer.{add, avail}
use l.Log.FixedBuffer.Bounds.{Fits}
use l.Log.LogStream.{
  LogStream, digits_loop, format_integer, is_zero, k_max_numeric_size, sign_char, tenth,
}

length-reverse_aux : (xs ys : Bytes) → length (reverse_aux xs ys) ≡ length xs + length ys
length-reverse_aux [] ys = omega arith
length-reverse_aux (x ∷ xs) ys = omega (arith, length-reverse_aux xs (x ∷ ys))

length-digits_loop : (k : ℕ) (v : ℤ) → length (digits_loop k v).0 ≤ k
unfolding digits_loop
length-digits_loop zero v = omega arith
length-digits_loop (suc k) v = elim (Bool-cases (is_zero (tenth v))) [
  | inl h ↦ rw h (omega arith)
  | inr h ↦ rw h (omega (arith, length-digits_loop k (tenth v)))
]

length-sign_char : (v : ℤ) → length (sign_char v) ≤ 1
unfolding sign_char
length-sign_char (pos n) = omega arith
length-sign_char (negsuc n) = omega arith

written : ℤ → Bytes
written v = reverse ((digits_loop 20 v).0 ++ sign_char (digits_loop 20 v).1)

written_length : (v : ℤ) → length (written v) ≤ 21
unfolding written
written_length v =
    let done = digits_loop 20 v in
    omega (
      arith,
      length-reverse_aux (done.0 ++ sign_char done.1) [],
      length-append done.0 (sign_char done.1),
      length-digits_loop 20 v,
      length-sign_char done.1,
    )

-- Without room for 48 bytes nothing is written, and with it the content stays inside the buffer.
pub format_integer-Fits :
    (v : ℤ) (s : LogStream)
    → Fits s.buffer
    → (avail s.buffer < k_max_numeric_size → format_integer v s ≡ s)
      × Fits (format_integer v s).buffer
unfolding format_integer avail add written
format_integer-Fits v s h = elim (Bool-cases (leb k_max_numeric_size (avail s.buffer))) [
  | inl room ↦ rw room (
    λ less_room. absurd (ground arith),
    (ground (arith, written_length v, length-append s.buffer.content (written v))),
  )
  | inr full ↦ rw full (λ less_room. refl, h)
]
