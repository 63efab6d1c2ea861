-- ===== src/Log/FixedBuffer/Bounds.antt =====
-- The content stays inside the array of a `FixedBuffer`.
use l.Base.{Bool-cases, Bytes, arith, inl, inr, length, length-append, ltb, ltb→lt, ◌-◌, ◌≤◌}
use l.Log.FixedBuffer.{FixedBuffer, append, avail, len}

abbrev pub Fits : FixedBuffer → Type 0
Fits b = len b ≤ b.size

pub append-Fits : (bytes : Bytes) (b : FixedBuffer) → Fits b → Fits (append bytes b)
unfolding append avail
append-Fits bytes b h = elim (Bool-cases (ltb (length bytes) (b.size - length b.content))) [
  | inl room ↦ rw room (omega (arith, length-append b.content bytes, ltb→lt _ _ room))
  | inr full ↦ rw full h
]
