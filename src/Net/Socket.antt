-- ===== src/Net/Socket.antt =====
-- l4lb/src/net/Socket.h, Socket.cpp and UniqueFd.h: a TCP socket and its descriptor.
use l.Base.{
  Bool, List, Option, Result, [], arith, err, false, if◌then◌else◌, none, ok, some, system_error,
  true, ℕ, ◌++◌, ◌==◌, ◌≡◌,
}
use l.Net.System.{Context, Works, ebadf, enotconn}

-- `fd` is `none` where `fd_` is negative. The other fields record what has gone through the
-- descriptor: the bytes that read() gave, the bytes that send() took, and whether the write side
-- has been shut down.
pub record Socket : Type 0 where
  pub fd : Option ℕ
  pub received : List ℕ
  pub delivered : List ℕ
  pub fin : Bool

unfoldable pub opened : ℕ → Socket
opened fd = record { fd = some fd; received = []; delivered = []; fin = false }

-- `Socket::Socket()`, and a Socket that has been moved from.
unfoldable pub empty : Socket
empty = record { fd = none; received = []; delivered = []; fin = false }

-- `Socket::Close` and `UniqueFd::Reset()`
unfoldable pub close : Socket → Socket
close s = record s { fd = none }

-- `Socket::ShutdownWrite`; with no descriptor shutdown(-1) fails with EBADF.
pub shutdown_write : Context → Socket → Result Socket
shutdown_write k s = elim s.fd [
  | none ↦ err (system_error ebadf)
  | some fd ↦ elim (k.shutdown fd) [
    | none ↦ ok (record s { fin = true })
    | some e ↦ if e == enotconn then ok s else err (system_error e)
  ]
]

-- read() and send() on the record: the bytes that came, the bytes that were taken.
abbrev pub receive : Socket → List ℕ → Socket
receive s bytes = record s { received = s.received ++ bytes }

abbrev pub deliver : Socket → List ℕ → Socket
deliver s bytes = record s { delivered = s.delivered ++ bytes }

pub shutdown_write-Works :
    (k : Context)
    → Works k
    → (s : Socket) {fd : ℕ} → s.fd ≡ some fd
    → shutdown_write k s ≡ ok (record s { fin = true })
unfolding shutdown_write
shutdown_write-Works k w s {fd} h = ground (arith, w.shut fd)
