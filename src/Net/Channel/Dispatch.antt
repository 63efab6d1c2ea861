-- ===== src/Net/Channel/Dispatch.antt =====
-- Channel.cpp: which callbacks a batch of ready events leads to, and in which order.
use l.Base.{
  Bool, List, [], arith, false, if◌then◌else◌, not, refl, sym, true, ℕ, ◌&&◌, ◌++◌, ◌+◌, ◌||◌, ◌≡◌,
}
use l.Net.Epoller.{Channel}
use l.Net.Channel.{
  Callback, epollerr, epollhup, epollin, epollout, epollpri, epollrdhup, handle_event,
  handle_event_with_guard, has_bits, on_close, on_error, on_read, on_write, read_events, when,
}

-- The ready events that the dispatch reads, as flags.
pub record Ready : Type 0 where
  pub readable : Bool
  pub urgent : Bool
  pub writable : Bool
  pub broken : Bool
  pub hung_up : Bool
  pub peer_closed : Bool

abbrev bit : Bool → ℕ → ℕ
bit b n = if b then n else 0

pub ready_mask : Ready → ℕ
ready_mask r =
    bit r.readable epollin
    + bit r.urgent epollpri
    + bit r.writable epollout
    + bit r.broken epollerr
    + bit r.hung_up epollhup
    + bit r.peer_closed epollrdhup

-- A hang-up closes unless there is still input; then an error, then input (urgent data and the
-- end of the peer's stream count as input), then room to write.
pub due : Ready → List Callback
due r =
    when (r.hung_up && not r.readable) on_close
    ++ (when r.broken on_error
        ++ (when (r.readable || r.urgent || r.peer_closed) on_read ++ when r.writable on_write))

abbrev same : Bool → Bool → Bool
same true b = b
same false b = not b

same→eq : (a b : Bool) → same a b ≡ true → a ≡ b
same→eq true b h = sym h
same→eq false b h = ground arith

abbrev every : (Bool → Bool) → Bool
every p = p true && p false

every→all : (p : Bool → Bool) → every p ≡ true → (b : Bool) → p b ≡ true
every→all p h true = ground arith
every→all p h false = ground arith

abbrev agrees : Ready → Bool
agrees r =
    same (has_bits (ready_mask r) epollhup) r.hung_up
    && same (has_bits (ready_mask r) epollin) r.readable
    && same (has_bits (ready_mask r) epollerr) r.broken
    && same (has_bits (ready_mask r) read_events) (r.readable || r.urgent || r.peer_closed)
    && same (has_bits (ready_mask r) epollout) r.writable

abbrev agrees_at : Bool → Bool → Bool → Bool → Bool → Bool → Bool
agrees_at a b c d e f =
    agrees
      (record { readable = a; urgent = b; writable = c; broken = d; hung_up = e; peer_closed = f })

-- All 64 sets of flags.
agrees_table :
    every (λ a. every (λ b. every (λ c. every (λ d. every (λ e. every (agrees_at a b c d e))))))
    ≡ true
unfolding ready_mask
agrees_table = refl

agrees_all : (a b c d e f : Bool) → agrees_at a b c d e f ≡ true
agrees_all a b c d e f =
    every→all (agrees_at a b c d e)
      (every→all (λ e. every (agrees_at a b c d e))
        (every→all (λ d. every (λ e. every (agrees_at a b c d e)))
          (every→all (λ c. every (λ d. every (λ e. every (agrees_at a b c d e))))
            (every→all (λ b. every (λ c. every (λ d. every (λ e. every (agrees_at a b c d e)))))
              (every→all
                (λ a.
                  every (λ b. every (λ c. every (λ d. every (λ e. every (agrees_at a b c d e))))))
                agrees_table a)
              b)
            c)
          d)
        e)
      f

module _ (r : Ready) where
  agrees-ready : agrees r ≡ true
  agrees-ready = agrees_all r.readable r.urgent r.writable r.broken r.hung_up r.peer_closed

  flags :
      (has_bits (ready_mask r) epollhup ≡ r.hung_up)
      × (has_bits (ready_mask r) epollin ≡ r.readable)
      × (has_bits (ready_mask r) epollerr ≡ r.broken)
      × (has_bits (ready_mask r) read_events ≡ (r.readable || r.urgent || r.peer_closed))
      × (has_bits (ready_mask r) epollout ≡ r.writable)
  flags = ground (arith, agrees-ready)

  guard-due : (ch : Channel) → ch.ready_events ≡ ready_mask r → handle_event_with_guard ch ≡ due r
  unfolding handle_event_with_guard due
  guard-due ch h = rw (h, flags.0, flags.1, flags.2, flags.3, flags.4) refl

-- HandleEvent on any set of the six ready events calls the callbacks that are due for it, in order,
-- and none if the channel is tied to an owner that is gone.
pub handle_event-due :
    (ch : Channel) (r : Ready) (alive : Bool)
    → ch.ready_events ≡ ready_mask r
    → handle_event ch alive ≡ (if ch.tied && not alive then [] else due r)
unfolding handle_event
handle_event-due ch r alive h = rw (guard-due r ch h) (ground arith)
