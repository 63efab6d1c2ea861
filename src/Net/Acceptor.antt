-- ===== src/Net/Acceptor.antt =====
-- l4lb/src/net/Acceptor.h and Acceptor.cpp: the listening socket.
pub mod Accepts
mod Tests
use l.Base.{
  Bool, Error, assertion_failed, int_overflow, List, Option, Result, [], false, if◌then◌else◌,
  invalid_argument, length_error, logic_error, none, not, null_pointer, ok, out_of_range, some,
  system_error, true, ℕ, ◌&&◌, ◌+◌, ◌==◌, ◌>>=◌, ◌>>◌, ◌||◌, ◌∷◌,
}
use l.Net.System.{
  Context, Reply, assert_in_loop_thread, eagain, eintr, emfile, enfile, failed, is_in_loop_thread,
  returned,
}
use l.Net.Epoller.{Channel}
use l.Net.Channel

-- `idle` says whether `idle_fd_` is open. `dropped` counts the connections that have been accepted
-- to be closed at once, and `errors` are those that were reported.
pub record Acceptor : Type 0 where
  pub channel : Channel
  pub listening : Bool
  pub edge_triggered : Bool
  pub idle : Bool
  pub dropped : ℕ
  pub errors : List ℕ

-- `Acceptor::Start`
pub start : Context → Acceptor → Result Acceptor
start k a = do
  assert_in_loop_thread k
  if a.listening then ok a else (do
    channel ← Channel.enable_reading k a.channel
    channel' ← (if a.edge_triggered then Channel.enable_edge_triggered k channel else ok channel)
    ok (record a { listening = true; channel = channel' }))

-- `Acceptor::Stop`
pub stop : Context → Acceptor → Result Acceptor
stop k a = do
  assert_in_loop_thread k
  if not a.listening && not a.channel.added then ok a else (do
    channel ← Channel.remove k a.channel
    ok (record a { listening = false; channel = channel }))

-- `OpenIdleFd` after `idle_fd_.Reset()`, and the accept() between them, which may take one of the
-- connections that wait. `reopened` says whether open() succeeds.
pub drop_one : Acceptor → List (Reply ℕ) → Bool → Acceptor
drop_one a [] reopened = record a { idle = reopened }
drop_one a (returned fd ∷ rest) reopened = record a { idle = reopened; dropped = a.dropped + 1 }
drop_one a (failed e ∷ rest) reopened = record a { idle = reopened }

-- The part of the `catch` that does not go on: the error number, and what accept() answers next.
pub give_up : Acceptor → ℕ → List (Reply ℕ) → Bool → Acceptor
give_up a e rest reopened =
    let a' = if e == emfile || e == enfile then drop_one a rest reopened else a in
    record a' { errors = e ∷ a'.errors }

-- The owner is a state and its new-connection callback, which may throw.
module _ {ℓ} {S : Type ℓ} (call : S → ℕ → S × Option Error) where
  abbrev pub Run : Type ℓ
  Run = Acceptor × S × Option Error

  -- What the loop makes of the outcome of one turn: `next` is the loop on the answers that are
  -- left.
  caught : Acceptor → S → List (Reply ℕ) → Bool → Run → ℕ → Run
  caught a s rest reopened next e =
      if e == eintr then next else (give_up a e rest reopened, s, none)

  handed : Acceptor → List (Reply ℕ) → Bool → (S → Run) → S × Option Error → Run
  handed a rest reopened next (s, none) = next s
  handed a rest reopened next (s, some (system_error e)) = caught a s rest reopened (next s) e
  handed a rest reopened next (s, some out_of_range) = (a, s, some out_of_range)
  handed a rest reopened next (s, some invalid_argument) = (a, s, some invalid_argument)
  handed a rest reopened next (s, some logic_error) = (a, s, some logic_error)
  handed a rest reopened next (s, some length_error) = (a, s, some length_error)
  handed a rest reopened next (s, some null_pointer) = (a, s, some null_pointer)
  handed a rest reopened next (s, some assertion_failed) = (a, s, some assertion_failed)
  handed a rest reopened next (s, some int_overflow) = (a, s, some int_overflow)

  -- The loop of `HandleRead`, on the answers of accept(); behind the last it fails with EAGAIN.
  pub accept_loop : Acceptor → Bool → List (Reply ℕ) → S → Run
  accept_loop a reopened [] s = (a, s, none)
  accept_loop a reopened (returned fd ∷ rest) s =
      handed a rest reopened (accept_loop a reopened rest) (call s fd)
  accept_loop a reopened (failed e ∷ rest) s =
      if e == eagain
      then (a, s, none)
      else caught a s rest reopened (accept_loop a reopened rest s) e

  -- `Acceptor::HandleRead`
  pub handle_read : Context → Acceptor → Bool → List (Reply ℕ) → S → Run
  handle_read k a reopened answers s =
      if is_in_loop_thread k then accept_loop a reopened answers s else (a, s, some logic_error)
