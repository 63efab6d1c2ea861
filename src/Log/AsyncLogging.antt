-- ===== src/Log/AsyncLogging.antt =====
-- code/day29/log/AsyncLogging.h and AsyncLogging.cpp. The mutex is held for a whole call of
-- `Append` and for a whole round of `ThreadFunc`, but for the wait in it; so a call is one step,
-- and a round is two, with the wait between them. Buffers are values; `none` is an empty
-- unique_ptr.
pub mod Sound
pub mod Appends
pub mod Rounds
pub mod Trace
use l.Base.{
  Bool, Bytes, List, Option, Result, [], err, false, if◌then◌else◌, leb, length, none, null_pointer,
  ok, some, take, true, ℕ, ◌*◌, ◌++◌, ◌+◌, ◌>>=◌, ◌∷◌,
}
use l.Log.FixedBuffer.{FixedBuffer, avail, bzero, new_buffer}
use l.Log.FixedBuffer
use l.Log.LogFile.{LogFile, new_log_file, write}
use l.Net.Socket.{opened}

abbrev pub fixed_large_buffer_size : ℕ
fixed_large_buffer_size = 4096 * 1000

abbrev pub file_maximum_size : ℕ
file_maximum_size = 1024 * 1024 * 1024

-- The back-end thread is before its loop's test, in a round, or over.
pub data Thread : Type 0 where
  at_test in_round over : Thread

-- The shared state, and the locals of `ThreadFunc`: its two spare buffers, its file, and the files
-- that it has filled.
pub record AsyncLogging : Type 0 where
  pub running : Bool
  pub thread : Thread
  pub current : Option FixedBuffer
  pub next : Option FixedBuffer
  pub buffers : List FixedBuffer
  pub new_current : Option FixedBuffer
  pub new_next : Option FixedBuffer
  pub file : LogFile
  pub closed : List LogFile

abbrev pub fresh : FixedBuffer
fresh = new_buffer fixed_large_buffer_size

-- The constructor, `Start`, and `ThreadFunc` up to its loop, with the file that it opens.
unfoldable pub started : LogFile → AsyncLogging
started file = record {
  running = true;
  thread = at_test;
  current = some fresh;
  next = some fresh;
  buffers = [];
  new_current = some (bzero fresh);
  new_next = some (bzero fresh);
  file = file;
  closed = [];
}

-- `Stop`, up to the join.
abbrev pub stop : AsyncLogging → AsyncLogging
stop s = record s { running = false }

or_else {ℓ} : {A : Type ℓ} → Option A → Option A → Option A
or_else none other = other
or_else (some a) other = some a

left_over {ℓ} : {A : Type ℓ} → Option A → Option A → Option A
left_over none other = none
left_over (some a) other = other

or_new : Option FixedBuffer → FixedBuffer
or_new none = fresh
or_new (some b) = b

append_to : FixedBuffer → Bytes → AsyncLogging → AsyncLogging
append_to b bytes s =
    if leb (length bytes) (avail b)
    then record s { current = some (FixedBuffer.append bytes b) }
    else record s {
      buffers = s.buffers ++ b ∷ [];
      current = some (FixedBuffer.append bytes (or_new s.next));
      next = none;
    }

-- `Append`, but for waking the back-end thread.
unfoldable pub append : Bytes → AsyncLogging → Result AsyncLogging
unfolding append_to or_new
append bytes s = elim s.current [ none ↦ err null_pointer | some b ↦ ok (append_to b bytes s) ]

-- A round begins if the loop's test is true; the wait behind it lets other calls in.
unfoldable pub enter : AsyncLogging → AsyncLogging
enter s = record s { thread = if s.running then in_round else over }

-- The buffers of the round: the full ones, and the current one behind them.
active_buffers : AsyncLogging → Result (List FixedBuffer)
active_buffers s = elim s.current [ none ↦ err null_pointer | some b ↦ ok (s.buffers ++ b ∷ []) ]

-- The spare buffers take their places.
swap_in : AsyncLogging → AsyncLogging
unfolding or_else left_over
swap_in s = record s {
  buffers = [];
  current = s.new_current;
  new_current = none;
  next = or_else s.next s.new_next;
  new_next = left_over s.next s.new_next;
}

-- The loop that writes them, the time of each write given by its number.
unfoldable pub write_buffers : (ℕ → ℕ) → (ℕ → ℕ) → ℕ → List FixedBuffer → LogFile → Result LogFile
write_buffers fwrite clock i [] f = ok f
write_buffers fwrite clock i (b ∷ bs) f =
    write fwrite (clock i) b.content f >>= λ g. write_buffers fwrite clock (i + 1) bs g

-- A file that is large enough is left for a new one.
rotate : Bool → Bool → LogFile → AsyncLogging → AsyncLogging
rotate opened default_opened f s =
    if leb file_maximum_size f.written_bytes
    then record s { closed = s.closed ++ f ∷ []; file = new_log_file opened default_opened }
    else record s { file = f }

-- `back()` and `pop_back()`; on no buffers they are undefined.
pop_back : List FixedBuffer → Result (FixedBuffer × List FixedBuffer)
pop_back [] = err null_pointer
pop_back (b ∷ bs) = elim (pop_back bs) [
  | err e ↦ ok (b, [])
  | ok (last, front) ↦ ok (last, b ∷ front)
]

-- A spare buffer that is missing is taken from the end of the written ones.
refill : Option FixedBuffer → List FixedBuffer → Result (FixedBuffer × List FixedBuffer)
unfolding pop_back
refill (some b) kept = ok (b, kept)
refill none kept = pop_back kept >>= λ r. ok (bzero r.0, r.1)

-- The end of a round: at most two of the written buffers are kept as spares.
recycle : List FixedBuffer → AsyncLogging → Result AsyncLogging
unfolding refill
recycle active s = refill s.new_current (take 2 active) >>= λ a. refill s.new_next a.1 >>= λ b.
    ok (record s { new_current = some a.0; new_next = some b.0; thread = at_test })

-- A round behind its wait. The results of opening a new file are given.
unfoldable pub finish_round : (ℕ → ℕ) → (ℕ → ℕ) → Bool → Bool → AsyncLogging → Result AsyncLogging
unfolding active_buffers swap_in rotate recycle
finish_round fwrite clock opened default_opened s = active_buffers s >>= λ active.
    write_buffers fwrite clock 0 active s.file >>= λ f.
    recycle active (rotate opened default_opened f (swap_in s))
