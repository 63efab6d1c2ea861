-- ===== src/Log/LogFile.antt =====
-- code/day29/log/LogFile.h and LogFile.cpp. `fwrite` is how many of so many bytes a call of
-- fwrite_unlocked writes; times are seconds.
pub mod Written
use l.Base.{
  Bool, Bytes, Result, [], drop, err, if◌then◌else◌, length, ltb, not, null_pointer, ok, suc, take,
  true, zero, ℕ, ◌++◌, ◌+◌, ◌==◌, ◌∷◌,
}
use l.Net.Socket.{opened}
use l.Net.TcpConnection.Invariant.{stream}

pub record LogFile : Type 0 where
  -- Is there a stream behind `fp_`?
  pub fp : Bool
  -- What the stream was given, and how much of it was flushed.
  pub written : Bytes
  pub flushed : ℕ
  pub written_bytes : ℕ
  pub lastwrite : ℕ
  pub lastflush : ℕ

abbrev pub flush_interval : ℕ
flush_interval = 3

-- `LogFile::LogFile`: whether the path given can be opened, and if not, the default path.
unfoldable pub new_log_file : Bool → Bool → LogFile
new_log_file opened default_opened = record {
  fp = if opened then true else default_opened;
  written = [];
  flushed = 0;
  written_bytes = 0;
  lastwrite = 0;
  lastflush = 0;
}

-- `Flush`
unfoldable pub flush : LogFile → LogFile
flush f = record f { flushed = length f.written }

-- The loop of `Write`: what the stream has then, and what is left. As many rounds as bytes are
-- enough if every call of fwrite writes something.
unfoldable pub write_loop : (ℕ → ℕ) → ℕ → Bytes → Bytes → Bytes × Bytes
write_loop fwrite zero stream rest = (stream, rest)
write_loop fwrite (suc k) stream [] = (stream, [])
write_loop fwrite (suc k) stream (b ∷ bytes) =
    let n = fwrite (length (b ∷ bytes)) in
    write_loop fwrite k (stream ++ take n (b ∷ bytes)) (drop n (b ∷ bytes))

-- The status behind the loop.
noted : ℕ → ℕ → LogFile → LogFile
noted now len f =
    if len == 0 then f else record f { lastwrite = now; written_bytes = f.written_bytes + len }

-- Every few seconds the stream is flushed.
flush_due : ℕ → LogFile → LogFile
flush_due now f =
    if ltb (f.lastflush + flush_interval) f.lastwrite
    then record (flush f) { lastflush = now }
    else f

-- `Write`, at time `now`.
unfoldable pub write : (ℕ → ℕ) → ℕ → Bytes → LogFile → Result LogFile
unfolding noted flush_due
write fwrite now bytes f =
    let stream = (write_loop fwrite (length bytes) f.written bytes).0 in
    if not f.fp
    then err null_pointer
    else ok (flush_due now (noted now (length bytes) (record f { written = stream })))
