-- ===== src/Log/AsyncLogging/Trace/Tests.antt =====
-- The log on concrete calls.
use l.Base.{arith, codes, min, ok, refl, true, ℕ, ◌++◌, ◌≡◌}
use l.Log.LogFile.{LogFile, new_log_file, write}
use l.Log.LogFile.Written.{IsCounted, Progress, write-IsCounted}
use l.Log.AsyncLogging.{AsyncLogging, append, append_to, finish_round, started}
use l.Log.AsyncLogging.Sound.{IsSound, contents, current_content, logged, on_disk, started-IsSound}
use l.Log.AsyncLogging.Rounds.{finish_round-IsSound}
use l.Log.AsyncLogging.Trace.{Trace, Trace-logged, appended, begun, stepped}
use l.Log.FixedBuffer.{avail}

abbrev new_file : LogFile
new_file = new_log_file true true

new_file-IsCounted : IsCounted new_file
unfolding new_log_file
new_file-IsCounted = record { opened = refl; counted = refl; flushed_behind = omega arith }

-- fwrite writes at most two bytes at a time.
abbrev by_two : ℕ → ℕ
by_two n = min n 2

by_two-Progress : Progress by_two
by_two-Progress n h = (omega arith, omega arith)

write-IsCounted_example :
    (g : LogFile) × (write by_two 7 (codes "hello") new_file ≡ ok g)
    × (g.written ≡ new_file.written ++ codes "hello")
    × IsCounted g
write-IsCounted_example =
    write-IsCounted by_two 7 (codes "hello") new_file by_two-Progress new_file-IsCounted

abbrev at_start : AsyncLogging
at_start = started new_file

at_start-IsSound : IsSound at_start
at_start-IsSound = started-IsSound new_file new_file-IsCounted

finish_round-IsSound_example :
    (t : AsyncLogging) × (finish_round by_two (λ i. 9) true true at_start ≡ ok t)
    × IsSound t
    × (on_disk t ≡ logged at_start)
    × (logged t ≡ logged at_start)
finish_round-IsSound_example =
    finish_round-IsSound by_two (λ i. 9) true true at_start by_two-Progress refl at_start-IsSound

after_hello : (t : AsyncLogging) × (append (codes "hello") at_start ≡ ok t)
unfolding append append_to started avail
after_hello = (_, refl)

hello_trace : Trace at_start (codes "hello") after_hello.0
unfolding append started avail
hello_trace = stepped begun (appended (codes "hello") after_hello.1)

Trace-logged_example :
    IsSound after_hello.0
    × (on_disk after_hello.0
          ++ (contents after_hello.0.buffers ++ current_content after_hello.0.current)
        ≡ codes "hello")
unfolding new_log_file
Trace-logged_example = Trace-logged new_file-IsCounted refl hello_trace
