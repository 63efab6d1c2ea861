-- ===== src/Tcp/TcpConnection/Tests.antt =====
-- The tutorial's connection on concrete answers of the system calls.
use l.Base.{Bytes, List, [], ap, arith, assertion_failed, codes, err, false, length, refl, ◌∷◌, ◌≡◌}
use l.Net.System.{eagain, failed, returned}
use l.Tcp.Buffer.{new_buffer}
use l.Tcp.Buffer.Queue.{new_buffer-IsSound}
use l.Tcp.TcpConnection.{
  TcpConnection, connected, invalid, new_connection, send_file, write_non_blocking,
}
use l.Tcp.TcpConnection.Files.{send_file-skips}
use l.Tcp.TcpConnection.Queue.{
  Call, Keeps, calls_run, calls_run-in_order, sends, texts, write_non_blocking-aborts, writes,
}

abbrev pub young : TcpConnection
young = record {
  state = connected;
  watches_write = false;
  read_buf = new_buffer;
  send_buf = new_buffer;
  context = (new_connection invalid 0).context;
  timestamp = 0;
  sent = [];
  closes = 0;
}

-- Two bytes at once, a socket that is full, one byte more, and a second text.
abbrev some_calls : List Call
some_calls =
    sends (codes "hello") (returned 2)
    ∷ writes (failed eagain)
    ∷ writes (returned 1)
    ∷ sends (codes "you") (returned 3)
    ∷ []

calls_run-in_order_example : Keeps young (texts some_calls) (calls_run young some_calls)
calls_run-in_order_example =
    calls_run-in_order young some_calls new_buffer-IsSound.0 (tt, (refl, (tt, (tt, tt))))
      (omega (arith, ap length new_buffer-IsSound.1))

write_non_blocking-aborts_example : write_non_blocking (returned 0) young ≡ err assertion_failed
write_non_blocking-aborts_example =
    write_non_blocking-aborts young new_buffer-IsSound.0.valid 0
      (omega (arith, ap length new_buffer-IsSound.1))

abbrev digits : Bytes
digits = codes "0123456789"

send_file-skips_example :
    (send_file digits 10 (returned 10 ∷ []) young ≡ record young { sent = digits })
    × (send_file digits 10 (returned 3 ∷ returned 10 ∷ []) young
        ≡ record young { sent = codes "0126789" })
send_file-skips_example = send_file-skips digits 3 young (omega arith) (omega arith)
