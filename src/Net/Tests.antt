-- ===== src/Net/Tests.antt =====
-- Runs of l4lb/src/net on concrete inputs.
use l.Net.TimerQueue.{Key, TimerEntry, TimerQueue, Timers, handle_read}
use l.Base.{
  List, [], ap, arith, err, false, length, ok, out_of_range, refl, some, true, ℕ, ◌*◌, ◌++◌, ◌+◌,
  ◌∙◌, ◌∷◌, ◌≡◌,
}
use l.Net.Buffer.{Buffer}
use l.Net.Buffer
use l.Net.Buffer.Queue.{Appends, append_string-Appends}
use l.Net.Buffer.Retrieve.{retrieve_too_long}
use l.Net.Epoller.{Channel}
use l.Net.Channel
use l.Net.Channel.Dispatch.{Ready, ready_mask}
use l.Net.System.{interrupted, replied, retry, returned, sound_context, sound_context-Works}
use l.Net.TcpConnection.{TcpConnection}
use l.Net.TcpConnection
use l.Net.TcpConnection.Invariant.{Live, with_reading, with_reading-Live}
use l.Net.TcpConnection.Reading.{Does, ReadEffect, entered, entered-Live, handle_read-effect}
use l.Net.TcpConnection.Opening.{fresh_buffer-IsValid, made, made-Fresh}
use l.Net.TcpConnection.Sending.{SendEffect, send-effect, with_output, with_output-Live}
use l.Net.TcpConnection.Writing.{WriteEffect, handle_write-effect}

abbrev hello : List ℕ
hello = b'h' ∷ b'e' ∷ b'l' ∷ b'l' ∷ b'o' ∷ []

abbrev fresh : Buffer
fresh = Buffer.create Buffer.initial_size

-- A buffer that holds the five bytes.
abbrev filling : (b : Buffer) × (Buffer.append_string fresh hello ≡ ok b) × Appends fresh hello b
filling =
    append_string-Appends fresh fresh_buffer-IsValid.0 hello
      (omega (arith, ap length fresh_buffer-IsValid.1))

abbrev filled : Buffer
filled = filling.0

filled-IsValid : Buffer.IsValid filled
filled-IsValid = filling.2.valid

five_bytes : length (Buffer.contents filled) ≡ 5
five_bytes = ap length filling.2.queued ∙ ap (λ l. length (l ++ hello)) fresh_buffer-IsValid.1

retrieve_too_long_example :
    (Buffer.retrieve filled 6 ≡ err out_of_range)
    × (Buffer.retrieve_as_string filled 6 ≡ err out_of_range)
retrieve_too_long_example = retrieve_too_long filled filled-IsValid 6 (omega (arith, five_bytes))

-- An urgent byte on a connection that hangs up, with its owner alive.
abbrev urgent : Ready
urgent = record {
  readable = false;
  urgent = true;
  writable = true;
  broken = false;
  hung_up = true;
  peer_closed = false;
}

abbrev ready : Channel
ready = record (Channel.tie (Channel.create 5)) { ready_events = ready_mask urgent }

abbrev up : TcpConnection
up = entered (made 5)

up-Live : Live up
up-Live = entered-Live (made 5) (made-Fresh 5)

send-effect_example :
    Does
      (TcpConnection.send sound_context up hello (interrupted (replied (returned 2))))
      (SendEffect up hello (returned 2))
unfolding retry
send-effect_example =
    send-effect up up-Live sound_context sound_context-Works hello
      (omega (arith, ap length fresh_buffer-IsValid.1)) refl (interrupted (replied (returned 2)))

abbrev busy : TcpConnection
busy = with_output filled [] up

busy-Live : Live busy
busy-Live = with_output-Live up up-Live filled [] filled-IsValid refl

handle_write-effect_example :
    Does
      (TcpConnection.handle_write sound_context busy (replied (returned 3)))
      (WriteEffect busy (returned 3))
unfolding retry
handle_write-effect_example =
    handle_write-effect sound_context sound_context-Works busy busy-Live (replied (returned 3))

abbrev listening : TcpConnection
listening = with_reading true up

handle_read-effect_example :
    Does
      (TcpConnection.handle_read sound_context listening (replied (returned hello)))
      (ReadEffect listening (returned hello))
unfolding retry
handle_read-effect_example =
    handle_read-effect sound_context sound_context-Works listening
      (with_reading-Live up true up-Live refl) (omega (arith, ap length fresh_buffer-IsValid.1))
      (replied (returned hello))

abbrev early : Key
early = record { expiration = 2000; sequence = 2 }

abbrev late : Key
late = record { expiration = 9000; sequence = 1 }

abbrev once : ℕ → TimerEntry
once flag = record { interval = 0; callback = 7; flag = flag }

abbrev timers : Timers
timers = (early, once 2) ∷ (late, once 1) ∷ []

-- A clock that goes on by 5 microseconds with each read.
abbrev clock : ℕ → ℕ
clock reads = 5000 * (reads + 1)

abbrev queue : TimerQueue
queue = record {
  next_sequence = 2;
  timers = timers;
  cancelled = 1 ∷ [];
  armed = some 2000;
  reads = 0;
}
