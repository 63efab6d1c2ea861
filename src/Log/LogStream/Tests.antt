-- ===== src/Log/LogStream/Tests.antt =====
-- Numbers written to a log stream.
use l.Base.{arith, codes, decimal, map, negated, negsuc, pos, refl, to_string, true, ◌≡◌, ◌≤◌}
use l.Log.FixedBuffer.{add, append, avail, new_buffer}
use l.Log.FixedBuffer.Bounds.{Fits}
use l.Log.LogStream.{digits_loop, format_integer, k_max_numeric_size, new_stream, sign_char, tenth}
use l.Log.LogStream.Digits.{format_integer_writes, shown_as}
use l.Log.LogStream.Put.{int}

room : k_max_numeric_size ≤ avail new_stream.buffer
unfolding avail
room = omega arith

format_integer_writes_example :
    (format_integer (pos 4711) new_stream
      ≡ record new_stream { buffer = add (to_string (pos 4711)) new_stream.buffer })
    × (format_integer (negsuc 4711) new_stream ≡ record new_stream {
      buffer = add (map (shown_as true) (decimal 20 4712)) new_stream.buffer;
    })
format_integer_writes_example = format_integer_writes 4711 new_stream (omega arith) room

-- -25 comes out as ".+".
minus_25 : (int (negsuc 24) new_stream).buffer.content ≡ codes ".+"
unfolding int format_integer digits_loop tenth add avail sign_char negated
minus_25 = refl

-- Eight bytes do not fit into a buffer of eight.
fills : append (codes "12345678") (new_buffer 8) ≡ new_buffer 8
unfolding append avail
fills = refl

new_stream-Fits : Fits new_stream.buffer
new_stream-Fits = omega arith
