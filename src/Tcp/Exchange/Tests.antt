-- ===== src/Tcp/Exchange/Tests.antt =====
-- The tutorial's connection and server on concrete messages.
use l.Base.{
  decimal, ok, to_string, Bytes, List, [], arith, codes, drop, false, pos, refl, take, ◌++◌, ◌∷◌,
  ◌≡◌,
}
use l.Net.Buffer.{Buffer, contents}
use l.Net.System.{Reply, failed, eagain, returned}
use l.Http.HttpResponse.{
  HttpResponse, beforebody, code_number, connection_line, header_lines, file_type, new_response,
}
use l.Http.HttpServer.{HttpServer, http_default_call_back, respond}
use l.Tcp.Buffer.{retrieve_all}
use l.Tcp.Buffer.Queue.{IsSound, new_buffer-IsSound}
use l.Tcp.TcpConnection.{TcpConnection}
use l.Tcp.TcpConnection.Tests.{young}
use l.Tcp.TcpConnection.Reads.{hangs_up, heard}
use l.Tcp.Exchange.{Surroundings, handle_message, perform}
use l.Tcp.Exchange.Messages.{handle_message-Hears, on_text, respond-overtakes}

abbrev plain_server : HttpServer
plain_server = record { auto_close_conn = false; response_callback = http_default_call_back }

abbrev around : Surroundings
around = record {
  now = 7;
  pieces = returned 3 ∷ [];
  file_of = λ fd. codes "abc";
  any_length = pos 0;
  any_fd = pos 0;
}

-- A request in two pieces.
abbrev two_reads : List (Reply Bytes)
two_reads = returned (codes "GET /a ") ∷ returned (codes "HTTP/1.1\r\n\r\n") ∷ failed eagain ∷ []

handle_message-Hears_example :
    (b : Buffer) × IsSound b
    × (handle_message plain_server around [] two_reads young
        ≡ on_text plain_server around []
            (record young { read_buf = retrieve_all b })
            (codes "GET /a HTTP/1.1\r\n\r\n"))
unfolding heard hangs_up
handle_message-Hears_example =
    handle_message-Hears young refl plain_server around [] two_reads new_buffer-IsSound.0
      new_buffer-IsSound.1 (omega arith)

abbrev file_response : HttpResponse
file_response = record (new_response (pos 0) (pos 0) false) {
  body_type = file_type;
  content_length = pos 3;
  filefd = pos 5;
}

respond-overtakes_example :
    (c' : TcpConnection) × (perform around (returned 2 ∷ []) (respond file_response) young ≡ ok c')
    × (c'.sent ≡ take 2 (beforebody file_response) ++ codes "abc")
    × (contents c'.send_buf ≡ drop 2 (beforebody file_response))
unfolding new_response beforebody connection_line code_number header_lines to_string decimal
respond-overtakes_example =
    respond-overtakes young new_buffer-IsSound.0 new_buffer-IsSound.1 around file_response
      (codes "abc") 2 refl refl refl refl (omega arith)
