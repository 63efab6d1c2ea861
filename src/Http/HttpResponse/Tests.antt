-- ===== src/Http/HttpResponse/Tests.antt =====
-- A concrete response.
use l.Base.{[], codes, decimal, length, negsuc, pos, refl, some, suc, to_string, true, ◌∷◌, ◌≡◌}
use l.Http.HttpResponse.{
  HttpResponse, beforebody, code_number, connection_line, header_lines, html_type, k_200_k, message,
}
use l.Http.HttpResponse.Message.{head_lines, no_cr, no_cr-Plain, read_head, read_head-message}

abbrev page : HttpResponse
page = record {
  headers = (codes "Content-Type", codes "text/html") ∷ [];
  status_code = k_200_k;
  status_message = codes "OK";
  content_length = pos 2;
  body = codes "hi";
  close_connection = true;
  filefd = negsuc 0;
  body_type = html_type;
}

page_text :
    message page
    ≡ codes
        "HTTP/1.1 200 OK\r\nConnection: close\r\nContent-Length: 2\r\nContent-Type: text/html\r\nCache-Control: no-store, no-cache, must-revalidate\r\n\r\nhi"
unfolding message beforebody code_number to_string decimal connection_line header_lines
page_text = refl

read_head-message_example :
    read_head (suc (length (head_lines page))) (message page) ≡ some (head_lines page, page.body)
unfolding no_cr
read_head-message_example =
    read_head-message page (no_cr-Plain page.status_message refl)
      ((no_cr-Plain (codes "Content-Type") refl, no_cr-Plain (codes "text/html") refl), tt)
