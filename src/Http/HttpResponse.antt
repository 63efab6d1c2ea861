-- ===== src/Http/HttpResponse.antt =====
-- code/day29/http/HttpResponse.h and HttpResponse.cpp. The constructor leaves the content length
-- and the file descriptor unset; what stands there is a parameter.
pub mod Message
mod Tests
use l.Base.{Bool, Bytes, [], codes, false, pos, to_string, true, ℕ, ℤ, ◌++◌, ◌∷◌}
use l.Http.StringMap.{StringMap, assign}

-- An enumerator is its number.
pub data HttpStatusCode : Type 0 where
  k_unkonwn k_100_continue k_200_k k_301_k k_302_k k_400_bad_request : HttpStatusCode
  k_403_forbidden k_404_not_found k_500_internal_server_error : HttpStatusCode

pub data HttpBodyType : Type 0 where
  html_type file_type : HttpBodyType

pub record HttpResponse : Type 0 where
  pub headers : StringMap
  pub status_code : HttpStatusCode
  pub status_message : Bytes
  pub content_length : ℤ
  pub body : Bytes
  pub close_connection : Bool
  pub filefd : ℤ
  pub body_type : HttpBodyType

-- `HttpResponse::HttpResponse`
unfoldable pub new_response : ℤ → ℤ → Bool → HttpResponse
new_response any_length any_fd close = record {
  headers = [];
  status_code = k_unkonwn;
  status_message = [];
  content_length = any_length;
  body = [];
  close_connection = close;
  filefd = any_fd;
  body_type = html_type;
}

unfoldable pub code_number : HttpStatusCode → ℕ
code_number k_unkonwn = 1
code_number k_100_continue = 100
code_number k_200_k = 200
code_number k_301_k = 301
code_number k_302_k = 302
code_number k_400_bad_request = 400
code_number k_403_forbidden = 403
code_number k_404_not_found = 404
code_number k_500_internal_server_error = 500

abbrev pub set_status_code : HttpStatusCode → HttpResponse → HttpResponse
set_status_code s r = record r { status_code = s }

abbrev pub set_status_message : Bytes → HttpResponse → HttpResponse
set_status_message s r = record r { status_message = s }

abbrev pub set_close_connection : Bool → HttpResponse → HttpResponse
set_close_connection b r = record r { close_connection = b }

abbrev pub add_header : Bytes → Bytes → HttpResponse → HttpResponse
add_header key value r = record r { headers = assign key value r.headers }

abbrev pub set_content_type : Bytes → HttpResponse → HttpResponse
set_content_type s r = add_header (codes "Content-Type") s r

abbrev pub set_content_length : ℤ → HttpResponse → HttpResponse
set_content_length n r = record r { content_length = n }

abbrev pub set_body : Bytes → HttpResponse → HttpResponse
set_body s r = record r { body = s }

abbrev pub set_file_fd : ℤ → HttpResponse → HttpResponse
set_file_fd fd r = record r { filefd = fd }

abbrev pub set_body_type : HttpBodyType → HttpResponse → HttpResponse
set_body_type t r = record r { body_type = t }

abbrev pub crlf : Bytes
crlf = b'\r' ∷ b'\n' ∷ []

abbrev header_line : Bytes × Bytes → Bytes
header_line (key, value) = key ++ codes ": " ++ value ++ crlf

-- The loop over the headers.
unfoldable pub header_lines : StringMap → Bytes
header_lines [] = []
header_lines (h ∷ m) = header_line h ++ header_lines m

unfoldable pub connection_line : Bool → Bytes
connection_line true = codes "Connection: close\r\n"
connection_line false = codes "Connection: Keep-Alive\r\n"

unfoldable pub beforebody : HttpResponse → Bytes
unfolding header_lines connection_line code_number
beforebody r =
    codes "HTTP/1.1 "
    ++ to_string (pos (code_number r.status_code))
    ++ codes " "
    ++ r.status_message
    ++ crlf
    ++ connection_line r.close_connection
    ++ (codes "Content-Length: " ++ to_string r.content_length ++ crlf)
    ++ header_lines r.headers
    ++ codes "Cache-Control: no-store, no-cache, must-revalidate\r\n"
    ++ crlf

unfoldable pub message : HttpResponse → Bytes
unfolding beforebody
message r = beforebody r ++ r.body
