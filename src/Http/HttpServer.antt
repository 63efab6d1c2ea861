-- ===== src/Http/HttpServer.antt =====
-- code/day29/http/HttpServer.h and HttpServer.cpp. What a callback does to its connection is the
-- list of the calls that it makes; the log lines are left out.
pub mod Upload
pub mod Serves
use l.Base.{
  Bool, Bytes, List, Result, [], codes, equal, false, if◌then◌else◌, none, not, ok, some, true, ℤ,
  ◌&&◌, ◌++◌, ◌>>=◌, ◌||◌, ◌∷◌,
}
use l.Http.HttpRequest.{HttpRequest, get_header, k_http10}
use l.Http.HttpContext.{HttpContext, get_complete_request, reset_context_status}
use l.Http.HttpContext.Parase.{parase_request}
use l.Http.HttpResponse
use l.Http.HttpResponse.{HttpResponse, beforebody, file_type, html_type, message, new_response}
use l.Http.HttpServer.Upload.{
  ConnectionAction, close_file, handle_close, is_multipart, send_file, send_text, update_time_stamp,
  upload,
}
use l.Net.TcpConnection.{is_connected}

-- The function that `SetHttpCallback` is given, which may throw.
abbrev pub HttpResponseCallback : Type 0
HttpResponseCallback = HttpRequest → HttpResponse → Result HttpResponse

pub record HttpServer : Type 0 where
  pub auto_close_conn : Bool
  pub response_callback : HttpResponseCallback

-- `HttpDefaultCallBack`
unfoldable pub http_default_call_back : HttpResponseCallback
http_default_call_back request resp = ok (record resp {
  status_code = HttpResponse.k_404_not_found;
  status_message = codes "Not Found";
  close_connection = true;
})

-- Is the connection to be closed behind the response?
unfoldable pub is_close : HttpRequest → Bool
is_close request =
    let state = get_header (codes "Connection") request in
    equal state (codes "Close")
    || (elim request.version [ k_http10 ↦ true | _ ↦ false ])
      && not (equal state (codes "keep-alive"))

-- What a response makes of its connection.
unfoldable pub respond : HttpResponse → List ConnectionAction
respond r =
    (elim r.body_type [
      | html_type ↦ send_text (message r) ∷ []
      | file_type ↦
          send_text (beforebody r) ∷ send_file r.filefd r.content_length ∷ close_file r.filefd ∷ []
    ])
    ++ (if r.close_connection then handle_close ∷ [] else [])

-- `onRequest` behind the upload: the response starts with what its constructor leaves unset.
answer : HttpServer → ℤ → ℤ → HttpRequest → Result (List ConnectionAction)
unfolding respond
answer server any_length any_fd request =
    server.response_callback request (new_response any_length any_fd (is_close request)) >>= λ r.
    ok (respond r)

-- `onRequest`
unfoldable pub on_request : HttpServer → ℤ → ℤ → HttpRequest → Result (List ConnectionAction)
unfolding answer
on_request server any_length any_fd request =
    if is_multipart request
    then (upload request >>= λ stored. elim stored [
      | none ↦ ok []
      | some files ↦ (answer server any_length any_fd request >>= λ calls. ok (files ++ calls))
    ])
    else answer server any_length any_fd request

bad_request : Bytes
bad_request = codes "HTTP/1.1 400 Bad Request\r\n\r\n"

-- The end of `onMessage`: a complete request is answered, and the context begins anew.
finish_message :
    HttpServer
    → ℤ
    → ℤ
    → HttpContext
    → List ConnectionAction
    → Result (HttpContext × List ConnectionAction)
finish_message server any_length any_fd context calls =
    if get_complete_request context
    then (on_request server any_length any_fd context.request >>= λ more.
        ok (reset_context_status context, calls ++ more))
    else ok (context, calls)

-- `onMessage`, on a connection that is connected or not, with the text that it has received.
unfoldable pub on_message :
    HttpServer → ℤ → ℤ → Bool → HttpContext → Bytes → Result (HttpContext × List ConnectionAction)
unfolding finish_message bad_request
on_message server any_length any_fd is_connected context text =
    let touched = if server.auto_close_conn then update_time_stamp ∷ [] else [] in
    if is_connected
    then (parase_request context text >>= λ parsed.
        finish_message server any_length any_fd parsed.0
          (touched ++ (if parsed.1 then [] else send_text bad_request ∷ handle_close ∷ [])))
    else ok (context, [])
