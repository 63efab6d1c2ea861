-- ===== src/Http/HttpServer/Serves/Tests.antt =====
-- The server on concrete texts.
use l.Base.{
  Bytes, [], codes, equal, err, false, inl, map, ok, out_of_range, pos, refl, some, true, ◌++◌,
  ◌>>=◌, ◌∷◌, ◌≡◌,
}
use l.Http.StringMap.{assign, count, find}
use l.Http.HttpRequest.{HttpRequest, get_header, new_request}
use l.Http.HttpContext.{HttpContext, k_invalid, new_context}
use l.Http.HttpContext.Line.{on_start}
use l.Http.HttpContext.Parase.{is_accepted, is_final, parase_loop, parase_request, parase_step}
use l.Http.HttpContext.Pieces.{token}
use l.Http.HttpContext.Printed.{IsWellFormed, RequestText, request_said, request_text}
use l.Http.HttpServer.{HttpServer, http_default_call_back, on_message}
use l.Http.HttpServer.Upload.{
  append_file, boundary_of, filedata_of, filename_of, find_text, handle_close, search_at, send_text,
  starts_with, substr, upload,
}
use l.Http.HttpServer.Serves.{
  answers, on_message_refuses, paired, receives, receives-answers, touched,
}

abbrev not_found_server : HttpServer
not_found_server = record { auto_close_conn = true; response_callback = http_default_call_back }

abbrev page_text : RequestText
page_text = record {
  method_name = codes "GET";
  path = codes "/a";
  params = [];
  protocol_name = codes "HTTP";
  version_name = codes "1.1";
  fields = (codes "Host", codes "x") ∷ [];
  content = [];
}

page_text-IsWellFormed : IsWellFormed page_text
unfolding count equal assign
page_text-IsWellFormed = record {
  method_ok = token refl (refl, (refl, tt));
  path_ok = token refl (refl, tt);
  params_ok = tt;
  protocol_ok = token refl (refl, (refl, (refl, tt)));
  version_ok = token refl (refl, (refl, tt));
  fields_ok = ((token refl (refl, (refl, (refl, tt))), (refl, tt)), tt);
  body_ok = inl refl;
}

-- A server whose responses are empty, and which closes the connection only if it is asked to.
abbrev open_server : HttpServer
open_server = record { auto_close_conn = true; response_callback = λ request resp. ok resp }

receives-answers_example :
    receives open_server
      (pos 0)
      (pos 0)
      true
      new_context
      (map (λ t. request_text t t.content) (page_text ∷ page_text ∷ []))
    ≡ (answers open_server (pos 0) (pos 0) (map request_said (page_text ∷ page_text ∷ []))
        >>= paired new_context)
receives-answers_example =
    receives-answers open_server (pos 0) (pos 0) (page_text ∷ page_text ∷ [])
      (page_text-IsWellFormed, (page_text-IsWellFormed, tt))

abbrev refused_context : HttpContext
refused_context = record { state = k_invalid; request = new_request }

refused : parase_request new_context (codes "hello") ≡ ok (refused_context, false)
unfolding parase_request parase_loop parase_step is_final on_start is_accepted
refused = refl

on_message_refuses_example :
    on_message not_found_server (pos 0) (pos 0) true new_context (codes "hello")
    ≡ ok (
      refused_context,
      touched not_found_server (pos 0) (pos 0)
          ++ send_text (codes "HTTP/1.1 400 Bad Request\r\n\r\n") ∷ handle_close ∷ [],
    )
on_message_refuses_example =
    on_message_refuses not_found_server (pos 0) (pos 0) new_context refused_context (codes "hello")
      refused

abbrev form : Bytes → Bytes → HttpRequest
form type body = record new_request { headers = (codes "Content-Type", type) ∷ []; body = body }

-- A content type that ends with the word boundary makes substr throw.
no_boundary : upload (form (codes "multipart/form-data; boundary") []) ≡ err out_of_range
unfolding upload boundary_of substr find_text search_at starts_with get_header find equal
no_boundary = refl

-- The name of an upload may lead out of the directory, and a line end is stored behind the data.
stored :
    upload (
      form
        (codes "multipart/form-data; boundary=B")
        (codes "--B\r\nX; filename=\"../a\"\r\n\r\nhi\r\n--B--"))
    ≡ ok (some (append_file (codes "../files/../a") (codes "hi\r\n") ∷ []))
unfolding upload boundary_of filename_of filedata_of substr find_text search_at starts_with
    get_header find equal
stored = refl
