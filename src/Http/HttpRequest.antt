-- ===== src/Http/HttpRequest.antt =====
-- code/day29/http/HttpRequest.h and HttpRequest.cpp.
pub mod Fields
mod Tests
use l.Base.{Bool, Bytes, Option, [], codes, equal, false, if◌then◌else◌, none, some, true}
use l.Http.StringMap.{StringMap, assign, find}

pub data Method : Type 0 where
  k_invalid_method k_get k_post k_head k_put k_delete : Method

pub data Version : Type 0 where
  k_unknown k_http10 k_http11 : Version

pub record HttpRequest : Type 0 where
  pub method : Method
  pub version : Version
  pub request_params : StringMap
  pub url : Bytes
  pub protocol : Bytes
  pub headers : StringMap
  pub body : Bytes

-- `HttpRequest::HttpRequest`
abbrev pub new_request : HttpRequest
new_request = record {
  method = k_invalid_method;
  version = k_unknown;
  request_params = [];
  url = [];
  protocol = [];
  headers = [];
  body = [];
}

unfoldable pub version_named : Bytes → Version
version_named ver =
    if equal ver (codes "1.0")
    then k_http10
    else if equal ver (codes "1.1")
    then k_http11
    else k_unknown

abbrev pub set_version : Bytes → HttpRequest → HttpRequest
set_version ver r = record r { version = version_named ver }

unfoldable pub get_version_string : HttpRequest → Bytes
get_version_string r = elim r.version [
  | k_http10 ↦ codes "http1.0"
  | k_http11 ↦ codes "http1.1"
  | k_unknown ↦ codes "unknown"
]

-- The chain of comparisons in `SetMethod`.
unfoldable pub method_named : Bytes → Method
method_named name =
    if equal name (codes "GET")
    then k_get
    else if equal name (codes "POST")
    then k_post
    else if equal name (codes "HEAD")
    then k_head
    else if equal name (codes "PUT")
    then k_put
    else if equal name (codes "Delete")
    then k_delete
    else k_invalid_method

pub is_valid_method : Method → Bool
is_valid_method k_invalid_method = false
is_valid_method _ = true

-- The request with its method, and what `SetMethod` returns.
unfoldable pub set_method : Bytes → HttpRequest → HttpRequest × Bool
unfolding is_valid_method
set_method name r = (record r { method = method_named name }, is_valid_method (method_named name))

method_string : Method → Bytes
method_string k_get = codes "GET"
method_string k_post = codes "POST"
method_string k_head = codes "HEAD"
method_string k_put = codes "PUT"
method_string k_delete = codes "DELETE"
method_string k_invalid_method = codes "INVALID"

unfoldable pub get_method_string : HttpRequest → Bytes
unfolding method_string
get_method_string r = method_string r.method

abbrev pub set_url : Bytes → HttpRequest → HttpRequest
set_url url r = record r { url = url }

abbrev pub set_request_params : Bytes → Bytes → HttpRequest → HttpRequest
set_request_params key value r = record r { request_params = assign key value r.request_params }

abbrev text_or_empty : Option Bytes → Bytes
text_or_empty none = []
text_or_empty (some s) = s

-- It looks in the headers, as the source does.
unfoldable pub get_request_value : Bytes → HttpRequest → Bytes
get_request_value key r = text_or_empty (find key r.headers)

abbrev pub set_protocol : Bytes → HttpRequest → HttpRequest
set_protocol s r = record r { protocol = s }

abbrev pub add_header : Bytes → Bytes → HttpRequest → HttpRequest
add_header field value r = record r { headers = assign field value r.headers }

unfoldable pub get_header : Bytes → HttpRequest → Bytes
get_header field r = text_or_empty (find field r.headers)

abbrev pub set_body : Bytes → HttpRequest → HttpRequest
set_body s r = record r { body = s }
