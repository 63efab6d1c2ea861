-- ===== src/Http/HttpContext/Printed.antt =====
-- The text of a request and the request that it says: what the parser is to read back.
use l.Base.{
  All, Bytes, [], atoi, false, isblank, isdigit, isupper, length, not, true, ◌++◌, ◌==◌, ◌∷◌, ◌≡◌,
  ◌⊎◌,
}
use l.Http.HttpRequest.{HttpRequest, get_header, method_named, new_request, version_named}
use l.Http.StringMap.{StringMap, assign, count}
use l.Http.HttpContext.{
  cr, header_key, header_value, in_method, in_protocol, in_url, in_version, lf, url_param_key,
  url_param_value,
}
use l.Http.HttpContext.Head.{at_least, content_length, is_positive}
use l.Http.HttpContext.Skips.{skips}
use l.Http.HttpContext.Pieces.{IsToken}
use l.Http.HttpContext.Pairs.{begins_param}
use l.Http.HttpContext.HeaderLine.{begins_field}

pub record RequestText : Type 0 where
  pub method_name : Bytes
  pub path : Bytes
  pub params : StringMap
  pub protocol_name : Bytes
  pub version_name : Bytes
  pub fields : StringMap
  pub content : Bytes

-- Each parameter, from the first byte of its key to its delimiter.
abbrev pub params_text : Bytes → Bytes → StringMap → Bytes → Bytes
params_text key value [] rest = key ++ b'=' ∷ (value ++ b' ' ∷ rest)
params_text key value ((k, v) ∷ m) rest = key ++ b'=' ∷ (value ++ b'&' ∷ params_text k v m rest)

-- What follows the path: the parameters, if there are any, and a blank.
abbrev pub query_text : StringMap → Bytes → Bytes
query_text [] rest = b' ' ∷ rest
query_text ((k, v) ∷ m) rest = b'?' ∷ params_text k v m rest

abbrev pub fields_text : StringMap → Bytes → Bytes
fields_text [] rest = rest
fields_text ((k, v) ∷ m) rest = k ++ b':' ∷ b' ' ∷ (v ++ cr ∷ lf ∷ fields_text m rest)

-- The headers, the empty line and what follows it.
abbrev pub head_text : StringMap → Bytes → Bytes
head_text m rest = fields_text m (cr ∷ lf ∷ rest)

abbrev pub version_text : RequestText → Bytes → Bytes
version_text t rest = t.version_name ++ cr ∷ lf ∷ head_text t.fields rest

abbrev pub protocol_text : RequestText → Bytes → Bytes
protocol_text t rest = t.protocol_name ++ b'/' ∷ version_text t rest

abbrev pub path_text : RequestText → Bytes → Bytes
path_text t rest = t.path ++ query_text t.params (protocol_text t rest)

-- The request line, the headers, the empty line; `rest` follows them.
unfoldable pub request_text : RequestText → Bytes → Bytes
request_text t rest = t.method_name ++ b' ' ∷ path_text t rest

-- The entries, assigned one after the other: a later one of the same key wins.
abbrev pub assigned : StringMap → StringMap → StringMap
assigned m [] = m
assigned m ((k, v) ∷ more) = assigned (assign k v m) more

-- What the text says.
abbrev pub request_said : RequestText → HttpRequest
request_said t = record {
  method = method_named t.method_name;
  version = version_named t.version_name;
  request_params = assigned [] t.params;
  url = t.path;
  protocol = t.protocol_name;
  headers = assigned [] t.fields;
  body = t.content;
}

abbrev pub IsParam : Bytes × Bytes → Type 0
IsParam (k, v) = IsToken begins_param url_param_key k × IsToken begins_param url_param_value v

abbrev pub IsField : Bytes × Bytes → Type 0
IsField (k, v) = IsToken begins_field header_key k × All (λ c. skips header_value c ≡ true) v

-- The body is as long as the header says, or longer; where a header says there is none, there is
-- none; and without a header it is whatever follows.
abbrev pub FitsLength : StringMap → Bytes → Type 0
FitsLength headers body =
    let told = atoi (get_header content_length (record new_request { headers = headers })) in
    (count content_length headers ≡ false)
    ⊎ ((count content_length headers ≡ true)
        × (is_positive told ≡ true)
        × (at_least (length body) told ≡ true))
    ⊎ ((count content_length headers ≡ true) × (is_positive told ≡ false) × (body ≡ []))

pub record IsWellFormed (t : RequestText) : Type 0 where
  pub method_ok : IsToken isupper in_method t.method_name
  pub path_ok : IsToken (λ c. c == b'/') in_url t.path
  pub params_ok : All IsParam t.params
  pub protocol_ok : IsToken (λ c. not (isblank c)) in_protocol t.protocol_name
  pub version_ok : IsToken isdigit in_version t.version_name
  pub fields_ok : All IsField t.fields
  pub body_ok : FitsLength (assigned [] t.fields) t.content
