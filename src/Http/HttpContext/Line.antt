-- ===== src/Http/HttpContext/Line.antt =====
-- The cases of the switch in `HttpContext::ParaseRequest` for the request line.
use l.Base.{Bytes, Result, if◌then◌else◌, isblank, isdigit, isupper, ok, ℕ, ◌==◌, ◌>>=◌, ◌||◌}
use l.Http.HttpRequest.{set_method, set_protocol, set_request_params, set_url, set_version}
use l.Http.HttpContext.{
  Scan, before_protocol, before_url, before_url_param_key, before_url_param_value, before_version,
  cr, cut, cut_pair, in_method, in_protocol, in_url, in_version, k_invalid, lf, move, url_param_key,
  url_param_value, when_cr,
}

unfoldable pub on_start : Scan → ℕ → Scan
on_start p ch =
    if ch == cr || ch == lf || isblank ch
    then p
    else if isupper ch
    then move in_method p
    else move k_invalid p

unfoldable pub on_method : Bytes → Scan → ℕ → ℕ → Result Scan
on_method text p end ch =
    if isupper ch
    then ok p
    else if isblank ch
    then cut text p end before_url (λ name r. (set_method name r).0)
    else ok (move k_invalid p)

unfoldable pub on_before_url : Scan → ℕ → Scan
on_before_url p ch =
    if ch == b'/' then move in_url p else if isblank ch then p else move k_invalid p

unfoldable pub on_url : Bytes → Scan → ℕ → ℕ → Result Scan
on_url text p end ch =
    if ch == b'?'
    then cut text p end before_url_param_key set_url
    else if isblank ch
    then cut text p end before_protocol set_url
    else ok p

unfoldable pub on_before_url_param_key : Scan → ℕ → Scan
on_before_url_param_key p ch =
    if isblank ch || ch == cr || ch == lf then move k_invalid p else move url_param_key p

unfoldable pub on_url_param_key : Scan → ℕ → ℕ → Scan
on_url_param_key p end ch =
    if ch == b'='
    then record p { colon = end; state = before_url_param_value }
    else if isblank ch
    then move k_invalid p
    else p

unfoldable pub on_before_url_param_value : Scan → ℕ → Scan
on_before_url_param_value p ch =
    if isblank ch || ch == lf || ch == cr then move k_invalid p else move url_param_value p

unfoldable pub on_url_param_value : Bytes → Scan → ℕ → ℕ → Result Scan
on_url_param_value text p end ch =
    (if ch == b'&' then cut_pair text p end before_url_param_key 1 set_request_params else ok p)
    >>= λ q. if isblank ch then cut_pair text q end before_protocol 1 set_request_params else ok q

unfoldable pub on_before_protocol : Scan → ℕ → Scan
on_before_protocol p ch = if isblank ch then p else move in_protocol p

unfoldable pub on_protocol : Bytes → Scan → ℕ → ℕ → Result Scan
on_protocol text p end ch = if ch == b'/' then cut text p end before_version set_protocol else ok p

unfoldable pub on_before_version : Scan → ℕ → Scan
on_before_version p ch = if isdigit ch then move in_version p else move k_invalid p

unfoldable pub on_version : Bytes → Scan → ℕ → ℕ → Result Scan
on_version text p end ch =
    if ch == cr
    then cut text p end when_cr set_version
    else if isdigit ch || ch == b'.'
    then ok p
    else ok (move k_invalid p)
