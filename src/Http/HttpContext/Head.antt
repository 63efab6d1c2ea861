-- ===== src/Http/HttpContext/Head.antt =====
-- The cases of the switch in `HttpContext::ParaseRequest` for the headers and the body.
use l.Base.{
  Bool, Bytes, Result, atoi, codes, false, if◌then◌else◌, isblank, leb, length, ltb, negsuc, ok,
  pos, true, ℕ, ℤ, ◌+◌, ◌-◌, ◌==◌, ◌>>=◌,
}
use l.Http.HttpRequest.{HttpRequest, add_header, get_header, set_body}
use l.Http.StringMap.{count}
use l.Http.HttpContext.{
  HttpRequestParaseState, Scan, complete, cr, cr_lf, cr_lf_cr, cut_pair, header_key, header_value,
  in_body, k_invalid, lf, move, slice, when_cr,
}

unfoldable pub on_header_key : Scan → ℕ → ℕ → Scan
on_header_key p end ch = if ch == b':' then record p { colon = end; state = header_value } else p

-- One byte is skipped behind the colon, whatever it is.
unfoldable pub on_header_value : Bytes → Scan → ℕ → ℕ → Result Scan
on_header_value text p end ch =
    if isblank ch then ok p else if ch == cr then cut_pair text p end when_cr 2 add_header else ok p

unfoldable pub on_when_cr : Scan → ℕ → ℕ → Scan
on_when_cr p end ch =
    if ch == lf then record p { start = end + 1; state = cr_lf } else move k_invalid p

unfoldable pub on_cr_lf : Scan → ℕ → Scan
on_cr_lf p ch =
    if ch == cr then move cr_lf_cr p else if isblank ch then move k_invalid p else move header_key p

abbrev pub content_length : Bytes
content_length = codes "Content-Length"

abbrev pub is_positive : ℤ → Bool
is_positive (pos n) = ltb 0 n
is_positive (negsuc n) = false

-- `n >= z`
abbrev pub at_least : ℕ → ℤ → Bool
at_least n (pos k) = leb k n
at_least n (negsuc k) = true

-- The state behind the empty line.
unfoldable pub after_head : Bytes → HttpRequest → ℕ → HttpRequestParaseState
after_head text r end =
    if count content_length r.headers
    then if is_positive (atoi (get_header content_length r)) then in_body else complete
    else if ltb end (length text)
    then in_body
    else complete

unfoldable pub on_cr_lf_cr : Bytes → Scan → ℕ → ℕ → Scan
unfolding after_head
on_cr_lf_cr text p end ch =
    if ch == lf
    then record p { state = after_head text p.request end; start = end + 1 }
    else move k_invalid p

unfoldable pub on_body : Bytes → Scan → ℕ → Result Scan
on_body text p end =
    let body_length = length text - end in
    slice text p.start (p.start + body_length) >>= λ body. ok (record p {
      request = set_body body p.request;
      state =
          if at_least body_length (atoi (get_header content_length (set_body body p.request)))
          then complete
          else in_body;
    })
