-- ===== src/Http/HttpContext/Parase.antt =====
-- `HttpContext::ParaseRequest`. The loop reads the bytes at the offsets 0 to `size`, both included:
-- the byte behind the text is `after`, the NUL of a std::string.
use l.Base.{Bool, Bytes, Result, [], false, if◌then◌else◌, ok, true, ℕ, ◌++◌, ◌+◌, ◌==◌, ◌>>=◌, ◌∷◌}
use l.Http.HttpContext.{
  HttpContext, HttpRequestParaseState, Scan, before_protocol, before_url, before_url_param_key,
  before_url_param_value, before_version, complete, cr_lf, cr_lf_cr, header_key, header_value,
  in_body, in_method, in_protocol, in_start, in_url, in_version, k_invalid, move, url_param_key,
  url_param_value, when_cr,
}
use l.Http.HttpContext.Line.{
  on_before_protocol, on_before_url, on_before_url_param_key, on_before_url_param_value,
  on_before_version, on_method, on_protocol, on_start, on_url, on_url_param_key, on_url_param_value,
  on_version,
}
use l.Http.HttpContext.Head.{
  on_body, on_cr_lf, on_cr_lf_cr, on_header_key, on_header_value, on_when_cr,
}

-- One round of the loop, without `end++`.
unfoldable pub parase_step : Bytes → Scan → ℕ → ℕ → Result Scan
parase_step text p end ch = elim p.state [
  | in_start ↦ ok (on_start p ch)
  | in_method ↦ on_method text p end ch
  | before_url ↦ ok (on_before_url p ch)
  | in_url ↦ on_url text p end ch
  | before_url_param_key ↦ ok (on_before_url_param_key p ch)
  | url_param_key ↦ ok (on_url_param_key p end ch)
  | before_url_param_value ↦ ok (on_before_url_param_value p ch)
  | url_param_value ↦ on_url_param_value text p end ch
  | before_protocol ↦ ok (on_before_protocol p ch)
  | in_protocol ↦ on_protocol text p end ch
  | before_version ↦ ok (on_before_version p ch)
  | in_version ↦ on_version text p end ch
  | header_key ↦ ok (on_header_key p end ch)
  | header_value ↦ on_header_value text p end ch
  | when_cr ↦ ok (on_when_cr p end ch)
  | cr_lf ↦ ok (on_cr_lf p ch)
  | cr_lf_cr ↦ ok (on_cr_lf_cr text p end ch)
  | in_body ↦ on_body text p end
  | _ ↦ ok (move k_invalid p)
]

-- The loop does not go on in these two states.
unfoldable pub is_final : HttpRequestParaseState → Bool
is_final k_invalid = true
is_final complete = true
is_final _ = false

-- The bytes from `end` on, the one at `size` included.
unfoldable pub parase_loop : Bytes → Bytes → ℕ → Scan → Result Scan
parase_loop text [] end p = ok p
parase_loop text (ch ∷ rest) end p =
    if is_final p.state
    then ok p
    else (parase_step text p end ch >>= λ q. parase_loop text rest (end + 1) q)

-- What the call returns.
unfoldable pub is_accepted : HttpRequestParaseState → Bool
is_accepted complete = true
is_accepted in_body = true
is_accepted _ = false

-- `ParaseRequest(const char *begin, int size)`
unfoldable pub parase_request_at : HttpContext → Bytes → ℕ → Result (HttpContext × Bool)
parase_request_at c text after =
    parase_loop text (text ++ after ∷ []) 0
      (record { state = c.state; request = c.request; start = 0; colon = 0 })
    >>= λ p. ok (record { state = p.state; request = p.request }, is_accepted p.state)

-- `ParaseRequest(const std::string &msg)`
unfoldable pub parase_request : HttpContext → Bytes → Result (HttpContext × Bool)
unfolding parase_request_at
parase_request c msg = parase_request_at c msg 0

until_nul : Bytes → Bytes
until_nul [] = []
until_nul (ch ∷ s) = let rest = until_nul s in if ch == 0 then [] else ch ∷ rest

-- `ParaseRequest(const char *begin)`: the text ends at its first NUL.
unfoldable pub parase_request_from : HttpContext → Bytes → Result (HttpContext × Bool)
unfolding parase_request_at until_nul
parase_request_from c begin = parase_request_at c (until_nul begin) 0
