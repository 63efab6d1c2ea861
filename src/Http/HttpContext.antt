-- ===== src/Http/HttpContext.antt =====
-- code/day29/http/HttpContext.h and HttpContext.cpp: the states of the parser and what a call
-- keeps; the cases of the switch are in the modules below. A pointer into the text is its offset
-- from `begin`.
pub mod Line
pub mod Head
pub mod Parase
pub mod Skips
pub mod Pieces
pub mod Pairs
pub mod HeaderLine
pub mod Printed
pub mod RoundTrip
pub mod Safety
pub mod Bodies
mod Tests
use l.Base.{
  Bool, Bytes, Result, drop, err, false, if◌then◌else◌, length_error, ltb, ok, take, true, ℕ, ◌+◌,
  ◌-◌, ◌>>=◌,
}
use l.Http.HttpRequest.{HttpRequest, new_request}

-- `HttpRequestParaseState`, each constructor under its name in the source; `in_` stands before
-- the single words.
pub data HttpRequestParaseState : Type 0 where
  k_invalid k_invalid_method_state k_invalid_url k_invalid_version : HttpRequestParaseState
  k_invalid_header : HttpRequestParaseState
  in_start in_method before_url in_url : HttpRequestParaseState
  before_url_param_key url_param_key : HttpRequestParaseState
  before_url_param_value url_param_value : HttpRequestParaseState
  before_protocol in_protocol before_version version_split in_version : HttpRequestParaseState
  in_header header_key header_before_colon header_after_colon : HttpRequestParaseState
  header_value when_cr cr_lf cr_lf_cr in_body complete : HttpRequestParaseState

pub record HttpContext : Type 0 where
  pub state : HttpRequestParaseState
  pub request : HttpRequest

-- The context with the two pointers that a call moves besides `end`.
pub record Scan : Type 0 where
  pub state : HttpRequestParaseState
  pub request : HttpRequest
  pub start : ℕ
  pub colon : ℕ

-- `HttpContext::HttpContext`
abbrev pub new_context : HttpContext
new_context = record { state = in_start; request = new_request }

unfoldable pub get_complete_request : HttpContext → Bool
get_complete_request c = elim c.state [ complete ↦ true | _ ↦ false ]

abbrev pub reset_context_status : HttpContext → HttpContext
reset_context_status c = record { state = in_start; request = new_request }

abbrev pub cr : ℕ
cr = b'\r'

abbrev pub lf : ℕ
lf = b'\n'

-- `std::string(text + first, text + last)`: a negative length is thrown as std::length_error.
unfoldable pub slice : Bytes → ℕ → ℕ → Result Bytes
slice text first last =
    if ltb last first then err length_error else ok (take (last - first) (drop first text))

-- `state_ = …` and nothing else.
abbrev pub move : HttpRequestParaseState → Scan → Scan
move s p = record p { state = s }

-- A token ends at `end`: the text from `start` is put into the request, and the next begins behind.
unfoldable pub cut :
    Bytes → Scan → ℕ → HttpRequestParaseState → (Bytes → HttpRequest → HttpRequest) → Result Scan
cut text p end next put = slice text p.start end >>= λ token.
    ok (record p { state = next; request = put token p.request; start = end + 1 })

-- A pair ends at `end`: its key is the text from `start` to `colon`, its value the text from
-- `skip` bytes behind that.
unfoldable pub cut_pair :
    Bytes
    → Scan
    → ℕ
    → HttpRequestParaseState
    → ℕ
    → (Bytes → Bytes → HttpRequest → HttpRequest)
    → Result Scan
cut_pair text p end next skip put = slice text p.start p.colon >>= λ key.
    slice text (p.colon + skip) end >>= λ value.
    ok (record p { state = next; request = put key value p.request; start = end + 1 })
