-- ===== src/Http/HttpContext/Tests.antt =====
-- The parser on concrete requests.
use l.Base.{
  Bool, Bytes, [], arith, atoi, codes, equal, err, false, inl, inr, length_error, less, not, ok,
  refl, true, ℕ, ◌&&◌, ◌++◌, ◌==◌, ◌∷◌, ◌≡◌,
}
use l.Http.StringMap.{assign, count, find}
use l.Http.HttpRequest.{HttpRequest, get_header, new_request, set_body}
use l.Http.HttpContext.{
  HttpContext, complete, k_invalid, cr, cut, cut_pair, in_body, new_context, slice,
}
use l.Http.HttpContext.Parase.{
  is_accepted, is_final, parase_loop, parase_request, parase_request_at, parase_step,
}
use l.Http.HttpContext.Pieces.{token}
use l.Http.HttpContext.Printed.{IsWellFormed, RequestText, request_said, request_text}
use l.Http.HttpContext.RoundTrip.Whole.{parase_request_at-request_text}
use l.Http.HttpContext.Safety.{Spaced, has_colon}
use l.Http.HttpContext.Safety.Throws.{parase_request_at_returns}
use l.Http.HttpContext.Bodies.{parase_request_at_short}
use l.Http.HttpContext.Line.{
  on_before_protocol, on_before_url, on_before_version, on_method, on_protocol, on_start, on_url,
  on_version,
}
use l.Http.HttpContext.Head.{on_cr_lf, on_header_key, on_header_value, on_when_cr}

abbrev search_text : RequestText
search_text = record {
  method_name = codes "POST";
  path = codes "/find";
  params = (codes "k", codes "v") ∷ (codes "a", codes "bc") ∷ [];
  protocol_name = codes "HTTP";
  version_name = codes "1.1";
  fields = (codes "Host", codes "x:80") ∷ (codes "Content-Length", codes "2") ∷ [];
  content = codes "hi";
}

printed :
    request_text search_text search_text.content
    ≡ codes "POST /find?k=v&a=bc HTTP/1.1\r\nHost: x:80\r\nContent-Length: 2\r\n\r\nhi"
unfolding request_text
printed = refl

search_text-IsWellFormed : IsWellFormed search_text
unfolding count get_header find equal atoi assign less
search_text-IsWellFormed = record {
  method_ok = token refl (refl, (refl, (refl, tt)));
  path_ok = token refl (refl, (refl, (refl, (refl, tt))));
  params_ok = ((token refl tt, token refl tt), ((token refl tt, token refl (refl, tt)), tt));
  protocol_ok = token refl (refl, (refl, (refl, tt)));
  version_ok = token refl (refl, (refl, tt));
  fields_ok = (
    (token refl (refl, (refl, (refl, tt))), (refl, (refl, (refl, (refl, tt))))),
    (
      (
        token refl (
          refl,
          (
            refl,
            (
              refl,
              (refl, (refl, (refl, (refl, (refl, (refl, (refl, (refl, (refl, (refl, tt)))))))))),
            ),
          ),
        ),
        (refl, tt),
      ),
      tt,
    ),
  );
  body_ok = inr (inl (refl, refl, refl));
}

parase_request_at-request_text_example :
    parase_request_at new_context (request_text search_text search_text.content) 0
    ≡ ok (record { state = complete; request = request_said search_text }, true)
parase_request_at-request_text_example =
    parase_request_at-request_text search_text 0 search_text-IsWellFormed

-- A header with nothing behind its colon throws.
-- The NUL behind a text is parsed too: a request that is cut inside its method is refused.
abbrev cut_context : HttpContext
cut_context = record new_context { state = k_invalid }

cut_request : parase_request new_context (codes "GE") ≡ ok (cut_context, false)
unfolding parase_request parase_loop parase_step is_final is_accepted on_start on_method
cut_request = refl

empty_value : parase_request new_context (codes "GET / HTTP/1.1\r\nA:\r\n\r\n") ≡ err length_error
unfolding parase_request parase_loop parase_step is_final on_start on_method on_before_url on_url
    on_before_protocol on_protocol on_before_version on_version on_when_cr on_cr_lf on_header_key
    on_header_value cut cut_pair slice
empty_value = refl

is_spaced : ℕ → Bytes → Bool
is_spaced prev [] = true
is_spaced prev (c ∷ cs) = not (prev == b':' && c == cr) && is_spaced c cs

is_spaced-Spaced : (prev : ℕ) (s : Bytes) → is_spaced prev s ≡ true → Spaced prev s
unfolding is_spaced
is_spaced-Spaced prev [] h = tt
is_spaced-Spaced prev (c ∷ s) h = (λ e. ground arith, is_spaced-Spaced c s (ground arith))

abbrev get_text : Bytes
get_text = codes "GET / HTTP/1.1\r\nHost: x\r\n\r\n"

no_colon : Spaced 0 (get_text ++ 0 ∷ [])
unfolding is_spaced
no_colon = is_spaced-Spaced 0 (get_text ++ 0 ∷ []) refl

parase_request_at_returns_example :
    (d : HttpContext) × (b : Bool) × (parase_request_at new_context get_text 0 ≡ ok (d, b))
unfolding has_colon
parase_request_at_returns_example = parase_request_at_returns new_context get_text 0 refl no_colon

abbrev waiting : HttpRequest
waiting = record new_request { headers = (codes "Content-Length", codes "5") ∷ [] }

parase_request_at_short_example :
    parase_request_at (record { state = in_body; request = waiting }) (codes "abc") 0
    ≡ ok (record { state = in_body; request = set_body [] waiting }, true)
unfolding get_header find equal atoi
parase_request_at_short_example = parase_request_at_short waiting (codes "abc") 0 refl
