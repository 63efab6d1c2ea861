-- ===== src/Http/HttpContext/RoundTrip.antt =====
-- The parser over a whole request head: each part lemma says where the loop is behind that part.
pub mod Whole
use l.Base.{
  All, Bytes, Result, [], arith, bind-ok, isblank, isdigit, isupper, length, not, refl, ℕ, ◌++◌,
  ◌+◌, ◌==◌, ◌∙◌, ◌∷◌, ◌≡◌,
}
use l.Http.HttpRequest.{
  HttpRequest, add_header, method_named, new_request, set_method, set_protocol, set_request_params,
  set_url, set_version,
}
use l.Http.StringMap.{StringMap}
use l.Http.HttpContext.{
  HttpRequestParaseState, Scan, before_protocol, before_url, before_url_param_key, before_version,
  cr, cr_lf, cut, cut_pair, in_method, in_protocol, in_start, in_url, in_version, lf, when_cr,
}
use l.Http.HttpContext.Line.{
  on_before_protocol, on_before_url, on_before_version, on_method, on_protocol, on_start, on_url,
  on_url_param_value, on_version,
}
use l.Http.HttpContext.Parase.{is_final, parase_loop, parase_step}
use l.Http.HttpContext.Pieces.{
  At, At-append, At-behind, IsToken, behind, loop_step, loop_token, scanning,
}
use l.Http.HttpContext.Pairs.{loop_param}
use l.Http.HttpContext.Printed.{
  IsField, IsParam, RequestText, assigned, fields_text, params_text, query_text,
}
use l.Http.HttpContext.HeaderLine.{At-value, leave_cr, loop_header, value_at}

-- The loop comes to `rest` in state `s` with request `r`, where the text reads `more`.
abbrev pub Comes :
    Bytes → Result Scan → Bytes → Bytes → HttpRequestParaseState → HttpRequest → Type 0
Comes text run rest more s r =
    (f : ℕ) × (k : ℕ) × At text f more × (run ≡ parase_loop text rest f (scanning s r f k))

method_part :
    (t : RequestText) (text rest more : Bytes)
    → IsToken isupper in_method t.method_name
    → At text 0 (t.method_name ++ b' ' ∷ more)
    → Comes text
        (parase_loop text (t.method_name ++ b' ' ∷ rest) 0 (scanning in_start new_request 0 0))
        rest
        more
        before_url
        (record new_request { method = method_named t.method_name })
unfolding is_final parase_step on_method set_method on_start
method_part t text rest more h a = (
  behind 0 t.method_name,
  0,
  At-behind text 0 b' ' t.method_name more a,
  loop_token in_start in_method before_url (λ name r. (set_method name r).0) text rest more b' ' 0 0
      new_request refl (λ c u. ground arith) refl (λ n. refl) h a,
)

path_part :
    {path : Bytes} (next : HttpRequestParaseState) (text rest more : Bytes) (d e k : ℕ)
    (r : HttpRequest)
    → ((p : Scan) (n : ℕ) → on_url text p n d ≡ cut text p n next set_url)
    → IsToken (λ c. c == b'/') in_url path
    → At text e (path ++ d ∷ more)
    → Comes text
        (parase_loop text (path ++ d ∷ rest) e (scanning before_url r e k))
        rest
        more
        next
        (set_url path r)
unfolding is_final parase_step on_before_url
path_part {path} next text rest more d e k r leave h a = (
  behind e path,
  k,
  At-behind text e d path more a,
  loop_token before_url in_url next set_url text rest more d e k r refl (λ c u. ground arith) refl
      (leave (scanning in_url r e k)) h a,
)

param_then_param :
    (text : Bytes) (p : Scan) (n : ℕ)
    → on_url_param_value text p n b'&' ≡ cut_pair text p n before_url_param_key 1 set_request_params
unfolding on_url_param_value
param_then_param text p n = bind-ok (cut_pair text p n before_url_param_key 1 set_request_params)

params_part :
    (key value : Bytes) (m : StringMap) (text rest more : Bytes) (e k : ℕ) (r : HttpRequest)
    → All IsParam ((key, value) ∷ m)
    → At text e (params_text key value m more)
    → Comes text
        (parase_loop text (params_text key value m rest) e (scanning before_url_param_key r e k))
        rest
        more
        before_protocol
        (record r { request_params = assigned r.request_params ((key, value) ∷ m) })
params_part key value [] text rest more e k r ((tk, tv), _) a = (
  behind (behind e key) value,
  e + length key,
  At-behind text (behind e key) b' ' value more
      (At-behind text e b'=' key (value ++ b' ' ∷ more) a),
  loop_param before_protocol text rest more b' ' e k r (λ p n. unfold on_url_param_value in refl) tk
      tv a,
)
params_part key value ((k2, v2) ∷ m) text rest more e k r ((tk, tv), hs) a =
    let f = behind (behind e key) value in
    let more' = params_text k2 v2 m more in
    let first =
      loop_param before_url_param_key text (params_text k2 v2 m rest) more' b'&' e k r
        (param_then_param text) tk tv a in
    let (g, c, h, run) =
      params_part k2 v2 m text rest more f (e + length key) (set_request_params key value r) hs (
        At-behind text (behind e key) b'&' value more'
          (At-behind text e b'=' key (value ++ b'&' ∷ more') a)) in
    (g, c, h, first ∙ run)

query_part :
    (path : Bytes) (params : StringMap) (text rest more : Bytes) (e k : ℕ) (r : HttpRequest)
    → IsToken (λ c. c == b'/') in_url path
    → All IsParam params
    → At text e (path ++ query_text params more)
    → Comes text
        (parase_loop text (path ++ query_text params rest) e (scanning before_url r e k))
        rest
        more
        before_protocol
        (record r { url = path; request_params = assigned r.request_params params })
query_part path [] text rest more e k r hp hs a =
    path_part before_protocol text rest more b' ' e k r (λ p n. unfold on_url in refl) hp a
query_part path ((key, value) ∷ m) text rest more e k r hp hs a =
    let (f, c, h, run) =
      path_part before_url_param_key text (params_text key value m rest)
        (params_text key value m more) b'?' e k r (λ p n. unfold on_url in refl) hp a in
    let (g, c', h', run') = params_part key value m text rest more f c (set_url path r) hs h in
    (g, c', h', run ∙ run')

protocol_part :
    {name : Bytes} (text rest more : Bytes) (e k : ℕ) (r : HttpRequest)
    → IsToken (λ c. not (isblank c)) in_protocol name
    → At text e (name ++ b'/' ∷ more)
    → Comes text
        (parase_loop text (name ++ b'/' ∷ rest) e (scanning before_protocol r e k))
        rest
        more
        before_version
        (set_protocol name r)
unfolding is_final parase_step on_before_protocol on_protocol
protocol_part {name} text rest more e k r h a = (
  behind e name,
  k,
  At-behind text e b'/' name more a,
  loop_token before_protocol in_protocol before_version set_protocol text rest more b'/' e k r refl
      (λ c u. ground arith) refl (λ n. refl) h a,
)

version_part :
    {name : Bytes} (text rest more : Bytes) (e k : ℕ) (r : HttpRequest)
    → IsToken isdigit in_version name
    → At text e (name ++ cr ∷ lf ∷ more)
    → Comes text
        (parase_loop text (name ++ cr ∷ lf ∷ rest) e (scanning before_version r e k))
        rest
        more
        cr_lf
        (set_version name r)
unfolding is_final parase_step on_before_version on_version
version_part {name} text rest more e k r h a = (
  behind e name + 1,
  k,
  At-append text (behind e name) (lf ∷ []) more (At-behind text e cr name (lf ∷ more) a),
  loop_token before_version in_version when_cr set_version text (lf ∷ rest) (lf ∷ more) cr e k r
        refl (λ c u. ground arith) refl (λ n. refl) h a
      ∙ loop_step text rest (behind e name) lf
          (scanning when_cr (set_version name r) (behind e name) k)
          (scanning cr_lf (set_version name r) (behind e name + 1) k) refl
          (leave_cr text (set_version name r) (behind e name) k (behind e name)),
)

fields_part :
    (m : StringMap) (text rest more : Bytes) (e k : ℕ) (r : HttpRequest)
    → All IsField m
    → At text e (fields_text m more)
    → Comes text
        (parase_loop text (fields_text m rest) e (scanning cr_lf r e k))
        rest
        more
        cr_lf
        (record r { headers = assigned r.headers m })
fields_part [] text rest more e k r hs a = (e, k, a, refl)
fields_part ((field, value) ∷ m) text rest more e k r ((tf, tv), hs) a =
    let more' = fields_text m more in
    let first = loop_header text value (fields_text m rest) more' e k r tf tv a in
    let f = behind (value_at e field) value in
    let (g, c, h, run) =
      fields_part m text rest more (f + 1) (e + length field) (add_header field value r) hs (
        At-append text f (lf ∷ []) more' (
          At-behind text (value_at e field) cr value (lf ∷ more')
            (At-value field value text (lf ∷ more') e a))) in
    (g, c, h, first ∙ run)
