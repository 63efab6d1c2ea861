-- ===== src/Http/HttpContext/Pairs.antt =====
-- What `HttpContext::ParaseRequest` does with one URL parameter.
use l.Base.{
  Bool, Bytes, ap, arith, false, isblank, length, not, ok, refl, true, ℕ, ◌++◌, ◌+◌, ◌==◌, ◌||◌,
  ◌∙◌, ◌∷◌, ◌≡◌,
}
use l.Http.HttpRequest.{HttpRequest, set_request_params}
use l.Http.HttpContext.{
  HttpRequestParaseState, Scan, before_url_param_key, before_url_param_value, cr, cut_pair, lf,
  move, url_param_key, url_param_value,
}
use l.Http.HttpContext.Line.{
  on_before_url_param_key, on_before_url_param_value, on_url_param_key, on_url_param_value,
}
use l.Http.HttpContext.Parase.{is_final, parase_loop, parase_step}
use l.Http.HttpContext.Skips.{loop-skips}
use l.Http.HttpContext.Pieces.{At, At-behind, IsToken, behind, loop_step, scanning, slice-At, token}

-- What a key or a value of the URL may begin with.
abbrev pub begins_param : ℕ → Bool
begins_param c = not (isblank c || c == cr || c == lf)

pub cut_pair-At :
    (text : Bytes) (p : Scan) (f skip : ℕ) (next : HttpRequestParaseState)
    (put : Bytes → Bytes → HttpRequest → HttpRequest) (key value more more' : Bytes)
    → At text p.start (key ++ more)
    → p.start + length key ≡ p.colon
    → At text (p.colon + skip) (value ++ more')
    → p.colon + skip + length value ≡ f
    → cut_pair text p f next skip put
      ≡ ok (record p { state = next; request = put key value p.request; start = f + 1 })
unfolding cut_pair
cut_pair-At text p f skip next put key value more more' hk lk hv lv =
    rw
      (
        slice-At text p.start p.colon key more hk lk,
        slice-At text (p.colon + skip) f value more' hv lv,
      )
      refl

enter_key :
    (text : Bytes) (r : HttpRequest) (e k c : ℕ)
    → begins_param c ≡ true
    → parase_step text (scanning before_url_param_key r e k) e c ≡ ok (scanning url_param_key r e k)
unfolding parase_step on_before_url_param_key
enter_key text r e k c h = ground arith

enter_value :
    (text : Bytes) (r : HttpRequest) (e n k c : ℕ)
    → begins_param c ≡ true
    → parase_step text (scanning before_url_param_value r e k) n c
      ≡ ok (scanning url_param_value r e k)
unfolding parase_step on_before_url_param_value
enter_value text r e n k c h = ground arith

-- The parser, from the beginning of a token to its delimiter.
pub loop_inside :
    {first : ℕ → Bool} {piece : Bytes} (s : HttpRequestParaseState) (text rest : Bytes) (e : ℕ)
    (p : Scan)
    → is_final p.state ≡ false
    → ((c : ℕ) → first c ≡ true → parase_step text p e c ≡ ok (move s p))
    → IsToken first s piece
    → parase_loop text (piece ++ rest) e p ≡ parase_loop text rest (e + length piece) (move s p)
loop_inside s text rest e p f enter (token {c} {cs} hc hcs) =
    loop_step text (cs ++ rest) e c p (move s p) f (enter c hc)
    ∙ loop-skips s text cs rest (e + 1) p hcs
    ∙ ap (λ n. parase_loop text rest n (move s p)) (omega arith)

leave_key :
    (text : Bytes) (r : HttpRequest) (e k n : ℕ)
    → parase_step text (scanning url_param_key r e k) n b'='
      ≡ ok (scanning before_url_param_value r e n)
unfolding parase_step on_url_param_key
leave_key text r e k n = refl

leave_value :
    (key value : Bytes) (next : HttpRequestParaseState) (text more : Bytes) (d e : ℕ)
    (r : HttpRequest)
    → ((p : Scan) (n : ℕ)
        → on_url_param_value text p n d ≡ cut_pair text p n next 1 set_request_params)
    → At text e (key ++ b'=' ∷ (value ++ d ∷ more))
    → parase_step text
        (scanning url_param_value r e (e + length key))
        (behind e key + length value)
        d
      ≡ ok (
          scanning next
            (set_request_params key value r)
            (behind (behind e key) value)
            (e + length key))
unfolding parase_step
leave_value key value next text more d e r leave h =
    let inside = scanning url_param_value r e (e + length key) in
    let n = behind e key + length value in
    leave inside n
    ∙ cut_pair-At text inside n 1 next set_request_params key value (b'=' ∷ (value ++ d ∷ more))
        (d ∷ more) h refl (At-behind text e b'=' key (value ++ d ∷ more) h) refl

loop_key :
    {key : Bytes} (text rest : Bytes) (e k : ℕ) (r : HttpRequest)
    → IsToken begins_param url_param_key key
    → parase_loop text (key ++ b'=' ∷ rest) e (scanning before_url_param_key r e k)
      ≡ parase_loop text rest (behind e key) (scanning before_url_param_value r e (e + length key))
unfolding is_final
loop_key {key} text rest e k r t =
    loop_inside url_param_key text (b'=' ∷ rest) e (scanning before_url_param_key r e k) refl
      (enter_key text r e k) t
    ∙ loop_step text rest (e + length key) b'=' (scanning url_param_key r e k)
        (scanning before_url_param_value r e (e + length key)) refl
        (leave_key text r e k (e + length key))

-- A parameter, and the delimiter that says what comes next.
pub loop_param :
    {key value : Bytes} (next : HttpRequestParaseState) (text rest more : Bytes) (d e k : ℕ)
    (r : HttpRequest)
    → ((p : Scan) (n : ℕ)
        → on_url_param_value text p n d ≡ cut_pair text p n next 1 set_request_params)
    → IsToken begins_param url_param_key key
    → IsToken begins_param url_param_value value
    → At text e (key ++ b'=' ∷ (value ++ d ∷ more))
    → parase_loop text (key ++ b'=' ∷ (value ++ d ∷ rest)) e (scanning before_url_param_key r e k)
      ≡ parase_loop text rest (behind (behind e key) value) (
          scanning next
            (set_request_params key value r)
            (behind (behind e key) value)
            (e + length key))
unfolding is_final
loop_param {key} {value} next text rest more d e k r leave tk tv h =
    let col = e + length key in
    loop_key text (value ++ d ∷ rest) e k r tk
    ∙ loop_inside url_param_value text (d ∷ rest) (behind e key)
        (scanning before_url_param_value r e col) refl (enter_value text r e (behind e key) col) tv
    ∙ loop_step text rest (behind e key + length value) d (scanning url_param_value r e col)
        (scanning next (set_request_params key value r) (behind (behind e key) value) col) refl
        (leave_value key value next text more d e r leave h)
