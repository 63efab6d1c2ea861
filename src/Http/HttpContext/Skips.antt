-- ===== src/Http/HttpContext/Skips.antt =====
-- The bytes over which the parser of `HttpContext::ParaseRequest` stays in its state.
use l.Base.{
  All, Bool, Bytes, [], ap, arith, false, isblank, isdigit, isupper, length, not, ok, refl, true, ℕ,
  ◌++◌, ◌+◌, ◌==◌, ◌||◌, ◌∙◌, ◌∷◌, ◌≡◌,
}
use l.Http.HttpContext.{
  HttpRequestParaseState, Scan, complete, cr, header_key, header_value, in_method, in_protocol,
  in_url, in_version, k_invalid, move, url_param_key, url_param_value,
}
use l.Http.HttpContext.Line.{
  on_method, on_protocol, on_url, on_url_param_key, on_url_param_value, on_version,
}
use l.Http.HttpContext.Head.{on_header_key, on_header_value}
use l.Http.HttpContext.Parase.{is_final, parase_loop, parase_step}

-- Is this byte of a token passed over in this state?
abbrev pub skips : HttpRequestParaseState → ℕ → Bool
skips in_method c = isupper c
skips in_url c = not (c == b'?' || isblank c)
skips url_param_key c = not (c == b'=' || isblank c)
skips url_param_value c = not (c == b'&' || isblank c)
skips in_protocol c = not (c == b'/')
skips in_version c = isdigit c || c == b'.'
skips header_key c = not (c == b':')
skips header_value c = not (c == cr)
skips _ c = false

step-skips :
    (s : HttpRequestParaseState) (text : Bytes) (p : Scan) (end c : ℕ)
    → skips s c ≡ true
    → parase_step text (move s p) end c ≡ ok (move s p)
unfolding parase_step on_method on_url on_url_param_key on_url_param_value on_protocol on_version
    on_header_key on_header_value
step-skips in_method text p end c h = ground arith
step-skips in_url text p end c h = ground arith
step-skips url_param_key text p end c h = ground arith
step-skips url_param_value text p end c h = ground arith
step-skips in_protocol text p end c h = ground arith
step-skips in_version text p end c h = ground arith
step-skips header_key text p end c h = ground arith
step-skips header_value text p end c h = ground arith
step-skips _ text p end c h = ground arith

skips-is_final : (s : HttpRequestParaseState) (c : ℕ) → skips s c ≡ true → is_final s ≡ false
unfolding is_final
skips-is_final k_invalid c h = ground arith
skips-is_final complete c h = ground arith
skips-is_final _ c h = refl

-- The loop passes over the bytes of a token, and only `end` moves.
pub loop-skips :
    (s : HttpRequestParaseState) (text token rest : Bytes) (end : ℕ) (p : Scan)
    → All (λ c. skips s c ≡ true) token
    → parase_loop text (token ++ rest) end (move s p)
      ≡ parase_loop text rest (end + length token) (move s p)
unfolding parase_loop
loop-skips s text [] rest end p h = ap (λ n. parase_loop text rest n (move s p)) (omega arith)
loop-skips s text (c ∷ cs) rest end p (h, hs) =
    rw (skips-is_final s c h, step-skips s text p end c h)
      (loop-skips s text cs rest (end + 1) p hs
        ∙ ap (λ n. parase_loop text rest n (move s p)) (omega arith))
