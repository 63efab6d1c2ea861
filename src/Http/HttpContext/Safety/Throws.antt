-- ===== src/Http/HttpContext/Safety/Throws.antt =====
-- When `HttpContext::ParaseRequest` throws: only on a header whose colon is directly before CR.
use l.Base.{
  Bool, Bool-cases, Bytes, [], arith, bind-ok, false, if◌then◌else◌, inl, inr, isblank, ok, refl,
  true, ℕ, ◌++◌, ◌+◌, ◌<◌, ◌==◌, ◌||◌, ◌∷◌, ◌≡◌, ◌≢◌, ◌≤◌,
}
use l.Http.HttpRequest.{HttpRequest, add_header, set_request_params}
use l.Http.HttpContext.{
  HttpContext, HttpRequestParaseState, Scan, before_protocol, before_url, before_url_param_key,
  before_url_param_value, before_version, cr, cr_lf, cr_lf_cr, cut_pair, header_key, header_value,
  in_body, in_method, in_protocol, in_start, in_url, in_version, k_invalid, lf, url_param_key,
  url_param_value, when_cr,
}
use l.Http.HttpContext.Line.{on_before_url_param_value, on_url_param_value}
use l.Http.HttpContext.Head.{on_header_value}
use l.Http.HttpContext.Pieces.{scanning}
use l.Http.HttpContext.Safety.{
  Goes, Goes-ok, IsReady, Spaced, both, cut_pair-IsReady, has_colon, is_header_value, plain,
}
use l.Http.HttpContext.Parase.{is_accepted, is_final, parase_loop, parase_request_at, parase_step}
use l.Http.HttpContext.Safety.Steps.{
  before_key_step, before_protocol_step, before_url_step, before_version_step, body_step,
  cr_lf_cr_step, cr_lf_step, header_key_step, key_step, method_step, protocol_step, start_step,
  url_step, version_step, when_cr_step,
}

module _ (text : Bytes) (r : HttpRequest) (st k e ch : ℕ) (lk : st ≤ k) (le : k < e) where
  abbrev Good : Scan → Type 0
  Good q = IsReady q (e + 1) ch

  with_colon : (s : HttpRequestParaseState) → Good (scanning s r st k)
  with_colon s = record {
    start_behind = omega arith;
    colon_between = λ u. (lk, omega arith);
    colon_read = λ u v. absurd (omega arith);
  }

  invalid : Good (scanning k_invalid r st k)
  unfolding has_colon is_header_value
  invalid = plain k_invalid r st k e ch refl refl (omega arith)

  before_value_step : Good (on_before_url_param_value (scanning before_url_param_value r st k) ch)
  unfolding on_before_url_param_value
  before_value_step =
      both Good (isblank ch || ch == lf || ch == cr) (λ u. invalid)
        (λ u. with_colon url_param_value)

  param_value_tests : on_url_param_value text (scanning url_param_value r st k) e ch ≡ (
      if ch == b'&'
      then cut_pair text
          (scanning url_param_value r st k)
          e
          before_url_param_key
          1
          set_request_params
      else if isblank ch
      then cut_pair text (scanning url_param_value r st k) e before_protocol 1 set_request_params
      else ok (scanning url_param_value r st k))
  unfolding on_url_param_value
  param_value_tests = elim (Bool-cases (ch == b'&')) [
    | inl h ↦ let blank : isblank ch ≡ false = ground arith in rw (h, blank) (bind-ok _)
    | inr h ↦ rw h refl
  ]

  param_value_step : Goes Good (on_url_param_value text (scanning url_param_value r st k) e ch)
  unfolding has_colon is_header_value
  param_value_step = rw param_value_tests (
      both (Goes Good) (ch == b'&')
        (λ u.
          cut_pair-IsReady text (scanning url_param_value r st k) e before_url_param_key 1
            set_request_params ch refl refl lk (omega arith))
        (λ u.
          both (Goes Good) (isblank ch)
            (λ v.
              cut_pair-IsReady text (scanning url_param_value r st k) e before_protocol 1
                set_request_params ch refl refl lk (omega arith))
            (λ v. with_colon url_param_value)))

  room : (k + 1 ≡ e → ch ≢ cr) → (ch == cr) ≡ true → k + 2 ≤ e
  room n h = ground arith

  header_value_step :
      (k + 1 ≡ e → ch ≢ cr) → Goes Good (on_header_value text (scanning header_value r st k) e ch)
  unfolding on_header_value has_colon is_header_value
  header_value_step n =
      both (Goes Good) (isblank ch) (λ u. with_colon header_value)
        (λ u.
          both (Goes Good) (ch == cr)
            (λ v.
              cut_pair-IsReady text (scanning header_value r st k) e when_cr 2 add_header ch refl
                refl lk (room n v))
            (λ v. with_colon header_value))

step-IsReady :
    (s : HttpRequestParaseState) (text : Bytes) (r : HttpRequest) (st k e prev ch : ℕ)
    → IsReady (scanning s r st k) e prev
    → (prev ≡ b':' → ch ≢ cr)
    → Goes (λ q. IsReady q (e + 1) ch) (parase_step text (scanning s r st k) e ch)
unfolding parase_step has_colon is_header_value
step-IsReady in_start text r st k e prev ch h n = start_step text r st k e ch h.start_behind
step-IsReady in_method text r st k e prev ch h n = method_step text r st k e ch h.start_behind
step-IsReady before_url text r st k e prev ch h n = before_url_step text r st k e ch h.start_behind
step-IsReady in_url text r st k e prev ch h n = url_step text r st k e ch h.start_behind
step-IsReady before_url_param_key text r st k e prev ch h n =
    before_key_step text r st k e ch h.start_behind
step-IsReady url_param_key text r st k e prev ch h n = key_step text r st k e ch h.start_behind
step-IsReady before_url_param_value text r st k e prev ch h n =
    let (lk, le) = h.colon_between refl in before_value_step text r st k e ch lk le
step-IsReady url_param_value text r st k e prev ch h n =
    let (lk, le) = h.colon_between refl in param_value_step text r st k e ch lk le
step-IsReady before_protocol text r st k e prev ch h n =
    before_protocol_step text r st k e ch h.start_behind
step-IsReady in_protocol text r st k e prev ch h n = protocol_step text r st k e ch h.start_behind
step-IsReady before_version text r st k e prev ch h n =
    before_version_step text r st k e ch h.start_behind
step-IsReady in_version text r st k e prev ch h n = version_step text r st k e ch h.start_behind
step-IsReady header_key text r st k e prev ch h n = header_key_step text r st k e ch h.start_behind
step-IsReady header_value text r st k e prev ch h n =
    let (lk, le) = h.colon_between refl in
    header_value_step text r st k e ch lk le (λ here. n (h.colon_read refl here))
step-IsReady when_cr text r st k e prev ch h n = when_cr_step text r st k e ch h.start_behind
step-IsReady cr_lf text r st k e prev ch h n = cr_lf_step text r st k e ch h.start_behind
step-IsReady cr_lf_cr text r st k e prev ch h n = cr_lf_cr_step text r st k e ch h.start_behind
step-IsReady in_body text r st k e prev ch h n = body_step text r st k e ch h.start_behind
step-IsReady _ text r st k e prev ch h n =
    plain k_invalid r st k e ch refl refl (omega (arith, h.start_behind))

loop-IsReady :
    (text bytes : Bytes) (e prev : ℕ) (p : Scan)
    → IsReady p e prev
    → Spaced prev bytes
    → (q : Scan) × (parase_loop text bytes e p ≡ ok q)
unfolding parase_loop
loop-IsReady text [] e prev p h n = (p, refl)
loop-IsReady text (ch ∷ bytes) e prev p h (n, more) = elim (Bool-cases (is_final p.state)) [
  | inl f ↦ (p, rw f refl)
  | inr f ↦
      let (q, e1, h') =
        Goes-ok (λ x. IsReady x (e + 1) ch) (parase_step text p e ch)
          (step-IsReady p.state text p.request p.start p.colon e prev ch h n) in
      let (last, run) = loop-IsReady text bytes (e + 1) ch q h' more in (last, rw (f, e1) run)
]

-- A call on a context that is not inside a value throws nothing, whatever the text and the byte
-- behind it, if no CR stands directly behind a colon.
pub parase_request_at_returns :
    (c : HttpContext) (text : Bytes) (after : ℕ)
    → has_colon c.state ≡ false
    → Spaced 0 (text ++ after ∷ [])
    → (d : HttpContext) × (b : Bool) × (parase_request_at c text after ≡ ok (d, b))
unfolding parase_request_at
parase_request_at_returns c text after h s =
    let p = scanning c.state c.request 0 0 in
    let (q, run) =
      loop-IsReady text (text ++ after ∷ []) 0 0 p
        (record {
          start_behind = omega arith;
          colon_between = λ u. cc;
          colon_read = λ u v. absurd (omega arith);
        })
        s in
    (record { state = q.state; request = q.request }, is_accepted q.state, rw run refl)
