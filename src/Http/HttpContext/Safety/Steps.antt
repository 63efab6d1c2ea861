-- ===== src/Http/HttpContext/Safety/Steps.antt =====
-- Each case of the switch keeps the pointers in order, from a state in which there is no colon.
use l.Base.{
  Bytes, arith, atoi, false, if◌then◌else◌, isblank, isdigit, isupper, length, refl, true, ℕ, ◌+◌,
  ◌-◌, ◌==◌, ◌||◌, ◌≡◌, ◌≤◌,
}
use l.Http.HttpRequest.{HttpRequest, get_header, set_body, set_protocol, set_url, set_version}
use l.Http.HttpContext.{
  HttpRequestParaseState, Scan, before_protocol, before_url, before_url_param_key,
  before_url_param_value, before_version, complete, cr, cr_lf, cr_lf_cr, cut, header_key,
  header_value, in_body, in_method, in_protocol, in_start, in_url, in_version, k_invalid, lf,
  url_param_key, when_cr,
}
use l.Http.HttpContext.Line.{
  on_before_protocol, on_before_url, on_before_url_param_key, on_before_version, on_method,
  on_protocol, on_start, on_url, on_url_param_key, on_version,
}
use l.Http.HttpContext.Head.{
  after_head, at_least, content_length, on_body, on_cr_lf, on_cr_lf_cr, on_header_key, on_when_cr,
}
use l.Http.HttpContext.Pieces.{scanning}
use l.Http.HttpContext.Safety.{
  Goes, IsReady, both, cut-IsReady, has_colon, is_header_value, plain, slice_ok,
}

module _ (text : Bytes) (r : HttpRequest) (st k e ch : ℕ) (l : st ≤ e) where
  abbrev pub Ready : Scan → Type 0
  Ready q = IsReady q (e + 1) ch

  stay :
      (s : HttpRequestParaseState)
      → has_colon s ≡ false
      → is_header_value s ≡ false
      → Ready (scanning s r st k)
  stay s h h' = plain s r st k e ch h h' (omega arith)

  -- A token is cut in state `s`.
  cuts :
      (s next : HttpRequestParaseState) (put : Bytes → HttpRequest → HttpRequest)
      → has_colon next ≡ false
      → is_header_value next ≡ false
      → Goes Ready (cut text (scanning s r st k) e next put)
  cuts s next put h h' = cut-IsReady text (scanning s r st k) e next put ch h h' l

  pub start_step : Ready (on_start (scanning in_start r st k) ch)
  unfolding on_start has_colon is_header_value
  start_step =
      both Ready (ch == cr || ch == lf || isblank ch) (λ u. stay in_start refl refl)
        (λ u.
          both Ready (isupper ch) (λ v. stay in_method refl refl) (λ v. stay k_invalid refl refl))

  pub method_step : Goes Ready (on_method text (scanning in_method r st k) e ch)
  unfolding on_method has_colon is_header_value
  method_step =
      both (Goes Ready) (isupper ch) (λ u. stay in_method refl refl)
        (λ u.
          both (Goes Ready) (isblank ch) (λ v. cuts in_method before_url _ refl refl)
            (λ v. stay k_invalid refl refl))

  pub before_url_step : Ready (on_before_url (scanning before_url r st k) ch)
  unfolding on_before_url has_colon is_header_value
  before_url_step =
      both Ready (ch == b'/') (λ u. stay in_url refl refl)
        (λ u.
          both Ready (isblank ch) (λ v. stay before_url refl refl) (λ v. stay k_invalid refl refl))

  pub url_step : Goes Ready (on_url text (scanning in_url r st k) e ch)
  unfolding on_url has_colon is_header_value
  url_step =
      both (Goes Ready) (ch == b'?') (λ u. cuts in_url before_url_param_key set_url refl refl)
        (λ u.
          both (Goes Ready) (isblank ch) (λ v. cuts in_url before_protocol set_url refl refl)
            (λ v. stay in_url refl refl))

  pub before_key_step : Ready (on_before_url_param_key (scanning before_url_param_key r st k) ch)
  unfolding on_before_url_param_key has_colon is_header_value
  before_key_step =
      both Ready (isblank ch || ch == cr || ch == lf) (λ u. stay k_invalid refl refl)
        (λ u. stay url_param_key refl refl)

  -- The colon is the byte just read.
  colon_here :
      (s : HttpRequestParaseState)
      → (is_header_value s ≡ true → ch ≡ b':')
      → Ready (scanning s r st e)
  colon_here s is_colon = record {
    start_behind = omega arith;
    colon_between = λ u. (l, omega arith);
    colon_read = λ u v. is_colon u;
  }

  pub key_step : Ready (on_url_param_key (scanning url_param_key r st k) e ch)
  unfolding on_url_param_key has_colon is_header_value
  key_step =
      both Ready (ch == b'=') (λ u. colon_here before_url_param_value (λ v. cc))
        (λ u.
          both Ready (isblank ch) (λ v. stay k_invalid refl refl)
            (λ v. stay url_param_key refl refl))

  pub before_protocol_step : Ready (on_before_protocol (scanning before_protocol r st k) ch)
  unfolding on_before_protocol has_colon is_header_value
  before_protocol_step =
      both Ready (isblank ch) (λ u. stay before_protocol refl refl)
        (λ u. stay in_protocol refl refl)

  pub protocol_step : Goes Ready (on_protocol text (scanning in_protocol r st k) e ch)
  unfolding on_protocol has_colon is_header_value
  protocol_step =
      both (Goes Ready) (ch == b'/') (λ u. cuts in_protocol before_version set_protocol refl refl)
        (λ u. stay in_protocol refl refl)

  pub before_version_step : Ready (on_before_version (scanning before_version r st k) ch)
  unfolding on_before_version has_colon is_header_value
  before_version_step =
      both Ready (isdigit ch) (λ u. stay in_version refl refl) (λ u. stay k_invalid refl refl)

  pub version_step : Goes Ready (on_version text (scanning in_version r st k) e ch)
  unfolding on_version has_colon is_header_value
  version_step =
      both (Goes Ready) (ch == cr) (λ u. cuts in_version when_cr set_version refl refl)
        (λ u.
          both (Goes Ready) (isdigit ch || ch == b'.') (λ v. stay in_version refl refl)
            (λ v. stay k_invalid refl refl))

  pub header_key_step : Ready (on_header_key (scanning header_key r st k) e ch)
  unfolding on_header_key has_colon is_header_value
  header_key_step =
      both Ready (ch == b':') (λ u. colon_here header_value (λ v. ground arith))
        (λ u. stay header_key refl refl)

  pub when_cr_step : Ready (on_when_cr (scanning when_cr r st k) e ch)
  unfolding on_when_cr has_colon is_header_value
  when_cr_step =
      both Ready (ch == lf) (λ u. plain cr_lf r (e + 1) k e ch refl refl (omega arith))
        (λ u. stay k_invalid refl refl)

  pub cr_lf_step : Ready (on_cr_lf (scanning cr_lf r st k) ch)
  unfolding on_cr_lf has_colon is_header_value
  cr_lf_step =
      both Ready (ch == cr) (λ u. stay cr_lf_cr refl refl)
        (λ u.
          both Ready (isblank ch) (λ v. stay k_invalid refl refl) (λ v. stay header_key refl refl))

  pub cr_lf_cr_step : Ready (on_cr_lf_cr text (scanning cr_lf_cr r st k) e ch)
  unfolding on_cr_lf_cr has_colon is_header_value
  cr_lf_cr_step =
      both Ready (ch == lf)
        (λ u.
          plain (after_head text r e) r (e + 1) k e ch (ground arith) (ground arith) (omega arith))
        (λ u. stay k_invalid refl refl)

  pub body_step : Goes Ready (on_body text (scanning in_body r st k) e)
  unfolding on_body has_colon is_header_value
  body_step =
      let (body, read) = slice_ok text st (st + (length text - e)) (omega arith) in
      rw read (
        plain
          (if at_least (length text - e) (atoi (get_header content_length (set_body body r)))
            then complete
            else in_body)
          (set_body body r) st k e ch (ground arith) (ground arith) (omega arith))
