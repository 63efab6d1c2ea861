-- ===== src/Http/HttpContext/Safety.antt =====
-- When `HttpContext::ParaseRequest` throws: only on a header whose colon is directly before CR.
pub mod Steps
pub mod Throws
use l.Base.{
  Bool, Bytes, Result, [], arith, drop, err, false, if◌then◌else◌, le→ltb_false, ok, refl, take,
  true, ℕ, ◌+◌, ◌-◌, ◌<◌, ◌∷◌, ◌≡◌, ◌≢◌, ◌≤◌,
}
use l.Http.HttpRequest.{HttpRequest}
use l.Http.HttpContext.{
  HttpRequestParaseState, Scan, before_url_param_value, cr, cut, cut_pair, header_value, slice,
  url_param_value,
}
use l.Http.HttpContext.Pieces.{scanning}

-- No CR stands directly behind a colon; `prev` is the byte before the text.
abbrev pub Spaced : ℕ → Bytes → Type 0
Spaced prev [] = Unit
Spaced prev (c ∷ cs) = (prev ≡ b':' → c ≢ cr) × Spaced c cs

-- The states in which `colon` is the place of the colon.
unfoldable pub has_colon : HttpRequestParaseState → Bool
has_colon before_url_param_value = true
has_colon url_param_value = true
has_colon header_value = true
has_colon _ = false

unfoldable pub is_header_value : HttpRequestParaseState → Bool
is_header_value header_value = true
is_header_value _ = false

-- The pointers are in order, and a colon just read is the byte before `end`.
pub record IsReady (p : Scan) (e prev : ℕ) : Type 0 where
  pub start_behind : p.start ≤ e
  pub colon_between : has_colon p.state ≡ true → (p.start ≤ p.colon) × (p.colon < e)
  pub colon_read : is_header_value p.state ≡ true → p.colon + 1 ≡ e → prev ≡ b':'

abbrev pub Goes : (Scan → Type 0) → Result Scan → Type 0
Goes P (ok q) = P q
Goes P (err thrown) = ⊥

pub slice_ok :
    (text : Bytes) (first last : ℕ) → first ≤ last → (t : Bytes) × (slice text first last ≡ ok t)
unfolding slice
slice_ok text first last h =
    (take (last - first) (drop first text), rw (le→ltb_false last first h) refl)

pub cut-IsReady :
    (text : Bytes) (p : Scan) (e : ℕ) (next : HttpRequestParaseState)
    (put : Bytes → HttpRequest → HttpRequest) (ch : ℕ)
    → has_colon next ≡ false
    → is_header_value next ≡ false
    → p.start ≤ e
    → Goes (λ q. IsReady q (e + 1) ch) (cut text p e next put)
unfolding cut
cut-IsReady text p e next put ch h h' l =
    let (t, s) = slice_ok text p.start e l in
    rw s (record { start_behind = omega arith; colon_between = λ u. cc; colon_read = λ u v. cc })

pub cut_pair-IsReady :
    (text : Bytes) (p : Scan) (e : ℕ) (next : HttpRequestParaseState) (skip : ℕ)
    (put : Bytes → Bytes → HttpRequest → HttpRequest) (ch : ℕ)
    → has_colon next ≡ false
    → is_header_value next ≡ false
    → p.start ≤ p.colon
    → p.colon + skip ≤ e
    → Goes (λ q. IsReady q (e + 1) ch) (cut_pair text p e next skip put)
unfolding cut_pair
cut_pair-IsReady text p e next skip put ch h h' l m =
    let (t, s) = slice_ok text p.start p.colon l in
    let (t', s') = slice_ok text (p.colon + skip) e m in
    rw (s, s')
      (record { start_behind = omega arith; colon_between = λ u. cc; colon_read = λ u v. cc })

-- A property of both branches.
pub both {ℓ κ} :
    {A : Type ℓ} (P : A → Type κ) (b : Bool) {x y : A}
    → (b ≡ true → P x)
    → (b ≡ false → P y)
    → P (if b then x else y)
both P true hx hy = hx refl
both P false hx hy = hy refl

-- In a state without a colon only the order of `start` and `end` matters.
pub plain :
    (s : HttpRequestParaseState) (r : HttpRequest) (st k e ch : ℕ)
    → has_colon s ≡ false
    → is_header_value s ≡ false
    → st ≤ e + 1
    → IsReady (scanning s r st k) (e + 1) ch
plain s r st k e ch h h' l = record {
  start_behind = omega arith;
  colon_between = λ u. cc;
  colon_read = λ u v. cc;
}

pub Goes-ok : (P : Scan → Type 0) (res : Result Scan) → Goes P res → (q : Scan) × (res ≡ ok q) × P q
Goes-ok P (ok q) h = (q, refl, h)
Goes-ok P (err thrown) h = absurd h
