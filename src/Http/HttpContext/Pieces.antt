-- ===== src/Http/HttpContext/Pieces.antt =====
-- What `HttpContext::ParaseRequest` does with one token and the byte that ends it, wherever they
-- stand in the text.
use l.Base.{
  All, Bool, Bytes, ap, arith, drop, drop-append_length, drop-drop, false, length, le→ltb_false, ok,
  refl, sym, take, take-append_length, true, ℕ, ◌++◌, ◌+◌, ◌∙◌, ◌∷◌, ◌≡◌,
}
use l.Http.HttpRequest.{HttpRequest}
use l.Http.HttpContext.{HttpRequestParaseState, Scan, cut, slice}
use l.Http.HttpContext.Parase.{is_final, parase_loop, parase_step}
use l.Http.HttpContext.Skips.{loop-skips, skips}

-- From offset `e` on, the text reads `rest`.
abbrev pub At : Bytes → ℕ → Bytes → Type 0
At text e rest = drop e text ≡ rest

-- The loop's state at the beginning of a token.
abbrev pub scanning : HttpRequestParaseState → HttpRequest → ℕ → ℕ → Scan
scanning s r e k = record { state = s; request = r; start = e; colon = k }

-- A token that begins with a byte of `first` and goes on over what the state passes over.
pub data IsToken (first : ℕ → Bool) (s : HttpRequestParaseState) : Bytes → Type 0 where
  token :
      {c : ℕ} {cs : Bytes}
      → first c ≡ true
      → All (λ c. skips s c ≡ true) cs
      → IsToken first s (c ∷ cs)

pub At-append :
    (text : Bytes) (e : ℕ) (piece rest : Bytes)
    → At text e (piece ++ rest)
    → At text (e + length piece) rest
At-append text e piece rest h =
    sym (drop-drop (length piece) e text)
    ∙ ap (drop (length piece)) h
    ∙ drop-append_length (length piece) piece rest refl

pub slice-At :
    (text : Bytes) (e f : ℕ) (piece rest : Bytes)
    → At text e (piece ++ rest)
    → e + length piece ≡ f
    → slice text e f ≡ ok piece
unfolding slice
slice-At text e f piece rest h l = rw (le→ltb_false f e (omega arith)) (
    ap ok (
      ap (λ n. take n (drop e text)) {y = length piece} (omega arith)
      ∙ ap (take (length piece)) h
      ∙ take-append_length (length piece) piece rest refl))

pub cut-At :
    (text : Bytes) (p : Scan) (f : ℕ) (next : HttpRequestParaseState)
    (put : Bytes → HttpRequest → HttpRequest) (piece rest : Bytes)
    → At text p.start (piece ++ rest)
    → p.start + length piece ≡ f
    → cut text p f next put
      ≡ ok (record p { state = next; request = put piece p.request; start = f + 1 })
unfolding cut
cut-At text p f next put piece rest h l = rw (slice-At text p.start f piece rest h l) refl

-- Where the loop is behind a token and its delimiter.
abbrev pub behind : ℕ → Bytes → ℕ
behind e piece = e + length piece + 1

pub At-behind :
    (text : Bytes) (e d : ℕ) (piece rest : Bytes)
    → At text e (piece ++ d ∷ rest)
    → At text (behind e piece) rest
At-behind text e d piece rest h =
    sym (drop-drop 1 (e + length piece) text) ∙ ap (drop 1) (At-append text e piece (d ∷ rest) h)

-- One round of the loop.
pub loop_step :
    (text rest : Bytes) (e c : ℕ) (p q : Scan)
    → is_final p.state ≡ false
    → parase_step text p e c ≡ ok q
    → parase_loop text (c ∷ rest) e p ≡ parase_loop text rest (e + 1) q
unfolding parase_loop
loop_step text rest e c p q f h = rw (f, h) refl

-- A token that begins in state `before`, is read in state `s` and is cut at the delimiter.
pub loop_token :
    {first : ℕ → Bool} {piece : Bytes} (before s next : HttpRequestParaseState)
    (put : Bytes → HttpRequest → HttpRequest) (text rest more : Bytes) (d e k : ℕ) (r : HttpRequest)
    → is_final before ≡ false
    → ((c : ℕ)
        → first c ≡ true
        → parase_step text (scanning before r e k) e c ≡ ok (scanning s r e k))
    → is_final s ≡ false
    → ((n : ℕ) → parase_step text (scanning s r e k) n d ≡ cut text (scanning s r e k) n next put)
    → IsToken first s piece
    → At text e (piece ++ d ∷ more)
    → parase_loop text (piece ++ d ∷ rest) e (scanning before r e k)
      ≡ parase_loop text rest (behind e piece) (scanning next (put piece r) (behind e piece) k)
unfolding parase_loop
loop_token before s next put text rest more d e k r fb enter fs leave (token {c} {cs} hc hcs) h =
    let place : e + 1 + length cs ≡ e + length (c ∷ cs) = omega arith in
    rw (fb, enter c hc)
      (loop-skips s text cs (d ∷ rest) (e + 1) (scanning s r e k) hcs
        ∙ rw
            (
              place,
              fs,
              leave (e + length (c ∷ cs)),
              cut-At text (scanning s r e k) (e + length (c ∷ cs)) next put (c ∷ cs) (d ∷ more) h
                  refl,
            )
            refl)
