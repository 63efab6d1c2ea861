-- ===== src/Http/HttpContext/Bodies.antt =====
-- A body that comes in more than one piece (the case BODY of `HttpContext::ParaseRequest`).
use l.Base.{
  Bytes, [], ap, arith, atoi, drop, false, length, length-append, le→ltb_false, negsuc, ok, pos,
  refl, take, true, ℕ, ℤ, ◌++◌, ◌+◌, ◌-◌, ◌∙◌, ◌∷◌, ◌≡◌, ◌≤◌,
}
use l.Http.HttpRequest.{HttpRequest, get_header, set_body}
use l.Http.HttpContext.{in_body, slice}
use l.Http.HttpContext.Head.{at_least, content_length, on_body}
use l.Http.HttpContext.Parase.{is_accepted, is_final, parase_loop, parase_request_at, parase_step}
use l.Http.HttpContext.Pieces.{loop_step, scanning}

at_least_fewer : (m n : ℕ) (z : ℤ) → m ≤ n → at_least n z ≡ false → at_least m z ≡ false
at_least_fewer m n (pos k) l h = ground arith
at_least_fewer m n (negsuc k) l h = ground arith

abbrev pub told : HttpRequest → ℤ
told r = atoi (get_header content_length r)

abbrev left : Bytes → ℕ → ℕ → Bytes
left text st e = take (length text - e) (drop st text)

-- A round at a place behind which there is too little.
short_step :
    (text : Bytes) (r : HttpRequest) (st k e c : ℕ)
    → at_least (length text - e) (told r) ≡ false
    → parase_step text (scanning in_body r st k) e c
      ≡ ok (scanning in_body (set_body (left text st e) r) st k)
unfolding parase_step on_body slice get_header atoi
short_step text r st k e c h =
    rw (le→ltb_false (st + (length text - e)) st (omega arith), h)
      (ap (λ n. ok (scanning in_body (set_body (take n (drop st text)) r) st k)) (omega arith))

short_loop :
    (text bytes : Bytes) (r : HttpRequest) (st k e c : ℕ)
    → at_least (length text - e) (told r) ≡ false
    → e + length bytes ≡ length text
    → parase_loop text (c ∷ bytes) e (scanning in_body r st k)
      ≡ ok (scanning in_body (set_body [] r) st k)
unfolding is_final parase_loop get_header
short_loop text [] r st k e c h n =
    let no_more : length text - e ≡ 0 = omega arith in
    loop_step text [] e c (scanning in_body r st k)
      (scanning in_body (set_body (left text st e) r) st k) refl (short_step text r st k e c h)
    ∙ ap (λ m. ok (scanning in_body (set_body (take m (drop st text)) r) st k)) no_more
short_loop text (d ∷ bytes) r st k e c h n =
    let q = set_body (left text st e) r in
    let still : at_least (length text - (e + 1)) (told q) ≡ false =
      at_least_fewer (length text - (e + 1)) (length text - e) (told r) (omega arith) h in
    loop_step text (d ∷ bytes) e c (scanning in_body r st k) (scanning in_body q st k) refl
      (short_step text r st k e c h)
    ∙ short_loop text bytes q st k (e + 1) d still (omega arith)

short_tail :
    (text tail : Bytes) (after : ℕ) (r : HttpRequest)
    → at_least (length text - 0) (told r) ≡ false
    → length tail ≡ length text
    → parase_loop text (tail ++ after ∷ []) 0 (scanning in_body r 0 0)
      ≡ ok (scanning in_body (set_body [] r) 0 0)
short_tail text [] after r h n = short_loop text [] r 0 0 0 after h (omega arith)
short_tail text (c ∷ tail) after r h n =
    short_loop text (tail ++ after ∷ []) r 0 0 0 c h
      (omega (arith, length-append tail (after ∷ [])))

-- A context that waits for a body, and a text shorter than the length that the header tells: the
-- call returns true and the context goes on waiting, but nothing of the text is kept.
pub parase_request_at_short :
    (r : HttpRequest) (text : Bytes) (after : ℕ)
    → at_least (length text) (told r) ≡ false
    → parase_request_at (record { state = in_body; request = r }) text after
      ≡ ok (record { state = in_body; request = set_body [] r }, true)
unfolding parase_request_at is_accepted
parase_request_at_short r text after h =
    rw
      (short_tail text text after r
        (at_least_fewer (length text - 0) (length text) (told r) (omega arith) h) refl)
      refl
