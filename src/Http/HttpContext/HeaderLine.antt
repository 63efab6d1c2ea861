-- ===== src/Http/HttpContext/HeaderLine.antt =====
-- What `HttpContext::ParaseRequest` does with one header line.
use l.Base.{
  All, Bool, Bytes, [], arith, isblank, length, not, ok, refl, subst, true, ℕ, ◌++◌, ◌+◌, ◌==◌,
  ◌||◌, ◌∙◌, ◌∷◌, ◌≡◌,
}
use l.Http.HttpRequest.{HttpRequest, add_header}
use l.Http.HttpContext.{cr, cr_lf, header_key, header_value, lf, when_cr}
use l.Http.HttpContext.Head.{on_cr_lf, on_header_key, on_header_value, on_when_cr}
use l.Http.HttpContext.Parase.{is_final, parase_loop, parase_step}
use l.Http.HttpContext.Skips.{loop-skips, skips}
use l.Http.HttpContext.Pieces.{At, At-append, At-behind, IsToken, behind, loop_step, scanning}
use l.Http.HttpContext.Pairs.{cut_pair-At, loop_inside}

-- What a header's field may begin with.
abbrev pub begins_field : ℕ → Bool
begins_field c = not (c == cr || isblank c)

enter_field :
    (text : Bytes) (r : HttpRequest) (e k c : ℕ)
    → begins_field c ≡ true
    → parase_step text (scanning cr_lf r e k) e c ≡ ok (scanning header_key r e k)
unfolding parase_step on_cr_lf
enter_field text r e k c h = ground arith

leave_field :
    (text : Bytes) (r : HttpRequest) (e k n : ℕ)
    → parase_step text (scanning header_key r e k) n b':' ≡ ok (scanning header_value r e n)
unfolding parase_step on_header_key
leave_field text r e k n = refl

skip_blank :
    (text : Bytes) (r : HttpRequest) (e k n : ℕ)
    → parase_step text (scanning header_value r e k) n b' ' ≡ ok (scanning header_value r e k)
unfolding parase_step on_header_value
skip_blank text r e k n = refl

-- Where the text of a value begins that stands behind a colon and a blank.
abbrev pub value_at : ℕ → Bytes → ℕ
value_at e field = behind e field + 1

pub At-value :
    (field value : Bytes) (text more : Bytes) (e : ℕ)
    → At text e (field ++ b':' ∷ b' ' ∷ (value ++ cr ∷ more))
    → At text (value_at e field) (value ++ cr ∷ more)
At-value field value text more e h =
    At-append text (behind e field) (b' ' ∷ []) (value ++ cr ∷ more)
      (At-behind text e b':' field (b' ' ∷ (value ++ cr ∷ more)) h)

leave_header :
    (field value : Bytes) (text more : Bytes) (e : ℕ) (r : HttpRequest)
    → At text e (field ++ b':' ∷ b' ' ∷ (value ++ cr ∷ more))
    → parase_step text
        (scanning header_value r e (e + length field))
        (value_at e field + length value)
        cr
      ≡ ok (
          scanning when_cr
            (add_header field value r)
            (behind (value_at e field) value)
            (e + length field))
unfolding parase_step on_header_value
leave_header field value text more e r h =
    let inside = scanning header_value r e (e + length field) in
    let n = value_at e field + length value in
    let same : value_at e field ≡ e + length field + 2 = omega arith in
    cut_pair-At text inside n 2 when_cr add_header field value (b':' ∷ b' ' ∷ (value ++ cr ∷ more))
      (cr ∷ more) h refl
      (subst (λ m. At text m (value ++ cr ∷ more)) same (At-value field value text more e h))
      (omega arith)

pub leave_cr :
    (text : Bytes) (r : HttpRequest) (e k n : ℕ)
    → parase_step text (scanning when_cr r e k) n lf ≡ ok (scanning cr_lf r (n + 1) k)
unfolding parase_step on_when_cr
leave_cr text r e k n = refl

-- A header line, from behind the line end before it to behind its own.
pub loop_header :
    {field : Bytes} (text value rest more : Bytes) (e k : ℕ) (r : HttpRequest)
    → IsToken begins_field header_key field
    → All (λ c. skips header_value c ≡ true) value
    → At text e (field ++ b':' ∷ b' ' ∷ (value ++ cr ∷ lf ∷ more))
    → parase_loop text (field ++ b':' ∷ b' ' ∷ (value ++ cr ∷ lf ∷ rest)) e (scanning cr_lf r e k)
      ≡ parase_loop text rest (behind (value_at e field) value + 1) (
          scanning cr_lf
            (add_header field value r)
            (behind (value_at e field) value + 1)
            (e + length field))
unfolding is_final
loop_header {field} text value rest more e k r tf tv h =
    let col = e + length field in
    let inside = scanning header_value r e col in
    let done = behind (value_at e field) value in
    loop_inside header_key text (b':' ∷ b' ' ∷ (value ++ cr ∷ lf ∷ rest)) e (scanning cr_lf r e k)
      refl (enter_field text r e k) tf
    ∙ loop_step text (b' ' ∷ (value ++ cr ∷ lf ∷ rest)) col b':' (scanning header_key r e k) inside
        refl (leave_field text r e k col)
    ∙ loop_step text (value ++ cr ∷ lf ∷ rest) (behind e field) b' ' inside inside refl
        (skip_blank text r e col (behind e field))
    ∙ loop-skips header_value text value (cr ∷ lf ∷ rest) (value_at e field) inside tv
    ∙ loop_step text (lf ∷ rest) (value_at e field + length value) cr inside
        (scanning when_cr (add_header field value r) done col) refl
        (leave_header field value text (lf ∷ more) e r h)
    ∙ loop_step text rest done lf (scanning when_cr (add_header field value r) done col)
        (scanning cr_lf (add_header field value r) (done + 1) col) refl
        (leave_cr text (add_header field value r) done col done)
