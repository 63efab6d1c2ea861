-- ===== src/Http/HttpContext/RoundTrip/Whole.antt =====
-- The end of the head and the body, and a whole request.
use l.Base.{
  Bytes, [], ap, append-nil, append_assoc, arith, atoi, false, inl, inr, length, length-drop,
  lt→ltb, ok, refl, sym, true, ℕ, ◌++◌, ◌+◌, ◌-◌, ◌<◌, ◌∙◌, ◌∷◌, ◌≡◌, ◌⊎◌,
}
use l.Http.HttpRequest.{
  HttpRequest, get_header, method_named, new_request, set_body, set_protocol, set_version,
}
use l.Http.HttpContext.{Scan, complete, cr, cr_lf, cr_lf_cr, in_body, lf, new_context, slice}
use l.Http.HttpContext.Head.{after_head, at_least, content_length, on_body, on_cr_lf, on_cr_lf_cr}
use l.Http.HttpContext.Parase.{is_accepted, is_final, parase_loop, parase_request_at, parase_step}
use l.Http.HttpContext.Pieces.{At, At-append, loop_step, scanning, slice-At}
use l.Http.HttpContext.Printed.{
  FitsLength, IsWellFormed, RequestText, assigned, fields_text, head_text, params_text, path_text,
  protocol_text, query_text, request_said, request_text, version_text,
}
use l.Http.StringMap.{StringMap, count}
use l.Http.StringMap.Sorted.{count-find}
use l.Http.HttpContext.RoundTrip.{fields_part, method_part, protocol_part, query_part, version_part}

pub loop_final :
    (text bytes : Bytes) (e : ℕ) (p : Scan)
    → is_final p.state ≡ true
    → parase_loop text bytes e p ≡ ok p
unfolding parase_loop
loop_final text [] e p h = refl
loop_final text (c ∷ bytes) e p h = rw h refl

At-length : (text : Bytes) (e : ℕ) (rest : Bytes) → At text e rest → length text - e ≡ length rest
At-length text e rest h = sym (length-drop e text) ∙ ap length h

body_part :
    (text : Bytes) (r : HttpRequest) (e k : ℕ) (body rest : Bytes) (c : ℕ)
    → At text e body
    → at_least (length body) (atoi (get_header content_length r)) ≡ true
    → parase_loop text (c ∷ rest) e (scanning in_body r e k)
      ≡ ok (scanning complete (set_body body r) e k)
unfolding is_final parase_step on_body atoi get_header
body_part text r e k body rest c a h =
    let q = scanning complete (set_body body r) e k in
    let n : e + (length text - e) ≡ e + length body = ap (λ m. e + m) (At-length text e body a) in
    let whole : slice text e (e + (length text - e)) ≡ ok body =
      slice-At text e (e + (length text - e)) body [] (a ∙ sym (append-nil body)) (sym n) in
    loop_step text rest e c (scanning in_body r e k) q refl
      (rw (whole, At-length text e body a, h) refl)
    ∙ loop_final text rest (e + 1) q refl

-- Behind the last header line: the empty line.
empty_line :
    (text rest : Bytes) (r : HttpRequest) (e k : ℕ)
    → parase_loop text (cr ∷ lf ∷ rest) e (scanning cr_lf r e k)
      ≡ parase_loop text rest (e + 1 + 1) (scanning (after_head text r (e + 1)) r (e + 1 + 1) k)
unfolding is_final parase_step on_cr_lf on_cr_lf_cr
empty_line text rest r e k =
    loop_step text (lf ∷ rest) e cr (scanning cr_lf r e k) (scanning cr_lf_cr r e k) refl refl
    ∙ loop_step text rest (e + 1) lf (scanning cr_lf_cr r e k)
        (scanning (after_head text r (e + 1)) r (e + 1 + 1) k) refl refl

no_header :
    (field : Bytes) (r : HttpRequest) → count field r.headers ≡ false → get_header field r ≡ []
unfolding get_header
no_header field r h = ground (arith, count-find field r.headers)

-- Either the body is read and long enough, or the request is complete without one.
after_head-cases :
    (text : Bytes) (r : HttpRequest) (e : ℕ) (body : Bytes)
    → FitsLength r.headers body
    → e < length text
    → ((after_head text r e ≡ in_body)
        × (at_least (length body) (atoi (get_header content_length r)) ≡ true))
      ⊎ ((after_head text r e ≡ complete) × (body ≡ []))
unfolding after_head
after_head-cases text r e body (inl missing) l = inl (
  rw (missing, lt→ltb e (length text) l) refl,
  rw (no_header content_length r missing) (unfold atoi in ground arith),
)
after_head-cases text r e body (inr (inl (there, positive, enough))) l =
    inl (unfold get_header in rw (there, positive) refl, unfold get_header in enough)
after_head-cases text r e body (inr (inr (there, zero_length, nothing))) l =
    inr (unfold get_header in rw (there, zero_length) refl, nothing)

read_body :
    (tail text : Bytes) (r : HttpRequest) (e k after : ℕ) (body : Bytes)
    → At text e body
    → at_least (length body) (atoi (get_header content_length r)) ≡ true
    → parase_loop text (tail ++ after ∷ []) e (scanning in_body r e k)
      ≡ ok (scanning complete (set_body body r) e k)
read_body [] text r e k after body a h = body_part text r e k body [] after a h
read_body (c ∷ tail) text r e k after body a h =
    body_part text r e k body (tail ++ after ∷ []) c a h

end_part :
    (text : Bytes) (r : HttpRequest) (e k after : ℕ) (body : Bytes)
    → r.body ≡ []
    → FitsLength r.headers body
    → At text e (cr ∷ lf ∷ body)
    → (f : ℕ) × (parase_loop text (cr ∷ lf ∷ (body ++ after ∷ [])) e (scanning cr_lf r e k)
        ≡ ok (scanning complete (set_body body r) f k))
unfolding is_final
end_part text r e k after body hb fits a =
    let after_line : At text (e + 1 + 1) body =
      At-append text (e + 1) (lf ∷ []) body (At-append text e (cr ∷ []) (lf ∷ body) a) in
    (
      e + 1 + 1,
      empty_line text (body ++ after ∷ []) r e k
          ∙ elim (after_head-cases text r (e + 1) body fits (omega (arith, At-length text e _ a))) [
            | inl (st, enough) ↦
                rw st (read_body body text r (e + 1 + 1) k after body after_line enough)
            | inr (st, nothing) ↦ rw st (
                loop_final text (body ++ after ∷ []) (e + 1 + 1) (scanning complete r (e + 1 + 1) k)
                  refl
                ∙ ap (λ b. ok (scanning complete (set_body b r) (e + 1 + 1) k)) (hb ∙ sym nothing))
          ],
    )

params_text-append :
    (key value : Bytes) (m : StringMap) (rest s : Bytes)
    → params_text key value m rest ++ s ≡ params_text key value m (rest ++ s)
params_text-append key value [] rest s = simp append_assoc
params_text-append key value ((k, v) ∷ m) rest s =
    simp (append_assoc, params_text-append k v m rest s)

query_text-append :
    (m : StringMap) (rest s : Bytes) → query_text m rest ++ s ≡ query_text m (rest ++ s)
query_text-append [] rest s = refl
query_text-append ((k, v) ∷ m) rest s = ap (◌∷◌ b'?') (params_text-append k v m rest s)

fields_text-append :
    (m : StringMap) (rest s : Bytes) → fields_text m rest ++ s ≡ fields_text m (rest ++ s)
fields_text-append [] rest s = refl
fields_text-append ((k, v) ∷ m) rest s = simp (append_assoc, fields_text-append m rest s)

request_text-append :
    (t : RequestText) (rest s : Bytes) → request_text t rest ++ s ≡ request_text t (rest ++ s)
unfolding request_text
request_text-append t rest s = simp (append_assoc, query_text-append, fields_text-append)

-- A well-formed request, in one call on a new context and with any byte behind it, is read whole:
-- the call returns true, the context is complete and its request is what the text says.
pub parase_request_at-request_text :
    (t : RequestText) (after : ℕ)
    → IsWellFormed t
    → parase_request_at new_context (request_text t t.content) after
      ≡ ok (record { state = complete; request = request_said t }, true)
unfolding parase_request_at is_accepted request_text
parase_request_at-request_text t after w =
    let text = request_text t t.content in
    let rest = t.content ++ after ∷ [] in
    let r1 = record new_request { method = method_named t.method_name } in
    let r2 = record r1 { url = t.path; request_params = assigned [] t.params } in
    let r3 = set_protocol t.protocol_name r2 in
    let r4 = set_version t.version_name r3 in
    let r5 = record r4 { headers = assigned [] t.fields } in
    let (e1, k1, a1, run1) =
      method_part t text (path_text t rest) (path_text t t.content) w.method_ok refl in
    let (e2, k2, a2, run2) =
      query_part t.path t.params text (protocol_text t rest) (protocol_text t t.content) e1 k1 r1
        w.path_ok w.params_ok a1 in
    let (e3, k3, a3, run3) =
      protocol_part text (version_text t rest) (version_text t t.content) e2 k2 r2 w.protocol_ok
        a2 in
    let (e4, k4, a4, run4) =
      version_part text (head_text t.fields rest) (head_text t.fields t.content) e3 k3 r3
        w.version_ok a3 in
    let (e5, k5, a5, run5) =
      fields_part t.fields text (cr ∷ lf ∷ rest) (cr ∷ lf ∷ t.content) e4 k4 r4 w.fields_ok a4 in
    let (e6, run6) = end_part text r5 e5 k5 after t.content refl w.body_ok a5 in
    rw (request_text-append t t.content (after ∷ []), run1, run2, run3, run4, run5, run6) refl
