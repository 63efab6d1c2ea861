-- ===== src/Http/HttpServer/Serves.antt =====
-- The server over the texts that a connection receives, against the server over requests.
mod Tests
use l.Base.{
  All, Bool, Bool-cases, Bytes, List, Result, [], ap, append-nil, arith, codes, err, false,
  if◌then◌else◌, inl, inr, map, not, ok, ok_same, refl, subst, true, ℤ, ◌++◌, ◌>>=◌, ◌&&◌, ◌∷◌, ◌≡◌,
}
use l.Http.HttpRequest.{HttpRequest}
use l.Http.HttpContext.{
  HttpContext, HttpRequestParaseState, Scan, complete, get_complete_request, new_context,
}
use l.Http.HttpContext.Parase.{is_accepted, parase_request, parase_request_at}
use l.Http.HttpContext.Printed.{IsWellFormed, RequestText, request_said, request_text}
use l.Http.HttpContext.RoundTrip.Whole.{parase_request_at-request_text}
use l.Http.HttpServer.{HttpServer, bad_request, finish_message, on_message, on_request}
use l.Http.HttpServer.Upload.{
  ConnectionAction, append_file, close_file, handle_close, send_file, send_text, update_time_stamp,
}

abbrev pub paired :
    HttpContext → List ConnectionAction → Result (HttpContext × List ConnectionAction)
paired c calls = ok (c, calls)

-- The calls of one message before those of the others.
abbrev pub before_more :
    List ConnectionAction
    → HttpContext × List ConnectionAction
    → Result (HttpContext × List ConnectionAction)
before_more calls (c, more) = ok (c, calls ++ more)

-- Nothing is added between the calls of the message and those of its answer.
no_more :
    (r : Result (List ConnectionAction)) (c : HttpContext) (calls : List ConnectionAction)
    → (r >>= λ more. paired c (calls ++ [] ++ more)) ≡ (r >>= λ more. paired c (calls ++ more))
no_more (err e) c calls = refl
no_more (ok more) c calls = ap (λ x. ok (c, x ++ more)) (append-nil calls)

-- Does one of the calls close the connection?
abbrev pub closes : List ConnectionAction → Bool
closes [] = false
closes (handle_close ∷ calls) = true
closes (update_time_stamp ∷ calls) = closes calls
closes (send_text text ∷ calls) = closes calls
closes (send_file fd size ∷ calls) = closes calls
closes (close_file fd ∷ calls) = closes calls
closes (append_file name bytes ∷ calls) = closes calls

-- A server, and what a response's constructor leaves unset.
module _ (server : HttpServer) (any_length any_fd : ℤ) where
  abbrev pub touched : List ConnectionAction
  touched = if server.auto_close_conn then update_time_stamp ∷ [] else []

  -- The text of each read, one after the other, on a connection that is connected or not: a call
  -- that closes it makes it disconnected.
  abbrev pub receives :
      Bool → HttpContext → List Bytes → Result (HttpContext × List ConnectionAction)
  receives is_connected c [] = ok (c, [])
  receives is_connected c (text ∷ texts) =
      on_message server any_length any_fd is_connected c text >>= λ p.
      receives (is_connected && not (closes p.1)) p.0 texts >>= before_more p.1

  -- Each request is answered, in turn, up to the one that closes the connection.
  abbrev pub answers : List HttpRequest → Result (List ConnectionAction)
  answers [] = ok []
  answers (r ∷ rs) = on_request server any_length any_fd r >>= λ calls.
      let rest = answers rs in
      if closes calls
      then ok (touched ++ calls)
      else (rest >>= λ more. ok (touched ++ calls ++ more))

  closes-touched : (calls : List ConnectionAction) → closes (touched ++ calls) ≡ closes calls
  closes-touched calls = elim (Bool-cases server.auto_close_conn) [
    | inl t ↦ rw t refl
    | inr f ↦ rw f refl
  ]

  -- A disconnected connection is not served any more.
  deaf : (c : HttpContext) (texts : List Bytes) → receives false c texts ≡ ok (c, [])
  unfolding on_message
  deaf c [] = refl
  deaf c (text ∷ texts) = rw (deaf c texts) refl

  -- The first answer and the others.
  one_and_more :
      (x : Result (List ConnectionAction)) (rs : List HttpRequest) (texts : List Bytes)
      → receives true new_context texts ≡ (answers rs >>= paired new_context)
      → ((x >>= λ a. paired new_context (touched ++ a)) >>= λ p.
          receives (not (closes p.1)) p.0 texts >>= before_more p.1)
        ≡ ((x >>= λ a.
              if closes a
              then ok (touched ++ a)
              else (answers rs >>= λ more. ok (touched ++ a ++ more)))
            >>= paired new_context)
  one_and_more (err e) rs texts h = refl
  one_and_more (ok a) rs texts h = elim (Bool-cases (closes a)) [
    | inl t ↦
        rw (closes-touched a, t, deaf new_context texts)
          (ap (paired new_context) (append-nil (touched ++ a)))
    | inr f ↦ rw (closes-touched a, f, h) (regrouped (answers rs))
  ]
    where
      regrouped :
          (rest : Result (List ConnectionAction))
          → (rest >>= paired new_context >>= before_more (touched ++ a))
            ≡ (rest >>= (λ more. ok (touched ++ a ++ more)) >>= paired new_context)
      regrouped (err e) = refl
      regrouped (ok more) = refl

  serves_one :
      (t : RequestText)
      → IsWellFormed t
      → on_message server any_length any_fd true new_context (request_text t t.content) ≡ (
          on_request server any_length any_fd (request_said t) >>= λ calls.
          paired new_context (touched ++ calls))
  unfolding on_message finish_message get_complete_request parase_request
  serves_one t w =
      rw (parase_request_at-request_text t 0 w)
        (no_more (on_request server any_length any_fd (request_said t)) new_context touched)

  -- Over any number of well-formed requests, each of which one read brings whole to a connection
  -- that is connected at first, the server does what it does for the requests that the texts say,
  -- in order, up to the first one whose calls close the connection, and nothing for those behind
  -- it; its context is then a new one; it throws where the callback or an upload throws.
  pub receives-answers :
      (ts : List RequestText)
      → All IsWellFormed ts
      → receives true new_context (map (λ t. request_text t t.content) ts)
        ≡ (answers (map request_said ts) >>= paired new_context)
  receives-answers [] ws = refl
  receives-answers (t ∷ ts) (w, ws) = rw (serves_one t w) (
      one_and_more (on_request server any_length any_fd (request_said t)) (map request_said ts)
        (map (λ u. request_text u u.content) ts) (receives-answers ts ws))

not_accepted :
    (s : HttpRequestParaseState) (r : HttpRequest)
    → is_accepted s ≡ false
    → get_complete_request (record { state = s; request = r }) ≡ false
unfolding is_accepted get_complete_request
not_accepted complete r h = absurd (ground arith)
not_accepted _ r h = refl

abbrev result_of : Scan → Result (HttpContext × Bool)
result_of p = ok (record { state = p.state; request = p.request }, is_accepted p.state)

refused_scan :
    (run : Result Scan) (d : HttpContext)
    → (run >>= result_of) ≡ ok (d, false)
    → get_complete_request d ≡ false
refused_scan (err e) d h = cc
refused_scan (ok p) d h =
    let same = ok_same h in
    subst (λ c. get_complete_request c ≡ false) (ap (λ x. x.0) same)
      (not_accepted p.state p.request (ap (λ x. x.1) same))

refused_waits :
    (c d : HttpContext) (text : Bytes)
    → parase_request c text ≡ ok (d, false)
    → get_complete_request d ≡ false
unfolding parase_request parase_request_at
refused_waits c d text h = refused_scan _ d h

-- A text that the parser refuses is answered by the status 400 and the end of the connection, after
-- the note of the time if idle connections are closed, and the callback is not asked.
pub on_message_refuses :
    (server : HttpServer) (any_length any_fd : ℤ) (c d : HttpContext) (text : Bytes)
    → parase_request c text ≡ ok (d, false)
    → on_message server any_length any_fd true c text
      ≡ ok (
        d,
        touched server any_length any_fd
            ++ send_text (codes "HTTP/1.1 400 Bad Request\r\n\r\n") ∷ handle_close ∷ [],
      )
unfolding on_message finish_message bad_request
on_message_refuses server any_length any_fd c d text h = rw (h, refused_waits c d text h) refl
