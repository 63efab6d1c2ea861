-- ===== src/Http/HttpResponse/Message.antt =====
-- A reader of the text that a response sends finds its lines and its body.
use l.Base.{
  All, All-append, Bool, Bool-cases, Bytes, List, Option, [], ap, append_assoc, arith, codes,
  decimal, decimal-IsLong, decimal-IsShort, false, if◌then◌else◌, inl, inr, length, ltb, negsuc,
  none, not, pos, refl, some, suc, to_string, true, zero, ℕ, ℤ, ◌&&◌, ◌++◌, ◌+◌, ◌/◌, ◌==◌, ◌∙◌,
  ◌∷◌, ◌≡◌, ◌≢◌,
}
use l.Http.StringMap.{StringMap}
use l.Http.HttpResponse.{
  HttpResponse, beforebody, code_number, connection_line, crlf, header_lines, message,
}

abbrev pub Plain : Bytes → Type 0
Plain = All (λ c. c ≢ b'\r')

-- What stands before the first CR LF, and what stands behind it.
unfoldable pub read_line : Bytes → Option (Bytes × Bytes)
read_line [] = none
read_line (c ∷ s) =
    let more = read_line s in
    if c == b'\r'
    then elim s [ [] ↦ none | (d ∷ rest) ↦ if d == b'\n' then some ([], rest) else none ]
    else elim more [ none ↦ none | some (line, rest) ↦ some (c ∷ line, rest) ]

with_line : Bytes → Option (List Bytes × Bytes) → Option (List Bytes × Bytes)
with_line line none = none
with_line line (some (lines, body)) = some (line ∷ lines, body)

-- An empty line ends the head; else `more` reads on.
after_line :
    Option (Bytes × Bytes) → (Bytes → Option (List Bytes × Bytes)) → Option (List Bytes × Bytes)
after_line none more = none
after_line (some ([], rest)) more = some ([], rest)
after_line (some (c ∷ line, rest)) more = with_line (c ∷ line) (more rest)

-- The lines up to an empty one, and what stands behind that; fewer lines than `k`.
unfoldable pub read_head : ℕ → Bytes → Option (List Bytes × Bytes)
unfolding with_line after_line
read_head zero s = none
read_head (suc k) s = after_line (read_line s) (read_head k)

abbrev status_line : HttpResponse → Bytes
status_line r =
    codes "HTTP/1.1 "
    ++ to_string (pos (code_number r.status_code))
    ++ codes " "
    ++ r.status_message

abbrev field_lines : StringMap → List Bytes
field_lines [] = []
field_lines ((key, value) ∷ m) = (key ++ codes ": " ++ value) ∷ field_lines m

abbrev cache_line : Bytes
cache_line = codes "Cache-Control: no-store, no-cache, must-revalidate"

abbrev connection : Bool → Bytes
connection true = codes "Connection: close"
connection false = codes "Connection: Keep-Alive"

-- The lines of the head.
abbrev pub head_lines : HttpResponse → List Bytes
head_lines r =
    status_line r
    ∷ connection r.close_connection
    ∷ (codes "Content-Length: " ++ to_string r.content_length)
    ∷ (field_lines r.headers ++ cache_line ∷ [])

unlines : List Bytes → Bytes → Bytes
unlines [] body = b'\r' ∷ b'\n' ∷ body
unlines (line ∷ lines) body = line ++ b'\r' ∷ b'\n' ∷ unlines lines body

read_line-unlines :
    (line rest : Bytes) → Plain line → read_line (line ++ b'\r' ∷ b'\n' ∷ rest) ≡ some (line, rest)
unfolding read_line
read_line-unlines [] rest h = refl
read_line-unlines (c ∷ line) rest (n, h) = ground (arith, read_line-unlines line rest h)

data IsLine : Bytes → Type 0 where
  is_line : {c : ℕ} {cs : Bytes} → Plain (c ∷ cs) → IsLine (c ∷ cs)

read_head-cons :
    (k : ℕ) (s rest : Bytes) (c : ℕ) (cs : Bytes) (lines : List Bytes) (body : Bytes)
    → read_line s ≡ some (c ∷ cs, rest)
    → read_head k rest ≡ some (lines, body)
    → read_head (suc k) s ≡ some ((c ∷ cs) ∷ lines, body)
unfolding read_head
read_head-cons k s rest c cs lines body h g = rw (h, g) refl

read_head-unlines :
    (lines : List Bytes) (body : Bytes)
    → All IsLine lines
    → read_head (suc (length lines)) (unlines lines body) ≡ some (lines, body)
unfolding read_head unlines read_line
read_head-unlines [] body h = refl
read_head-unlines (line ∷ lines) body (is_line {c} {cs} h, hs) =
    read_head-cons (suc (length lines)) ((c ∷ cs) ++ b'\r' ∷ b'\n' ∷ unlines lines body)
      (unlines lines body) c cs lines body (read_line-unlines (c ∷ cs) (unlines lines body) h)
      (read_head-unlines lines body hs)

fields-unlines :
    (m : StringMap) (tail : List Bytes) (body : Bytes)
    → header_lines m ++ unlines tail body ≡ unlines (field_lines m ++ tail) body
unfolding header_lines unlines
fields-unlines [] tail body = refl
fields-unlines ((key, value) ∷ m) tail body = simp (append_assoc, fields-unlines m tail body)

connection-line : (b : Bool) → connection_line b ≡ connection b ++ crlf
unfolding connection_line
connection-line true = refl
connection-line false = refl

message-unlines : (r : HttpResponse) → message r ≡ unlines (head_lines r) r.body
unfolding message beforebody unlines
message-unlines r = simp (append_assoc, ← fields-unlines, connection-line)

abbrev pub IsPlainField : Bytes × Bytes → Type 0
IsPlainField (key, value) = Plain key × Plain value

unfoldable pub no_cr : Bytes → Bool
no_cr [] = true
no_cr (c ∷ s) = not (c == b'\r') && no_cr s

pub no_cr-Plain : (s : Bytes) → no_cr s ≡ true → Plain s
unfolding no_cr
no_cr-Plain [] h = tt
no_cr-Plain (c ∷ s) h = (ground arith, no_cr-Plain s (ground arith))

decimal-Plain : (k n : ℕ) → Plain (decimal k n)
unfolding decimal
decimal-Plain zero n = tt
decimal-Plain (suc k) n = elim (Bool-cases (ltb n 10)) [
  | inl short ↦ rw (decimal-IsShort k n short) (ground arith, tt)
  | inr long ↦
      rw (decimal-IsLong k n long)
        (All-append _ (decimal k (n / 10)) _ (decimal-Plain k (n / 10)) (ground arith, tt))
]

to_string-Plain : (z : ℤ) → Plain (to_string z)
unfolding to_string
to_string-Plain (pos n) = decimal-Plain 20 n
to_string-Plain (negsuc n) = (ground arith, decimal-Plain 20 (n + 1))

IsLine-append : (s t : Bytes) → Plain s → IsLine t → IsLine (s ++ t)
IsLine-append [] t h l = l
IsLine-append (c ∷ s) t h (is_line {c = d} {cs = ds} l) =
    is_line (All-append _ (c ∷ s) (d ∷ ds) h l)

field_lines-ok :
    (m : StringMap) (tail : List Bytes)
    → All IsPlainField m
    → All IsLine tail
    → All IsLine (field_lines m ++ tail)
field_lines-ok [] tail h t = t
field_lines-ok ((key, value) ∷ m) tail ((hk, hv), h) t = (
  rw (append_assoc key (codes ": ") value)
      (IsLine-append key (codes ": " ++ value) hk (is_line (ground arith, (ground arith, hv)))),
  field_lines-ok m tail h t,
)

connection-IsLine : (b : Bool) → IsLine (connection b)
unfolding no_cr
connection-IsLine true = is_line (no_cr-Plain (connection true) refl)
connection-IsLine false = is_line (no_cr-Plain (connection false) refl)

lines_ok :
    (r : HttpResponse)
    → Plain r.status_message
    → All IsPlainField r.headers
    → All IsLine (head_lines r)
unfolding no_cr
lines_ok r h hs =
    let number = to_string (pos (code_number r.status_code)) in
    let status : Plain (codes "HTTP/1.1 " ++ number ++ codes " " ++ r.status_message) =
      All-append _ (codes "HTTP/1.1 " ++ number ++ codes " ") r.status_message
        (All-append _ (codes "HTTP/1.1 " ++ number) (codes " ")
          (All-append _ (codes "HTTP/1.1 ") number (no_cr-Plain (codes "HTTP/1.1 ") refl)
            (to_string-Plain _))
          (no_cr-Plain (codes " ") refl))
        h in
    let size : Plain (codes "Content-Length: " ++ to_string r.content_length) =
      All-append _ (codes "Content-Length: ") (to_string r.content_length)
        (no_cr-Plain (codes "Content-Length: ") refl) (to_string-Plain r.content_length) in
    let cache : IsLine cache_line = is_line (no_cr-Plain cache_line refl) in
    (
      is_line status,
      (
        connection-IsLine r.close_connection,
        (is_line size, field_lines-ok r.headers (cache_line ∷ []) hs (cache, tt)),
      ),
    )

-- Where neither the status message nor a header holds a CR, a reader of the message finds the lines
-- of its head and behind them the body, whatever the body holds.
pub read_head-message :
    (r : HttpResponse)
    → Plain r.status_message
    → All IsPlainField r.headers
    → read_head (suc (length (head_lines r))) (message r) ≡ some (head_lines r, r.body)
read_head-message r h hs =
    ap (read_head (suc (length (head_lines r)))) (message-unlines r)
    ∙ read_head-unlines (head_lines r) r.body (lines_ok r h hs)
