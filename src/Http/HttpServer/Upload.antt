-- ===== src/Http/HttpServer/Upload.antt =====
-- The upload of a file in `HttpServer::onRequest` (code/day29/http/HttpServer.cpp), over
-- std::string's find and substr on size_t.
use l.Base.{
  Bool, Bytes, List, Option, Result, [], add_size, codes, drop, err, false, if◌then◌else◌, length,
  ltb, none, not, ok, out_of_range, some, sub_size, take, true, ℕ, ℤ, ◌++◌, ◌+◌, ◌-◌, ◌==◌, ◌>>=◌,
  ◌^◌, ◌∷◌,
}
use l.Http.StringMap.{count}
use l.Http.HttpRequest.{HttpRequest, get_header}

-- A call of the connection, or of the system.
pub data ConnectionAction : Type 0 where
  update_time_stamp : ConnectionAction
  send_text : Bytes → ConnectionAction
  send_file : ℤ → ℤ → ConnectionAction
  close_file : ℤ → ConnectionAction
  append_file : Bytes → Bytes → ConnectionAction
  handle_close : ConnectionAction

abbrev pub npos : ℕ
npos = 2 ^ 64 - 1

unfoldable pub starts_with : Bytes → Bytes → Bool
starts_with [] s = true
starts_with (a ∷ as') [] = false
starts_with (a ∷ as') (b ∷ s) = if a == b then starts_with as' s else false

unfoldable pub search_at : ℕ → Bytes → Bytes → ℕ
search_at i needle [] = if starts_with needle [] then i else npos
search_at i needle (b ∷ s) =
    let more = search_at (i + 1) needle s in if starts_with needle (b ∷ s) then i else more

-- `find(needle, pos)`
unfoldable pub find_text : Bytes → Bytes → ℕ → ℕ
unfolding search_at
find_text s needle first =
    if ltb (length s) first then npos else search_at first needle (drop first s)

-- `substr(first, count)`
unfoldable pub substr : Bytes → ℕ → ℕ → Result Bytes
substr s first count =
    if ltb (length s) first then err out_of_range else ok (take count (drop first s))

unfoldable pub is_multipart : HttpRequest → Bool
is_multipart r =
    not (find_text (get_header (codes "Content-Type") r) (codes "multipart/form-data") 0 == npos)

-- The boundary told by the content type.
unfoldable pub boundary_of : HttpRequest → Result Bytes
boundary_of r =
    let type = get_header (codes "Content-Type") r in
    substr type (add_size (find_text type (codes "boundary") 0) 9) npos

-- The name in the first part of the body.
unfoldable pub filename_of : Bytes → Result Bytes
filename_of body =
    let first = add_size (find_text body (codes "filename") 0) 10 in
    substr body first (sub_size (find_text body (codes "\"\r\n") first) first)

-- What stands between the first empty line and the closing boundary.
unfoldable pub filedata_of : Bytes → Bytes → Result Bytes
filedata_of boundary body =
    let first = add_size (find_text body (codes "\r\n\r\n") 0) 4 in
    let last = find_text body (codes "--" ++ boundary ++ codes "--") 0 in
    substr body first (sub_size last first)

-- The file that is appended to, if the body names one; without a name `onRequest` returns.
unfoldable pub upload : HttpRequest → Result (Option (List ConnectionAction))
unfolding boundary_of filename_of filedata_of
upload r = boundary_of r >>= λ boundary.
    if find_text r.body (codes "filename") 0 == npos
    then ok none
    else (filename_of r.body >>= λ name. filedata_of boundary r.body >>= λ bytes.
        ok (some (append_file (codes "../files/" ++ name) bytes ∷ [])))
