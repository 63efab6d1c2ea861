-- ===== src/Http/HttpRequest/Fields.antt =====
-- What the setters of a request leave for its getters.
use l.Base.{Bool-cases, Bytes, equal, if◌then◌else◌, inl, inr, refl, ◌≡◌}
use l.Http.StringMap.Sorted.{IsSorted, assign-IsSorted, find-assign}
use l.Http.HttpRequest.{
  HttpRequest, Method, add_header, get_header, get_method_string, get_request_value,
  is_valid_method, k_delete, k_get, k_head, k_invalid_method, k_post, k_put, method_named,
  method_string, set_method, set_request_params,
}

-- The method that is left when a method's name is set.
abbrev pub read_back : Method → Method
read_back k_delete = k_invalid_method
read_back m = m

-- A method's name, set on any request, gives that method back, and the result says whether it is
-- valid; DELETE does not come back: its name leaves the invalid method, with the result false.
pub set_method-get_method_string :
    (m : Method) (r s : HttpRequest)
    → set_method (get_method_string (record r { method = m })) s
      ≡ (record s { method = read_back m }, is_valid_method (read_back m))
unfolding set_method get_method_string method_named equal method_string is_valid_method
set_method-get_method_string k_get r s = refl
set_method-get_method_string k_post r s = refl
set_method-get_method_string k_head r s = refl
set_method-get_method_string k_put r s = refl
set_method-get_method_string k_delete r s = refl
set_method-get_method_string k_invalid_method r s = refl

-- A header is read back under its field; every other field reads as before, and the fields keep
-- their order, each of them once.
pub get_header-add_header :
    (field other value : Bytes) (r : HttpRequest)
    → IsSorted r.headers
    → (get_header other (add_header field value r)
        ≡ (if equal field other then value else get_header other r))
      × IsSorted (add_header field value r).headers
unfolding get_header
get_header-add_header field other value r h = (
  elim (Bool-cases (equal field other)) [
    | inl e ↦ rw (find-assign field other value r.headers, e) refl
    | inr e ↦ rw (find-assign field other value r.headers, e) refl
  ],
  assign-IsSorted field value r.headers h,
)

-- What `SetRequestParams` stores is not what `GetRequestValue` reads: the value returned does not
-- depend on the parameters, and it is the header of that name.
pub get_request_value-set_request_params :
    (key value other : Bytes) (r : HttpRequest)
    → get_request_value other (set_request_params key value r) ≡ get_header other r
unfolding get_request_value get_header
get_request_value-set_request_params key value other r = refl
