-- ===== src/Http/HttpRequest/Tests.antt =====
-- The fields of concrete requests.
use l.Base.{[], codes, refl, ◌∷◌, ◌≡◌}
use l.Http.StringMap.{find}
use l.Http.HttpRequest.{HttpRequest, get_request_value, new_request, set_request_params}

abbrev hosted : HttpRequest
hosted = record new_request { headers = (codes "Host", codes "x") ∷ [] }

-- A parameter of the URL is not found under its name.
lost_param :
    get_request_value (codes "k") (set_request_params (codes "k") (codes "v") new_request) ≡ []
unfolding get_request_value find
lost_param = refl
