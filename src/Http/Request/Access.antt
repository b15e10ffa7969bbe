-- ===== src/Http/Request/Access.antt =====
-- What the accessors give behind the setters.
use server_frame.Prelude.{ℕ, ◌≡◌, List, some}
use server_frame.Http.Fields.{find}
use server_frame.Http.Fields.Laws.{find-assign, find_or_found}
use server_frame.Http.Request.{
  HttpRequest, set_param, set_cookie, get_param, get_cookie, has_param, has_cookie,
  init_query_param, init_body_param, init_cookies,
}
use server_frame.Http.Request.Parsing.{
  init_query_param-Keeps, init_body_param-Keeps, init_cookies-Keeps,
}

set_param-found :
    (key val : List ℕ) (r : HttpRequest)
    → find key (init_body_param (init_query_param (set_param key val r))).params ≡ some val
unfolding set_param
set_param-found key val r =
    init_body_param-Keeps key val (init_query_param (set_param key val r))
      (init_query_param-Keeps key val (set_param key val r) (find-assign key val r.params))

set_cookie-found :
    (key val : List ℕ) (r : HttpRequest)
    → find key (init_cookies (set_cookie key val r)).cookies ≡ some val
unfolding set_cookie
set_cookie-found key val r =
    init_cookies-Keeps key val (set_cookie key val r) (find-assign key val r.cookies)

-- A parameter and a cookie that were set are what GetParam, HasParam, GetCookie and HasCookie give,
-- whether the query, the body and the cookies were parsed before or are parsed now.
pub get_param-set_param :
    (key val def : List ℕ) (r : HttpRequest)
    → ((get_param key def (set_param key val r)).0 ≡ val)
      × ((has_param key (set_param key val r)).0 ≡ some val)
      × ((get_cookie key def (set_cookie key val r)).0 ≡ val)
      × ((has_cookie key (set_cookie key val r)).0 ≡ some val)
unfolding get_param has_param get_cookie has_cookie
get_param-set_param key val def r = (
  find_or_found key val def _ (set_param-found key val r),
  set_param-found key val r,
  find_or_found key val def _ (set_cookie-found key val r),
  set_cookie-found key val r,
)
