-- ===== src/Http/Request/Setters.antt =====
-- The setters of HttpRequest that only store a value, and the conversion of values.
use server_frame.Prelude.{ℕ, List, Option, none, some, Bool, true, false}
use server_frame.Http.Fields.{Fields, find}
use server_frame.Http.Request.{HttpRequest, init_query_param, init_body_param, init_cookies}

unfoldable pub set_method : ℕ → HttpRequest → HttpRequest
set_method v r = record r { method = v }

unfoldable pub set_version : ℕ → HttpRequest → HttpRequest
set_version v r = record r { version = v }

unfoldable pub set_path : List ℕ → HttpRequest → HttpRequest
set_path v r = record r { path = v }

unfoldable pub set_query : List ℕ → HttpRequest → HttpRequest
set_query v r = record r { query = v }

unfoldable pub set_fragment : List ℕ → HttpRequest → HttpRequest
set_fragment v r = record r { fragment = v }

unfoldable pub set_body : List ℕ → HttpRequest → HttpRequest
set_body v r = record r { body = v }

unfoldable pub set_close : Bool → HttpRequest → HttpRequest
set_close v r = record r { close = v }

unfoldable pub set_websocket : Bool → HttpRequest → HttpRequest
set_websocket v r = record r { websocket = v }

unfoldable pub set_headers : Fields → HttpRequest → HttpRequest
set_headers v r = record r { headers = v }

unfoldable pub set_params : Fields → HttpRequest → HttpRequest
set_params v r = record r { params = v }

unfoldable pub set_cookies : Fields → HttpRequest → HttpRequest
set_cookies v r = record r { cookies = v }

-- `cast` is boost::lexical_cast to T, `none` where it throws.
module _ {T : Type 0} (cast : List ℕ → Option T) where
  unfoldable pub check_get_as : Fields → List ℕ → T → T × Bool
  check_get_as m key def = elim (find key m) [
    | none ↦ (def, false)
    | some v ↦ elim (cast v) [ none ↦ (def, false) | some t ↦ (t, true) ]
  ]

  unfoldable pub get_as : Fields → List ℕ → T → T
  get_as m key def = elim (find key m) [
    | none ↦ def
    | some v ↦ elim (cast v) [ none ↦ def | some t ↦ t ]
  ]

  unfoldable pub check_get_param_as : List ℕ → T → HttpRequest → (T × Bool) × HttpRequest
  check_get_param_as key def r =
      let parsed = init_body_param (init_query_param r) in
      (check_get_as parsed.params key def, parsed)

  unfoldable pub get_param_as : List ℕ → T → HttpRequest → T × HttpRequest
  get_param_as key def r =
      let parsed = init_body_param (init_query_param r) in (get_as parsed.params key def, parsed)

  unfoldable pub check_get_cookie_as : List ℕ → T → HttpRequest → (T × Bool) × HttpRequest
  check_get_cookie_as key def r =
      let parsed = init_cookies r in (check_get_as parsed.cookies key def, parsed)

  unfoldable pub get_cookie_as : List ℕ → T → HttpRequest → T × HttpRequest
  get_cookie_as key def r = let parsed = init_cookies r in (get_as parsed.cookies key def, parsed)
