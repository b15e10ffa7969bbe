-- ===== src/Http/Request.antt =====
-- HttpRequest of server_frame/http/http.h and http.cc. A string is the list of its bytes.
pub mod Parameters
pub mod Access
pub mod Parsing
pub mod Setters
use server_frame.Prelude.{
  ℕ, zero, suc, ◌+◌, ◌/◌, ◌%◌, List, [], ◌∷◌, ◌++◌, Option, none, some, Bool, true, false, not,
  ◌&&◌, ◌||◌, ◌==◌, if◌then◌else◌, length, map,
}
use server_frame.Prelude.Splits.{cut}
use server_frame.Prelude.Text.{codes, c_str, to_lower, folded, same_folded, is_part, decimal}
use server_frame.Util.Url.{url_decode}
use server_frame.Util.Trim.{trim, blanks}
use server_frame.Http.Fields.{Fields, find, find_or, assign, insert, erase}
use server_frame.Http.Dump.{crlf, is_empty, version_text, connection_line, header_lines, ending}
use server_frame.Http.Method.{http_method_to_string}

-- The three bits of parser_param_flag_ stand in three fields.
pub record HttpRequest : Type 0 where
  pub method : ℕ
  pub version : ℕ
  pub close : Bool
  pub websocket : Bool
  pub query_parsed : Bool
  pub body_parsed : Bool
  pub cookies_parsed : Bool
  pub path : List ℕ
  pub query : List ℕ
  pub fragment : List ℕ
  pub body : List ℕ
  pub headers : Fields
  pub params : Fields
  pub cookies : Fields

unfoldable pub new_request : ℕ → Bool → HttpRequest
new_request version close = record {
  method = 1;
  version = version;
  close = close;
  websocket = false;
  query_parsed = false;
  body_parsed = false;
  cookies_parsed = false;
  path = codes "/";
  query = [];
  fragment = [];
  body = [];
  headers = [];
  params = [];
  cookies = [];
}

unfoldable pub get_header : List ℕ → List ℕ → HttpRequest → List ℕ
get_header key def r = find_or key def r.headers

unfoldable pub set_header : List ℕ → List ℕ → HttpRequest → HttpRequest
set_header key val r = record r { headers = assign key val r.headers }

unfoldable pub set_param : List ℕ → List ℕ → HttpRequest → HttpRequest
set_param key val r = record r { params = assign key val r.params }

unfoldable pub set_cookie : List ℕ → List ℕ → HttpRequest → HttpRequest
set_cookie key val r = record r { cookies = assign key val r.cookies }

unfoldable pub del_header : List ℕ → HttpRequest → HttpRequest
del_header key r = record r { headers = erase key r.headers }

unfoldable pub del_param : List ℕ → HttpRequest → HttpRequest
del_param key r = record r { params = erase key r.params }

unfoldable pub del_cookie : List ℕ → HttpRequest → HttpRequest
del_cookie key r = record r { cookies = erase key r.cookies }

unfoldable pub has_header : List ℕ → HttpRequest → Option (List ℕ)
has_header key r = find key r.headers

-- PARSE_PARAM, from `pos` on. A turn leaves less of the string, so its length and one more are fuel
-- enough.
unfoldable pub parse_param : (List ℕ → List ℕ) → ℕ → ℕ → List ℕ → Fields → Fields
parse_param trimmed flag zero str m = m
parse_param trimmed flag (suc fuel) str m = elim (cut 61 str) [
  | none ↦ m
  | some (key, rest) ↦ elim (cut flag rest) [
    | none ↦ insert (trimmed key) (url_decode true rest) m
    | some (val, more) ↦
        parse_param trimmed flag fuel more (insert (trimmed key) (url_decode true val) m)
  ]
]

abbrev untrimmed : List ℕ → List ℕ
untrimmed key = key

unfoldable pub init_query_param : HttpRequest → HttpRequest
init_query_param r = if r.query_parsed then r else record r {
  params = parse_param untrimmed 38 (suc (length r.query)) r.query r.params;
  query_parsed = true;
}

-- strcasestr(content_type, "application/x-www-form-urlencoded") != nullptr.
unfoldable pub is_form : HttpRequest → Bool
is_form r =
    is_part (codes "application/x-www-form-urlencoded")
      (folded (get_header (codes "content-type") [] r))

unfoldable pub init_body_param : HttpRequest → HttpRequest
init_body_param r =
    if r.body_parsed
    then r
    else if not (is_form r)
    then record r { body_parsed = true }
    else record r {
      params = parse_param untrimmed 38 (suc (length r.body)) r.body r.params;
      body_parsed = true;
    }

-- An empty cookie is not parsed; the fields that stay are empty.
unfoldable pub init_cookies : HttpRequest → HttpRequest
init_cookies r =
    let cookie = get_header (codes "cookie") [] r in
    if r.cookies_parsed
    then r
    else if elim cookie [ [] ↦ true | x ∷ xs ↦ false ]
    then record r { cookies_parsed = true }
    else record r {
      cookies = parse_param (trim blanks) 59 (suc (length cookie)) cookie r.cookies;
      cookies_parsed = true;
    }

unfoldable pub init_param : HttpRequest → HttpRequest
init_param r = init_cookies (init_body_param (init_query_param r))

-- The accessors that parse first return the request too.
unfoldable pub get_param : List ℕ → List ℕ → HttpRequest → List ℕ × HttpRequest
get_param key def r =
    let parsed = init_body_param (init_query_param r) in (find_or key def parsed.params, parsed)

unfoldable pub get_cookie : List ℕ → List ℕ → HttpRequest → List ℕ × HttpRequest
get_cookie key def r = let parsed = init_cookies r in (find_or key def parsed.cookies, parsed)

unfoldable pub has_param : List ℕ → HttpRequest → Option (List ℕ) × HttpRequest
has_param key r =
    let parsed = init_body_param (init_query_param r) in (find key parsed.params, parsed)

unfoldable pub has_cookie : List ℕ → HttpRequest → Option (List ℕ) × HttpRequest
has_cookie key r = let parsed = init_cookies r in (find key parsed.cookies, parsed)

unfoldable pub init : HttpRequest → HttpRequest
init r =
    let conn = get_header (codes "connection") [] r in
    if elim conn [ [] ↦ true | x ∷ xs ↦ false ]
    then r
    else record r { close = not (same_folded conn (codes "keep-alive")) }

unfoldable pub dump : HttpRequest → List ℕ
dump r =
    http_method_to_string r.method
    ++ codes " "
    ++ r.path
    ++ (if is_empty r.query then [] else codes "?")
    ++ r.query
    ++ (if is_empty r.fragment then [] else codes "#")
    ++ r.fragment
    ++ codes " "
    ++ version_text r.version
    ++ crlf
    ++ connection_line r.websocket r.close
    ++ header_lines r.websocket r.headers
    ++ ending r.body
