-- ===== src/Http/Response.antt =====
-- HttpResponse of server_frame/http/http.h and http.cc. A string is the list of its bytes.
pub mod Setters
use server_frame.Prelude.{
  ℕ, zero, suc, ℤ, pos, negsuc, List, [], ◌∷◌, ◌++◌, Bool, true, false, not, if◌then◌else◌,
}
use server_frame.Prelude.Text.{codes, decimal}
use server_frame.Http.Fields.{Fields, find_or, assign, erase}
use server_frame.Http.Request.{HttpRequest}
use server_frame.Http.Status.{http_status_to_string}
use server_frame.Http.Dump.{crlf, is_empty, version_text, connection_line, header_lines, ending}

pub record HttpResponse : Type 0 where
  pub status : ℕ
  pub version : ℕ
  pub close : Bool
  pub websocket : Bool
  pub body : List ℕ
  pub reason : List ℕ
  pub headers : Fields
  pub cookies : List (List ℕ)

unfoldable pub new_response : ℕ → Bool → HttpResponse
new_response version close = record {
  status = 200;
  version = version;
  close = close;
  websocket = false;
  body = [];
  reason = [];
  headers = [];
  cookies = [];
}

-- HttpRequest::CreateResponse.
unfoldable pub create_response : HttpRequest → HttpResponse
create_response r = new_response r.version r.close

unfoldable pub get_header : List ℕ → List ℕ → HttpResponse → List ℕ
get_header key def r = find_or key def r.headers

unfoldable pub set_header : List ℕ → List ℕ → HttpResponse → HttpResponse
set_header key val r = record r { headers = assign key val r.headers }

unfoldable pub del_header : List ℕ → HttpResponse → HttpResponse
del_header key r = record r { headers = erase key r.headers }

unfoldable pub set_redirect : List ℕ → HttpResponse → HttpResponse
set_redirect uri r = set_header (codes "Location") uri (record r { status = 302 })

abbrev pub is_positive : ℤ → Bool
is_positive (pos zero) = false
is_positive (pos (suc n)) = true
is_positive (negsuc n) = false

-- `time2str` is TimeUtil::Time2Str with the format of the call, which the C library's strftime
-- writes.
unfoldable pub set_cookie :
    (ℤ → List ℕ) → List ℕ → List ℕ → ℤ → List ℕ → List ℕ → Bool → HttpResponse → HttpResponse
set_cookie time2str key val expired path domain secure r =
    let cookie =
      key
      ++ codes "="
      ++ val
      ++ (if is_positive expired then codes ";expires=" ++ time2str expired ++ codes " GMT" else [])
      ++ (if not (is_empty domain) then codes ";domain=" ++ domain else [])
      ++ (if not (is_empty path) then codes ";path=" ++ path else [])
      ++ (if secure then codes ";secure" else []) in
    record r { cookies = r.cookies ++ (cookie ∷ []) }

unfoldable pub cookie_lines : List (List ℕ) → List ℕ
cookie_lines [] = []
cookie_lines (c ∷ cookies) = codes "Set-Cookie: " ++ c ++ crlf ++ cookie_lines cookies

unfoldable pub dump : HttpResponse → List ℕ
dump r =
    version_text r.version
    ++ codes " "
    ++ decimal r.status
    ++ codes " "
    ++ (if is_empty r.reason then http_status_to_string r.status else r.reason)
    ++ crlf
    ++ header_lines r.websocket r.headers
    ++ cookie_lines r.cookies
    ++ connection_line r.websocket r.close
    ++ ending r.body
