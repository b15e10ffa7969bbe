-- ===== src/Tests/Messages.antt =====
-- Runs of requests and responses.
use server_frame.Prelude.{ℕ, ◌++◌, ◌≡◌, refl, List, [], ◌∷◌, some, true, false, arith}
use server_frame.Prelude.Text.{codes, same_folded, decimal}
use server_frame.Http.Method.{string_to_http_method, chars_to_http_method, http_method_to_string}
use server_frame.Http.Method.Names.{to_http_method-http_method_to_string}
use server_frame.Http.Status.{http_status_to_string}
use server_frame.Http.Dump.{version_text, header_lines, connection_line, ending}
use server_frame.Http.Dump.Headers.{is_connection}
use server_frame.Http.Request
use server_frame.Http.Request.{
  HttpRequest, new_request, init_query_param, get_param, has_param, set_param, get_cookie,
  has_cookie, set_cookie,
}
use server_frame.Http.Request.Parameters.{query_of, insert_all, init_query_param-query_of}
use server_frame.Http.Request.Access.{get_param-set_param}
use server_frame.Http.Response
use server_frame.Http.Response.{HttpResponse, new_response}
use server_frame.Http.Connection.{dump-set_header}

to_http_method-http_method_to_string_example :
    (string_to_http_method (http_method_to_string 24) ≡ 24)
    × (chars_to_http_method (http_method_to_string 24 ++ codes " /") ≡ 24)
to_http_method-http_method_to_string_example =
    to_http_method-http_method_to_string 24 (codes " /") (omega arith)

-- Two values of one key.
abbrev pairs : List (List ℕ × List ℕ)
pairs = (codes "id", codes "a&b") ∷ (codes "ID", codes "c d") ∷ []

abbrev asked : HttpRequest
asked = record {
  method = 1;
  version = 17;
  close = true;
  websocket = false;
  query_parsed = false;
  body_parsed = false;
  cookies_parsed = false;
  path = codes "/";
  query = query_of pairs;
  fragment = [];
  body = [];
  headers = [];
  params = [];
  cookies = [];
}

init_query_param-query_of_example :
    init_query_param asked
    ≡ record asked { params = insert_all pairs asked.params; query_parsed = true }
init_query_param-query_of_example = init_query_param-query_of pairs asked (omega arith) refl refl

get_param-set_param_example :
    ((get_param (codes "id") [] (set_param (codes "id") (codes "7") asked)).0 ≡ codes "7")
    × ((has_param (codes "id") (set_param (codes "id") (codes "7") asked)).0 ≡ some (codes "7"))
    × ((get_cookie (codes "id") [] (set_cookie (codes "id") (codes "7") asked)).0 ≡ codes "7")
    × ((has_cookie (codes "id") (set_cookie (codes "id") (codes "7") asked)).0 ≡ some (codes "7"))
get_param-set_param_example = get_param-set_param (codes "id") (codes "7") [] asked

connection : is_connection (codes "Connection") ≡ true
unfolding same_folded
connection = refl

abbrev answer : HttpResponse
answer = record {
  status = 200;
  version = 17;
  close = true;
  websocket = false;
  body = codes "hi";
  reason = [];
  headers = [];
  cookies = [];
}

answered :
    Response.dump answer
    ≡ codes "HTTP/1.1 200 OK"
      ++ (13 ∷ 10 ∷ [])
      ++ codes "connection: close"
      ++ (13 ∷ 10 ∷ [])
      ++ codes "content-length: 2"
      ++ (13 ∷ 10 ∷ 13 ∷ 10 ∷ [])
      ++ codes "hi"
unfolding Response.dump decimal version_text header_lines Response.cookie_lines connection_line
    ending http_status_to_string
answered = refl

dump-set_header_example :
    (Request.dump (Request.set_header (codes "Connection") (codes "x") asked) ≡ Request.dump asked)
    × (Response.dump (Response.set_header (codes "Connection") (codes "x") answer)
        ≡ Response.dump answer)
dump-set_header_example =
    dump-set_header (codes "Connection") (codes "x") asked answer connection refl refl
