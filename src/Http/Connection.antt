-- ===== src/Http/Connection.antt =====
-- What the connection header does to a request and a response that are written.
use server_frame.Prelude.{ℕ, ◌≡◌, List, Bool, true, false}
use server_frame.Http.Fields.{Fields, assign}
use server_frame.Http.Dump.{header_lines}
use server_frame.Http.Dump.Headers.{is_connection, header_lines-assign}
use server_frame.Http.Request
use server_frame.Http.Request.{HttpRequest}
use server_frame.Http.Response
use server_frame.Http.Response.{HttpResponse}

lines_kept :
    (websocket : Bool) (key val : List ℕ) (m : Fields)
    → websocket ≡ false
    → is_connection key ≡ true
    → header_lines websocket (assign key val m) ≡ header_lines websocket m
lines_kept true key val m e h = cc
lines_kept false key val m e h = header_lines-assign key val m h

same_request :
    (key val : List ℕ) (r : HttpRequest)
    → is_connection key ≡ true
    → r.websocket ≡ false
    → Request.dump (Request.set_header key val r) ≡ Request.dump r
unfolding Request.dump Request.set_header
same_request key val r h e = rw (lines_kept r.websocket key val r.headers e h)

same_response :
    (key val : List ℕ) (r : HttpResponse)
    → is_connection key ≡ true
    → r.websocket ≡ false
    → Response.dump (Response.set_header key val r) ≡ Response.dump r
unfolding Response.dump Response.set_header
same_response key val r h e = rw (lines_kept r.websocket key val r.headers e h)

-- In a message that is no websocket's, a header that is spelled `connection` in whatever case
-- leaves what Dump writes as it is, for a request and for a response: the line of the connection
-- comes from `close_` alone.
pub dump-set_header :
    (key val : List ℕ) (request : HttpRequest) (response : HttpResponse)
    → is_connection key ≡ true
    → request.websocket ≡ false
    → response.websocket ≡ false
    → (Request.dump (Request.set_header key val request) ≡ Request.dump request)
      × (Response.dump (Response.set_header key val response) ≡ Response.dump response)
dump-set_header key val request response h e f =
    (same_request key val request h e, same_response key val response h f)
