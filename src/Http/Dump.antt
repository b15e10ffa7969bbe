-- ===== src/Http/Dump.antt =====
-- What HttpRequest::Dump and HttpResponse::Dump of server_frame/http/http.cc share: the header
-- lines, and the end with the body.
pub mod Headers
use server_frame.Prelude.{
  ℕ, ◌/◌, ◌%◌, List, [], ◌∷◌, ◌++◌, Bool, true, false, not, ◌&&◌, if◌then◌else◌, length,
}
use server_frame.Prelude.Text.{codes, same_folded, decimal}
use server_frame.Http.Fields.{Fields}

abbrev pub crlf : List ℕ
crlf = 13 ∷ 10 ∷ []

abbrev pub is_empty : List ℕ → Bool
is_empty s = elim s [ [] ↦ true | c ∷ cs ↦ false ]

-- `version >> 4`, a point, and `version & 0x0F`.
unfoldable pub version_text : ℕ → List ℕ
version_text version =
    codes "HTTP/" ++ decimal (version / 16) ++ codes "." ++ decimal (version % 16)

unfoldable pub connection_line : Bool → Bool → List ℕ
connection_line websocket close =
    if not websocket
    then codes "connection: " ++ (if close then codes "close" else codes "keep-alive") ++ crlf
    else []

-- One turn of the loop over the headers.
unfoldable pub header_line : Bool → List ℕ → List ℕ → List ℕ
header_line websocket key val =
    if not websocket && same_folded key (codes "connection")
    then []
    else key ++ codes ": " ++ val ++ crlf

unfoldable pub header_lines : Bool → Fields → List ℕ
header_lines websocket [] = []
header_lines websocket ((key, val) ∷ headers) =
    header_line websocket key val ++ header_lines websocket headers

unfoldable pub ending : List ℕ → List ℕ
ending body =
    if not (is_empty body)
    then codes "content-length: " ++ decimal (length body) ++ crlf ++ crlf ++ body
    else crlf
