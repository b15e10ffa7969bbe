-- ===== src/Http/Response/Setters.antt =====
-- The setters of HttpResponse that only store a value.
use server_frame.Prelude.{ℕ, List, Bool}
use server_frame.Http.Fields.{Fields}
use server_frame.Http.Response.{HttpResponse}

unfoldable pub set_status : ℕ → HttpResponse → HttpResponse
set_status v r = record r { status = v }

unfoldable pub set_version : ℕ → HttpResponse → HttpResponse
set_version v r = record r { version = v }

unfoldable pub set_body : List ℕ → HttpResponse → HttpResponse
set_body v r = record r { body = v }

unfoldable pub set_reason : List ℕ → HttpResponse → HttpResponse
set_reason v r = record r { reason = v }

unfoldable pub set_headers : Fields → HttpResponse → HttpResponse
set_headers v r = record r { headers = v }

unfoldable pub set_close : Bool → HttpResponse → HttpResponse
set_close v r = record r { close = v }

unfoldable pub set_websocket : Bool → HttpResponse → HttpResponse
set_websocket v r = record r { websocket = v }
