-- ===== src/Http/Method.antt =====
-- The methods and the status codes of server_frame/http/http.h, and their texts in http.cc. An
-- enumerator is its number.
pub mod Names
use server_frame.Prelude.{
  ℕ, suc, List, [], ◌∷◌, Option, none, some, Bool, true, false, ◌==◌, if◌then◌else◌, get_or, same,
}
use server_frame.Prelude.Text.{codes, c_str, is_prefix}

-- HTTP_METHOD_MAP, by number.
abbrev pub methods : List (List ℕ)
methods =
    codes "DELETE"
    ∷ codes "GET"
    ∷ codes "HEAD"
    ∷ codes "POST"
    ∷ codes "PUT"
    ∷ codes "CONNECT"
    ∷ codes "OPTIONS"
    ∷ codes "TRACE"
    ∷ codes "COPY"
    ∷ codes "LOCK"
    ∷ codes "MKCOL"
    ∷ codes "MOVE"
    ∷ codes "PROPFIND"
    ∷ codes "PROPPATCH"
    ∷ codes "SEARCH"
    ∷ codes "UNLOCK"
    ∷ codes "BIND"
    ∷ codes "REBIND"
    ∷ codes "UNBIND"
    ∷ codes "ACL"
    ∷ codes "REPORT"
    ∷ codes "MKACTIVITY"
    ∷ codes "CHECKOUT"
    ∷ codes "MERGE"
    ∷ codes "M-SEARCH"
    ∷ codes "NOTIFY"
    ∷ codes "SUBSCRIBE"
    ∷ codes "UNSUBSCRIBE"
    ∷ codes "PATCH"
    ∷ codes "PURGE"
    ∷ codes "MKCALENDAR"
    ∷ codes "LINK"
    ∷ codes "UNLINK"
    ∷ codes "SOURCE"
    ∷ []

abbrev pub invalid_method : ℕ
invalid_method = 34

-- The number of the first entry that passes the test, and of the end where none does.
abbrev pub first_index : (List ℕ → Bool) → List (List ℕ) → ℕ
first_index test [] = 0
first_index test (name ∷ names) =
    let rest = suc (first_index test names) in if test name then 0 else rest

unfoldable pub string_to_http_method : List ℕ → ℕ
string_to_http_method m = first_index (λ name. same name (c_str m)) methods

unfoldable pub chars_to_http_method : List ℕ → ℕ
chars_to_http_method m = first_index (λ name. is_prefix name m) methods

unfoldable pub http_method_to_string : ℕ → List ℕ
http_method_to_string m = get_or (codes "<unknown>") methods m
