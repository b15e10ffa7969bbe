-- ===== src/Http/Method/Names.antt =====
-- The texts of the methods name them.
use server_frame.Prelude.{ℕ, ◌<◌, ◌≡◌, refl, List, ◌++◌, true, ◌==◌, holds_below, holds_at, ==_iff}
use server_frame.Prelude.Text.{c_str, is_prefix}
use server_frame.Http.Method.{string_to_http_method, chars_to_http_method, http_method_to_string}

string_table : holds_below (λ m. string_to_http_method (http_method_to_string m) == m) 34 ≡ true
unfolding holds_below string_to_http_method http_method_to_string c_str
string_table = refl

chars_table :
    (rest : List ℕ)
    → holds_below (λ m. chars_to_http_method (http_method_to_string m ++ rest) == m) 34 ≡ true
unfolding holds_below chars_to_http_method http_method_to_string is_prefix
chars_table rest = refl

-- Each method is read back from its text, by StringToHttpMethod from that text alone, and by
-- CharsToHttpMethod whatever follows it.
pub to_http_method-http_method_to_string :
    (m : ℕ) (rest : List ℕ)
    → m < 34
    → (string_to_http_method (http_method_to_string m) ≡ m)
      × (chars_to_http_method (http_method_to_string m ++ rest) ≡ m)
to_http_method-http_method_to_string m rest l = (
  (==_iff _ m).0
      (holds_at (λ m. string_to_http_method (http_method_to_string m) == m) 34 m l string_table),
  (==_iff _ m).0 (
      holds_at (λ m. chars_to_http_method (http_method_to_string m ++ rest) == m) 34 m l
        (chars_table rest)),
)
