-- ===== src/Util/Url.antt =====
-- StringUtil::UrlEncode and UrlDecode of server_frame/util.cc. A string is the list of its bytes.
-- Both copy the string only from the first byte on that changes, which `ss` keeps.
pub mod Reference
pub mod RoundTrip
pub mod Letters
use server_frame.Prelude.{
  ℕ, zero, suc, ◌+◌, ◌-◌, ◌*◌, ◌/◌, ◌%◌, List, [], ◌∷◌, ◌++◌, Option, none, some, Bool, true, false,
  not, ◌&&◌, ◌||◌, leb, ◌==◌, if◌then◌else◌, replicate, get_or, bit_or,
}

-- The rows of the table from 32 and from 64 on; the other bytes are 0.
abbrev uri_chars : List ℕ
uri_chars =
    replicate 45 0
    ++ (1 ∷ 1 ∷ 0 ∷ [])
    ++ replicate 10 1
    ++ (0 ∷ 0 ∷ 0 ∷ 1 ∷ 0 ∷ 0 ∷ [])
    ++ (0 ∷ replicate 26 1)
    ++ (0 ∷ 0 ∷ 0 ∷ 0 ∷ 1 ∷ [])
    ++ (0 ∷ replicate 26 1)
    ++ (0 ∷ 0 ∷ 0 ∷ 1 ∷ 0 ∷ [])
    ++ replicate 128 0

abbrev xdigit_chars : List ℕ
xdigit_chars =
    replicate 48 0
    ++ (0 ∷ 1 ∷ 2 ∷ 3 ∷ 4 ∷ 5 ∷ 6 ∷ 7 ∷ 8 ∷ 9 ∷ [])
    ++ replicate 7 0
    ++ (10 ∷ 11 ∷ 12 ∷ 13 ∷ 14 ∷ 15 ∷ [])
    ++ replicate 26 0
    ++ (10 ∷ 11 ∷ 12 ∷ 13 ∷ 14 ∷ 15 ∷ [])
    ++ replicate 153 0

-- "0123456789ABCDEF".
abbrev pub hexdigits : List ℕ
hexdigits = 48 ∷ 49 ∷ 50 ∷ 51 ∷ 52 ∷ 53 ∷ 54 ∷ 55 ∷ 56 ∷ 57 ∷ 65 ∷ 66 ∷ 67 ∷ 68 ∷ 69 ∷ 70 ∷ []

unfoldable pub is_unreserved : ℕ → Bool
is_unreserved c = not (get_or 0 uri_chars c == 0)

unfoldable pub hex_char : ℕ → ℕ
hex_char d = get_or 0 hexdigits d

unfoldable pub xdigit : ℕ → ℕ
xdigit c = get_or 0 xdigit_chars c

-- isxdigit of the C library.
unfoldable pub is_xdigit : ℕ → Bool
is_xdigit c = leb 48 c && leb c 57 || leb 65 c && leb c 70 || leb 97 c && leb c 102

-- What stands for the bytes so far: `ss`, or the bytes themselves.
abbrev pub text : List ℕ → Option (List ℕ) → List ℕ
text before ss = elim ss [ none ↦ before | some t ↦ t ]

abbrev pub keep : Option (List ℕ) → ℕ → Option (List ℕ)
keep ss c = elim ss [ none ↦ none | some t ↦ some (t ++ (c ∷ [])) ]

-- One turn of the loop of UrlEncode, behind the bytes `before`.
unfoldable pub encode_char : Bool → List ℕ → Option (List ℕ) → ℕ → Option (List ℕ)
unfolding is_unreserved hex_char
encode_char space_as_plus before ss c =
    if not (is_unreserved c)
    then if c == 32 && space_as_plus
      then some (text before ss ++ (43 ∷ []))
      else some (text before ss ++ (37 ∷ hex_char (c / 16) ∷ hex_char (c % 16) ∷ []))
    else keep ss c

unfoldable pub encode_loop : Bool → List ℕ → Option (List ℕ) → List ℕ → Option (List ℕ)
unfolding encode_char
encode_loop space_as_plus before ss [] = ss
encode_loop space_as_plus before ss (c ∷ cs) =
    encode_loop space_as_plus (before ++ (c ∷ [])) (encode_char space_as_plus before ss c) cs

unfoldable pub url_encode : Bool → List ℕ → List ℕ
unfolding encode_loop
url_encode space_as_plus str = text str (encode_loop space_as_plus [] none str)

-- One turn of the loop of UrlDecode that consumes one byte.
unfoldable pub decode_char : Bool → List ℕ → Option (List ℕ) → ℕ → Option (List ℕ)
decode_char space_as_plus before ss c =
    if c == 43 && space_as_plus then some (text before ss ++ (32 ∷ [])) else keep ss c

unfoldable pub escaped : ℕ → ℕ → ℕ
unfolding xdigit
escaped d e = bit_or (xdigit d * 16) (xdigit e) % 256

unfoldable pub is_escape : ℕ → ℕ → ℕ → Bool
unfolding is_xdigit
is_escape c d e = c == 37 && is_xdigit d && is_xdigit e

-- An escape starts only where two more bytes follow.
unfoldable pub decode_loop : Bool → List ℕ → Option (List ℕ) → List ℕ → Option (List ℕ)
unfolding decode_char escaped is_escape
decode_loop space_as_plus before ss [] = ss
decode_loop space_as_plus before ss (c ∷ []) = decode_char space_as_plus before ss c
decode_loop space_as_plus before ss (c ∷ d ∷ []) =
    decode_loop space_as_plus (before ++ (c ∷ [])) (decode_char space_as_plus before ss c) (d ∷ [])
decode_loop space_as_plus before ss (c ∷ d ∷ e ∷ rest) =
    let one =
      decode_loop space_as_plus (before ++ (c ∷ [])) (decode_char space_as_plus before ss c)
        (d ∷ e ∷ rest) in
    let three =
      decode_loop space_as_plus (before ++ (c ∷ d ∷ e ∷ []))
        (some (text before ss ++ (escaped d e ∷ []))) rest in
    if not (c == 43 && space_as_plus) && is_escape c d e then three else one

unfoldable pub url_decode : Bool → List ℕ → List ℕ
unfolding decode_loop
url_decode space_as_plus str = text str (decode_loop space_as_plus [] none str)
