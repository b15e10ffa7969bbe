-- ===== src/Util/Url/Reference.antt =====
-- The loops of UrlEncode and UrlDecode, which copy lazily, against plain recursions on the string.
use server_frame.Prelude.{
  ℕ, ◌/◌, ◌%◌, ◌≡◌, refl, sym, ap, ◌∙◌, List, [], ◌∷◌, ◌++◌, append-nil, append_assoc, Option, none,
  some, Bool, not, ◌&&◌, ◌==◌, if◌then◌else◌, Bool-cases, inl, inr,
}
use server_frame.Util.Url.{
  is_unreserved, hex_char, text, keep, encode_char, encode_loop, url_encode, decode_char, escaped,
  is_escape, decode_loop, url_decode,
}

-- What one byte becomes.
abbrev pub escape_char : Bool → ℕ → List ℕ
escape_char space_as_plus c =
    if is_unreserved c
    then c ∷ []
    else if c == 32 && space_as_plus
    then 43 ∷ []
    else 37 ∷ hex_char (c / 16) ∷ hex_char (c % 16) ∷ []

unfoldable pub escape : Bool → List ℕ → List ℕ
escape space_as_plus [] = []
escape space_as_plus (c ∷ cs) = escape_char space_as_plus c ++ escape space_as_plus cs

abbrev pub unescape_char : Bool → ℕ → ℕ
unescape_char space_as_plus c = if c == 43 && space_as_plus then 32 else c

unfoldable pub unescape : Bool → List ℕ → List ℕ
unescape space_as_plus [] = []
unescape space_as_plus (c ∷ []) = unescape_char space_as_plus c ∷ []
unescape space_as_plus (c ∷ d ∷ []) =
    unescape_char space_as_plus c ∷ unescape_char space_as_plus d ∷ []
unescape space_as_plus (c ∷ d ∷ e ∷ rest) =
    let one = unescape_char space_as_plus c ∷ unescape space_as_plus (d ∷ e ∷ rest) in
    let three = escaped d e ∷ unescape space_as_plus rest in
    if not (c == 43 && space_as_plus) && is_escape c d e then three else one

text-keep :
    (before : List ℕ) (ss : Option (List ℕ)) (c : ℕ)
    → text (before ++ (c ∷ [])) (keep ss c) ≡ text before ss ++ (c ∷ [])
text-keep before none c = refl
text-keep before (some t) c = refl

text-encode_char :
    (p : Bool) (before : List ℕ) (ss : Option (List ℕ)) (c : ℕ)
    → text (before ++ (c ∷ [])) (encode_char p before ss c) ≡ text before ss ++ escape_char p c
unfolding encode_char
text-encode_char p before ss c = elim (Bool-cases (is_unreserved c)) [
  | inl u ↦ rw (encode_char, u) (text-keep before ss c)
  | inr u ↦ elim (Bool-cases (c == 32 && p)) [
    | inl s ↦ rw (encode_char, u, s)
    | inr s ↦ rw (encode_char, u, s)
  ]
]

text-decode_char :
    (p : Bool) (before : List ℕ) (ss : Option (List ℕ)) (c : ℕ)
    → text (before ++ (c ∷ [])) (decode_char p before ss c)
      ≡ text before ss ++ (unescape_char p c ∷ [])
unfolding decode_char
text-decode_char p before ss c = elim (Bool-cases (c == 43 && p)) [
  | inl s ↦ rw (decode_char, s)
  | inr s ↦ rw (decode_char, s) (text-keep before ss c)
]

text-encode_loop :
    (p : Bool) (before : List ℕ) (ss : Option (List ℕ)) (cs : List ℕ)
    → text (before ++ cs) (encode_loop p before ss cs) ≡ text before ss ++ escape p cs
unfolding encode_loop escape
text-encode_loop p before ss [] = rw (append-nil before, append-nil (text before ss))
text-encode_loop p before ss (c ∷ cs) =
    ap (λ b. text b (encode_loop p before ss (c ∷ cs))) (sym (append_assoc before (c ∷ []) cs))
    ∙ text-encode_loop p (before ++ (c ∷ [])) (encode_char p before ss c) cs
    ∙ ap (λ t. t ++ escape p cs) (text-encode_char p before ss c)
    ∙ append_assoc (text before ss) (escape_char p c) (escape p cs)

-- Two steps: the first byte, and what follows it.
chained :
    (p : Bool) (before : List ℕ) (ss : Option (List ℕ)) (c : ℕ) (cs out : List ℕ)
    (end : Option (List ℕ))
    → text ((before ++ (c ∷ [])) ++ cs) end
      ≡ text (before ++ (c ∷ [])) (decode_char p before ss c) ++ out
    → text (before ++ (c ∷ cs)) end ≡ text before ss ++ (unescape_char p c ∷ out)
chained p before ss c cs out end h =
    ap (λ b. text b end) (sym (append_assoc before (c ∷ []) cs))
    ∙ h
    ∙ ap (λ t. t ++ out) (text-decode_char p before ss c)
    ∙ append_assoc (text before ss) (unescape_char p c ∷ []) out

text-decode_loop :
    (p : Bool) (before : List ℕ) (ss : Option (List ℕ)) (cs : List ℕ)
    → text (before ++ cs) (decode_loop p before ss cs) ≡ text before ss ++ unescape p cs
unfolding decode_loop unescape
text-decode_loop p before ss [] = rw (append-nil before, append-nil (text before ss))
text-decode_loop p before ss (c ∷ []) = text-decode_char p before ss c
text-decode_loop p before ss (c ∷ d ∷ []) =
    chained p before ss c (d ∷ []) (unescape_char p d ∷ [])
      (decode_loop p (before ++ (c ∷ [])) (decode_char p before ss c) (d ∷ []))
      (text-decode_loop p (before ++ (c ∷ [])) (decode_char p before ss c) (d ∷ []))
text-decode_loop p before ss (c ∷ d ∷ e ∷ rest) =
    let one =
      chained p before ss c (d ∷ e ∷ rest) (unescape p (d ∷ e ∷ rest))
        (decode_loop p (before ++ (c ∷ [])) (decode_char p before ss c) (d ∷ e ∷ rest))
        (text-decode_loop p (before ++ (c ∷ [])) (decode_char p before ss c) (d ∷ e ∷ rest)) in
    let three =
      text-decode_loop p (before ++ (c ∷ d ∷ e ∷ [])) (some (text before ss ++ (escaped d e ∷ [])))
        rest in
    elim (Bool-cases (not (c == 43 && p) && is_escape c d e)) [
      | inl y ↦
          rw (decode_loop, unescape, y)
            (ap
                (λ b. text b (
                  decode_loop p (before ++ (c ∷ d ∷ e ∷ []))
                    (some (text before ss ++ (escaped d e ∷ []))) rest))
                (sym (append_assoc before (c ∷ d ∷ e ∷ []) rest))
              ∙ three
              ∙ append_assoc (text before ss) (escaped d e ∷ []) (unescape p rest))
      | inr n ↦ rw (decode_loop, unescape, n) one
    ]

-- UrlEncode gives what a plain pass over the string gives, which keeps the bytes of its table and
-- escapes every other one.
pub url_encode-escape :
    (space_as_plus : Bool) (str : List ℕ) → url_encode space_as_plus str ≡ escape space_as_plus str
unfolding url_encode
url_encode-escape p str = text-encode_loop p [] none str

pub url_decode-unescape :
    (space_as_plus : Bool) (str : List ℕ)
    → url_decode space_as_plus str ≡ unescape space_as_plus str
unfolding url_decode
url_decode-unescape p str = text-decode_loop p [] none str
