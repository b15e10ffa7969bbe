-- ===== src/Util/Url/RoundTrip.antt =====
-- Decoding undoes encoding.
use server_frame.Prelude.{
  ℕ, ◌/◌, ◌%◌, ◌<◌, ◌≡◌, ◌≢◌, refl, sym, ap, ◌∙◌, List, [], ◌∷◌, ◌++◌, Bool, true, false, ◌&&◌,
  ◌==◌, Bool-cases, inl, inr, holds_below, holds_at, ==_iff, ==-false, All, arith,
}
use server_frame.Util.Url.{
  is_unreserved, hex_char, xdigit, is_xdigit, escaped, is_escape, url_encode, url_decode,
}
use server_frame.Util.Url.Reference.{
  escape_char, escape, unescape_char, unescape, url_encode-escape, url_decode-unescape,
}

hex_char_table : holds_below (λ d. is_xdigit (hex_char d) && xdigit (hex_char d) == d) 16 ≡ true
unfolding holds_below hex_char is_xdigit xdigit
hex_char_table = refl

hex_char_lem : (d : ℕ) → d < 16 → (is_xdigit (hex_char d) ≡ true) × (xdigit (hex_char d) ≡ d)
hex_char_lem d l =
    let h =
      holds_at (λ d. is_xdigit (hex_char d) && xdigit (hex_char d) == d) 16 d l hex_char_table in
    ground (arith, h)

byte_table : holds_below (λ c. escaped (hex_char (c / 16)) (hex_char (c % 16)) == c) 256 ≡ true
unfolding holds_below hex_char escaped
byte_table = refl

escaped-hex_char : (c : ℕ) → c < 256 → escaped (hex_char (c / 16)) (hex_char (c % 16)) ≡ c
escaped-hex_char c l =
    (==_iff _ c).0
      (holds_at (λ c. escaped (hex_char (c / 16)) (hex_char (c % 16)) == c) 256 c l byte_table)

unescape_plain :
    (p : Bool) (c : ℕ) (xs : List ℕ)
    → (c == 37) ≡ false
    → unescape p (c ∷ xs) ≡ unescape_char p c ∷ unescape p xs
unfolding unescape is_escape
unescape_plain p c [] n = refl
unescape_plain p c (d ∷ []) n = refl
unescape_plain p c (d ∷ e ∷ rest) n = elim (Bool-cases (c == 43 && p)) [
  | inl s ↦ rw (unescape, s)
  | inr s ↦ rw (unescape, s, n)
]

unescape_escape :
    (p : Bool) (d e : ℕ) (rest : List ℕ)
    → is_xdigit d ≡ true
    → is_xdigit e ≡ true
    → unescape p (37 ∷ d ∷ e ∷ rest) ≡ escaped d e ∷ unescape p rest
unfolding unescape is_escape
unescape_escape p d e rest h k = rw (h, k)

-- A byte that is kept is neither a percent sign nor a plus sign.
kept_byte : (c : ℕ) → is_unreserved c ≡ true → (c ≢ 37) × (c ≢ 43)
unfolding is_unreserved
kept_byte c u = (
  λ e. let f : false ≡ true = ap is_unreserved (sym e) ∙ u in cc,
  λ e. let f : false ≡ true = ap is_unreserved (sym e) ∙ u in cc,
)

unescape-escape_char :
    (encoding decoding : Bool) (c : ℕ) (xs : List ℕ)
    → (encoding ≡ true → decoding ≡ true)
    → c < 256
    → unescape decoding (escape_char encoding c ++ xs) ≡ c ∷ unescape decoding xs
unescape-escape_char p q c xs h l = elim (Bool-cases (is_unreserved c)) [
  | inl u ↦
      let (n, m) = kept_byte c u in
      rw u (unescape_plain q c xs (==-false c 37 n) ∙ rw (==-false c 43 m))
  | inr u ↦ elim (Bool-cases (c == 32 && p)) [
    | inl s ↦
        let (space, plus) : (c ≡ 32) × (p ≡ true) = ground arith in
        rw (u, s) (unescape_plain q 43 xs refl ∙ rw (h plus, space))
    | inr s ↦
        let (high, _) = hex_char_lem (c / 16) (omega arith) in
        let (low, _) = hex_char_lem (c % 16) (omega arith) in
        rw (u, s)
          (unescape_escape q (hex_char (c / 16)) (hex_char (c % 16)) xs high low
            ∙ ap (λ b. b ∷ unescape q xs) (escaped-hex_char c l))
  ]
]

unescape-escape :
    (encoding decoding : Bool) (str : List ℕ)
    → (encoding ≡ true → decoding ≡ true)
    → All (λ c. c < 256) str
    → unescape decoding (escape encoding str) ≡ str
unfolding escape
unescape-escape p q [] h l = unfold unescape in refl
unescape-escape p q (c ∷ cs) h (l, ls) =
    unescape-escape_char p q c (escape p cs) h l ∙ ap (◌∷◌ c) (unescape-escape p q cs h ls)

-- UrlDecode gives back every string that UrlEncode encodes, where it reads a plus sign as a space
-- if UrlEncode writes one for it.
pub url_decode-url_encode :
    (encoding decoding : Bool) (str : List ℕ)
    → (encoding ≡ true → decoding ≡ true)
    → All (λ c. c < 256) str
    → url_decode decoding (url_encode encoding str) ≡ str
url_decode-url_encode p q str h l =
    url_decode-unescape q (url_encode p str)
    ∙ ap (unescape q) (url_encode-escape p str)
    ∙ unescape-escape p q str h l
