-- ===== src/Util/Url/Letters.antt =====
-- The bytes of an encoded string.
use server_frame.Prelude.{
  ℕ, ◌/◌, ◌%◌, ◌≡◌, ◌≢◌, sym, ap, ◌∙◌, List, [], ◌∷◌, Bool, true, false, ◌&&◌, ◌==◌, Bool-cases,
  inl, inr, All, All-append, arith, get_or, zero, suc,
}
use server_frame.Util.Url.{is_unreserved, hex_char, hexdigits, url_encode}
use server_frame.Util.Url.Reference.{escape_char, escape, url_encode-escape}

get_or-All : (P : ℕ → Type 0) (xs : List ℕ) (i : ℕ) → P 0 → All P xs → P (get_or 0 xs i)
get_or-All P [] i d h = d
get_or-All P (x ∷ xs) zero d (h, hs) = h
get_or-All P (x ∷ xs) (suc i) d (h, hs) = get_or-All P xs i d hs

hex_char-ne : (d : ℕ) → hex_char d ≢ 38
unfolding hex_char
hex_char-ne d = get_or-All (λ c. c ≢ 38) hexdigits d (omega arith) (omega arith)

unreserved-ne : (c : ℕ) → is_unreserved c ≡ true → c ≢ 38
unfolding is_unreserved
unreserved-ne c u e = let f : false ≡ true = ap is_unreserved (sym e) ∙ u in cc

escape_char-ne : (p : Bool) (c : ℕ) → All (λ d. d ≢ 38) (escape_char p c)
escape_char-ne p c = elim (Bool-cases (is_unreserved c)) [
  | inl u ↦ rw u (unreserved-ne c u, tt)
  | inr u ↦ elim (Bool-cases (c == 32 && p)) [
    | inl s ↦ rw (u, s) (omega arith)
    | inr s ↦ rw (u, s) (omega arith, (hex_char-ne (c / 16), (hex_char-ne (c % 16), tt)))
  ]
]

escape-ne : (p : Bool) (str : List ℕ) → All (λ d. d ≢ 38) (escape p str)
unfolding escape
escape-ne p [] = tt
escape-ne p (c ∷ cs) =
    All-append (λ d. d ≢ 38) (escape_char p c) (escape p cs) (escape_char-ne p c) (escape-ne p cs)

-- No byte of an encoded string is an ampersand.
pub url_encode-ne : (p : Bool) (str : List ℕ) → All (λ d. d ≢ 38) (url_encode p str)
url_encode-ne p str = rw (url_encode-escape p str) (escape-ne p str)
