-- ===== src/Util/Base64/RoundTrip.antt =====
-- Decoding undoes encoding.
use server_frame.Prelude.{
  ℕ, ◌+◌, ◌*◌, ◌/◌, ◌%◌, ◌^◌, ◌<◌, ◌≡◌, refl, ap, ◌∙◌, List, [], ◌∷◌, ◌++◌, none, some, true, false,
  not, ◌&&◌, ◌==◌, ltb, All, holds_below, holds_at, arith, append-nil, Bool-cases, ltb-false, inl,
  inr, ◌≤◌,
}
use server_frame.Prelude.Bits.{bit_or-above}
use server_frame.Util.Base64.{
  digit, encode_block, add_byte, base64encode, value, take_char, four_chars, written, end_block,
  decode_blocks, base64decode, ◌>>=◌,
}

-- What a character means that is no padding.
abbrev value_or : ℕ → ℕ
value_or c = elim (value c) [ none ↦ 64 | some v ↦ v ]

digit_table : holds_below (λ d. not (digit d == 61) && value_or (digit d) == d) 64 ≡ true
unfolding holds_below digit value
digit_table = refl

digit_lem : (d : ℕ) → d < 64 → ((digit d == 61) ≡ false) × (value (digit d) ≡ some d)
digit_lem d l =
    let h = holds_at (λ d. not (digit d == 61) && value_or (digit d) == d) 64 d l digit_table in
    ground (arith, h)

take_char-digit :
    (d packed : ℕ) → d < 64 → take_char (digit d) (0, packed) ≡ some (0, packed * 64 + d)
unfolding take_char
take_char-digit d packed l =
    let (e, v) = digit_lem d l in
    rw (take_char, e, v) (ap (λ x. some (0, x)) (bit_or-above 6 d packed l))

take_char-padding : (k packed : ℕ) → take_char 61 (k, packed) ≡ some (k + 1, packed * 64)
unfolding take_char
take_char-padding k packed = refl

four_steps :
    (a b c d : ℕ) (s t u v : ℕ × ℕ)
    → take_char a (0, 0) ≡ some s
    → take_char b s ≡ some t
    → take_char c t ≡ some u
    → take_char d u ≡ some v
    → four_chars a b c d ≡ some v
unfolding four_chars
four_steps a b c d s t u v e f g h =
    ap (λ o. o >>= take_char b >>= take_char c >>= take_char d) e
    ∙ ap (λ o. o >>= take_char c >>= take_char d) f
    ∙ ap (λ o. o >>= take_char d) g
    ∙ h

module _ (p q : ℕ) (lp : p < 64) (lq : q < 64) where
  abbrev twice : ℕ
  twice = (0 * 64 + p) * 64 + q

  pub four_chars_two : four_chars (digit p) (digit q) 61 61 ≡ some (2, (p * 64 + q) * 4096)
  four_chars_two =
      four_steps (digit p) (digit q) 61 61 (0, 0 * 64 + p) (0, twice) (1, twice * 64)
        (2, twice * 64 * 64) (take_char-digit p 0 lp) (take_char-digit q (0 * 64 + p) lq)
        (take_char-padding 0 twice) (take_char-padding 1 (twice * 64))
      ∙ ap (λ x. some (2, x)) (omega arith)

  module _ (r : ℕ) (lr : r < 64) where
    pub four_chars_three :
        four_chars (digit p) (digit q) (digit r) 61 ≡ some (1, ((p * 64 + q) * 64 + r) * 64)
    four_chars_three =
        four_steps (digit p) (digit q) (digit r) 61 (0, 0 * 64 + p) (0, twice) (0, twice * 64 + r)
          (1, (twice * 64 + r) * 64) (take_char-digit p 0 lp) (take_char-digit q (0 * 64 + p) lq)
          (take_char-digit r twice lr) (take_char-padding 0 (twice * 64 + r))
        ∙ ap (λ x. some (1, x)) (omega arith)

    pub four_chars_four :
        (s : ℕ)
        → s < 64
        → four_chars (digit p) (digit q) (digit r) (digit s)
          ≡ some (0, ((p * 64 + q) * 64 + r) * 64 + s)
    four_chars_four s ls =
        four_steps (digit p) (digit q) (digit r) (digit s) (0, 0 * 64 + p) (0, twice)
          (0, twice * 64 + r) (0, (twice * 64 + r) * 64 + s) (take_char-digit p 0 lp)
          (take_char-digit q (0 * 64 + p) lq) (take_char-digit r twice lr)
          (take_char-digit s (twice * 64 + r) ls)
        ∙ ap (λ x. some (0, x)) (omega arith)

decode_last :
    (a b c d padding packed : ℕ)
    → four_chars a b c d ≡ some (padding, packed)
    → padding ≤ 2
    → decode_blocks (a ∷ b ∷ c ∷ d ∷ []) ≡ (written padding packed, true)
unfolding decode_blocks end_block
decode_last a b c d padding packed e l = rw e (elim (Bool-cases (ltb 0 padding)) [
  | inl f ↦
      rw (f, ltb-false 2 padding l) (ap (λ k. (k, true)) (append-nil (written padding packed)))
  | inr f ↦
      rw (f, ltb-false 2 padding l) (ap (λ k. (k, true)) (append-nil (written padding packed)))
])

decode_next :
    (a b c d packed : ℕ) (rest bytes : List ℕ)
    → four_chars a b c d ≡ some (0, packed)
    → decode_blocks rest ≡ (bytes, true)
    → decode_blocks (a ∷ b ∷ c ∷ d ∷ rest) ≡ (written 0 packed ++ bytes, true)
unfolding decode_blocks end_block
decode_next a b c d packed rest bytes e f = rw (e, f)

add_byte_lem : (packed b : ℕ) → packed < 2 ^ 16 → b < 256 → add_byte packed b ≡ packed * 256 + b
add_byte_lem packed b l k =
    let e : packed * 2 ^ 8 % 2 ^ 32 ≡ packed * 2 ^ 8 = omega arith in
    rw e (bit_or-above 8 b packed k)

module _ (a b : ℕ) (l : a < 256) (k : b < 256) where
  written_two : (n : ℕ) → n ≡ (a * 256 + b) * 256 → written 1 n ≡ a ∷ b ∷ []
  unfolding written
  written_two n e =
      let first : n / 2 ^ 16 % 256 ≡ a = omega arith in
      let second : n / 2 ^ 8 % 256 ≡ b = omega arith in rw (first, second)

  written_three : (c n : ℕ) → c < 256 → n ≡ (a * 256 + b) * 256 + c → written 0 n ≡ a ∷ b ∷ c ∷ []
  unfolding written
  written_three c n j e =
      let first : n / 2 ^ 16 % 256 ≡ a = omega arith in
      let second : n / 2 ^ 8 % 256 ≡ b = omega arith in
      let third : n % 256 ≡ c = omega arith in rw (first, second, third)

-- The three cases of a block.
block_one :
    (a : ℕ)
    → a < 256
    → decode_blocks (encode_block (add_byte 0 a * 2 ^ 8 * 2 ^ 8 % 2 ^ 32) 2) ≡ (a ∷ [], true)
unfolding encode_block written
block_one a l =
    let e : add_byte 0 a * 2 ^ 8 * 2 ^ 8 % 2 ^ 32 ≡ a * 2 ^ 16 =
      omega (arith, add_byte_lem 0 a (omega arith) l) in
    rw e (
      decode_last _ _ _ _ 2 _
        (four_chars_two (a * 2 ^ 16 / 2 ^ 18) (a * 2 ^ 16 / 2 ^ 12 % 64) (omega arith)
          (omega arith))
        (omega arith)
      ∙ ap (λ x. (x ∷ [], true)) (omega arith))

block_two :
    (a b : ℕ)
    → a < 256
    → b < 256
    → decode_blocks (encode_block (add_byte (add_byte 0 a) b * 2 ^ 8 % 2 ^ 32) 1)
      ≡ (a ∷ b ∷ [], true)
unfolding encode_block
block_two a b l k =
    let first = add_byte_lem 0 a (omega arith) l in
    let both = add_byte_lem (add_byte 0 a) b (omega arith) k in
    let e : add_byte (add_byte 0 a) b * 2 ^ 8 % 2 ^ 32 ≡ (a * 256 + b) * 256 = omega arith in
    let n = (a * 256 + b) * 256 in
    rw e (
      decode_last _ _ _ _ 1 _
        (four_chars_three (n / 2 ^ 18) (n / 2 ^ 12 % 64) (omega arith) (omega arith)
          (n / 2 ^ 6 % 64) (omega arith))
        (omega arith)
      ∙ ap (λ xs. (xs, true)) (written_two a b l k _ (omega arith)))

block_full :
    (a b c : ℕ) (rest bytes : List ℕ)
    → a < 256
    → b < 256
    → c < 256
    → decode_blocks rest ≡ (bytes, true)
    → decode_blocks (encode_block (add_byte (add_byte (add_byte 0 a) b) c) 0 ++ rest)
      ≡ (a ∷ b ∷ c ∷ bytes, true)
unfolding encode_block
block_full a b c rest bytes l k j h =
    let first = add_byte_lem 0 a (omega arith) l in
    let both = add_byte_lem (add_byte 0 a) b (omega arith) k in
    let all = add_byte_lem (add_byte (add_byte 0 a) b) c (omega arith) j in
    let e : add_byte (add_byte (add_byte 0 a) b) c ≡ (a * 256 + b) * 256 + c = omega arith in
    let n = (a * 256 + b) * 256 + c in
    rw e (
      decode_next _ _ _ _ _ rest bytes
        (four_chars_four (n / 2 ^ 18) (n / 2 ^ 12 % 64) (omega arith) (omega arith) (n / 2 ^ 6 % 64)
          (omega arith) (n % 64) (omega arith))
        h
      ∙ ap (λ xs. (xs ++ bytes, true)) (written_three a b l k c _ j (omega arith)))

decode_blocks-base64encode :
    (bs : List ℕ) → All (λ b. b < 256) bs → decode_blocks (base64encode bs) ≡ (bs, true)
unfolding base64encode
decode_blocks-base64encode [] l = unfold decode_blocks in refl
decode_blocks-base64encode (a ∷ []) (l, _) = block_one a l
decode_blocks-base64encode (a ∷ b ∷ []) (l, (k, _)) = block_two a b l k
decode_blocks-base64encode (a ∷ b ∷ c ∷ rest) (l, (k, (j, ls))) =
    block_full a b c (base64encode rest) rest l k j (decode_blocks-base64encode rest ls)

-- base64decode gives back every string of bytes that base64encode encodes.
pub base64decode-base64encode :
    (bs : List ℕ) → All (λ b. b < 256) bs → base64decode (base64encode bs) ≡ bs
unfolding base64decode
base64decode-base64encode bs l = rw (decode_blocks-base64encode bs l)
