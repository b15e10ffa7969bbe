-- ===== src/Util/Hex/RoundTrip.antt =====
-- Decoding undoes encoding, and encoding undoes decoding but for the case of the letters.
use server_frame.Prelude.{
  ℕ, ◌+◌, ◌*◌, ◌/◌, ◌%◌, ◌<◌, ◌^◌, ◌≡◌, refl, sym, ap, ◌∙◌, List, [], ◌∷◌, Option, none, some, true,
  ◌&&◌, leb, ◌==◌, if◌then◌else◌, length, bit_or, arith, All, Bool-cases, Option-cases, inl, inr,
  map,
}
use mathlib.Core.Path.{subst}
use server_frame.Prelude.Bits.{bit_or-shifted}
use server_frame.Util.Hex.{
  hex_digit, hexstring_from_data, digit_value, hex_byte, decode_pairs, data_from_hexstring,
}

digit_value-hex_digit : (c : ℕ) → c < 16 → digit_value (hex_digit c) ≡ some c
unfolding digit_value hex_digit
digit_value-hex_digit c l = ground arith

low_digit : (v w : ℕ) → v < 16 → w < 16 → bit_or w (v * 16 % 256) ≡ v * 16 + w
low_digit v w l k =
    let e : v * 16 % 256 ≡ v * 2 ^ 4 = omega arith in rw e (bit_or-shifted 4 w v k ∙ omega arith)

length-hexstring_from_data : (bs : List ℕ) → length (hexstring_from_data bs) ≡ 2 * length bs
unfolding hexstring_from_data
length-hexstring_from_data [] = refl
length-hexstring_from_data (b ∷ bs) = omega (arith, length-hexstring_from_data bs)

hex_byte-hex_digit :
    (b : ℕ) → b < 256 → hex_byte (hex_digit (b / 16 % 16)) (hex_digit (b % 16)) ≡ some b
unfolding hex_byte
hex_byte-hex_digit b l =
    let high : b / 16 % 16 < 16 = omega arith in
    let low : b % 16 < 16 = omega arith in
    let whole : b / 16 % 16 * 16 + b % 16 ≡ b = omega arith in
    rw (hex_byte, digit_value-hex_digit (b / 16 % 16) high, digit_value-hex_digit (b % 16) low)
      (ap some (low_digit (b / 16 % 16) (b % 16) high low ∙ whole))

decode_step :
    (high low b : ℕ) (rest bs : List ℕ)
    → hex_byte high low ≡ some b
    → decode_pairs rest ≡ some bs
    → decode_pairs (high ∷ low ∷ rest) ≡ some (b ∷ bs)
unfolding decode_pairs
decode_step high low b rest bs e f = rw (decode_pairs, e, f)

decode_pairs-hexstring_from_data :
    (bs : List ℕ) → All (λ b. b < 256) bs → decode_pairs (hexstring_from_data bs) ≡ some bs
unfolding decode_pairs hexstring_from_data
decode_pairs-hexstring_from_data [] l = refl
decode_pairs-hexstring_from_data (b ∷ bs) (l, ls) =
    decode_step (hex_digit (b / 16 % 16)) (hex_digit (b % 16)) b (hexstring_from_data bs) bs
      (hex_byte-hex_digit b l) (decode_pairs-hexstring_from_data bs ls)

-- Every string of bytes is decoded from the hexadecimal string that encodes it, which is twice as
-- long.
pub data_from_hexstring-hexstring_from_data :
    (bs : List ℕ)
    → All (λ b. b < 256) bs
    → (data_from_hexstring (hexstring_from_data bs) ≡ some bs)
      × (length (hexstring_from_data bs) ≡ 2 * length bs)
unfolding data_from_hexstring
data_from_hexstring-hexstring_from_data bs l =
    let size = length-hexstring_from_data bs in
    let even : (length (hexstring_from_data bs) % 2 == 0) ≡ true = ground (arith, size) in
    (rw (even, decode_pairs-hexstring_from_data bs l), size)

-- The small letter of a digit.
abbrev pub lower : ℕ → ℕ
lower c = if leb 65 c && leb c 70 then c + 32 else c

hex_digit-digit_value : (c v : ℕ) → digit_value c ≡ some v → (v < 16) × (hex_digit v ≡ lower c)
unfolding digit_value hex_digit
hex_digit-digit_value c v e = (ground arith, ground arith)

digits :
    (high low b : ℕ)
    → hex_byte high low ≡ some b
    → (v : ℕ) × (w : ℕ) × (digit_value high ≡ some v)
      × (digit_value low ≡ some w)
      × (bit_or w (v * 16 % 256) ≡ b)
unfolding hex_byte
digits high low b e = elim (Option-cases (digit_value high)) [
  | inl f ↦ let g : none ≡ some b = rw (hex_byte, f) at e in cc
  | inr (v, f) ↦ elim (Option-cases (digit_value low)) [
    | inl h ↦ let g : none ≡ some b = rw (hex_byte, f, h) at e in cc
    | inr (w, h) ↦
        let g : some (bit_or w (v * 16 % 256)) ≡ some b = rw (hex_byte, f, h) at e in
        (v, w, f, h, ap (λ (o : Option ℕ). elim o [ none ↦ 0 | some x ↦ x ]) g)
  ]
]

hex_digit-hex_byte :
    (high low b : ℕ)
    → hex_byte high low ≡ some b
    → (b < 256) × (hex_digit (b / 16 % 16) ≡ lower high) × (hex_digit (b % 16) ≡ lower low)
hex_digit-hex_byte high low b e =
    let (v, w, f, h, whole) = digits high low b e in
    let (small, up) = hex_digit-digit_value high v f in
    let (tiny, down) = hex_digit-digit_value low w h in
    let sum : v * 16 + w ≡ b = sym (low_digit v w small tiny) ∙ whole in
    let top : b / 16 % 16 ≡ v = omega arith in
    let bottom : b % 16 ≡ w = omega arith in (omega arith, rw top up, rw bottom down)

tail_of :
    (high low : ℕ) (rest bs : List ℕ)
    → decode_pairs (high ∷ low ∷ rest) ≡ some bs
    → (b : ℕ) × (ys : List ℕ) × (hex_byte high low ≡ some b)
      × (decode_pairs rest ≡ some ys)
      × (b ∷ ys ≡ bs)
unfolding decode_pairs
tail_of high low rest bs e = elim (Option-cases (hex_byte high low)) [
  | inl f ↦ let g : none ≡ some bs = rw (decode_pairs, f) at e in cc
  | inr (x, f) ↦ elim (Option-cases (decode_pairs rest)) [
    | inl h ↦ let g : none ≡ some bs = rw (decode_pairs, f, h) at e in cc
    | inr (ys, h) ↦
        let g : some (x ∷ ys) ≡ some bs = rw (decode_pairs, f, h) at e in
        (x, ys, f, h, ap (λ (o : Option (List ℕ)). elim o [ none ↦ [] | some k ↦ k ]) g)
  ]
]

hexstring_from_data-decode_pairs :
    (hs bs : List ℕ)
    → decode_pairs hs ≡ some bs
    → All (λ b. b < 256) bs × (hexstring_from_data bs ≡ map lower hs)
unfolding decode_pairs hexstring_from_data
hexstring_from_data-decode_pairs [] bs e =
    subst (λ o. elim o [ none ↦ ⊥ | some k ↦ All (λ b. b < 256) k × (hexstring_from_data k ≡ []) ])
      e (tt, refl)
hexstring_from_data-decode_pairs (high ∷ []) bs e = let g : none ≡ some bs = e in cc
hexstring_from_data-decode_pairs (high ∷ low ∷ rest) bs e =
    let (b, ys, f, h, whole) = tail_of high low rest bs e in
    let (small, up, down) = hex_digit-hex_byte high low b f in
    let (smalls, same) = hexstring_from_data-decode_pairs rest ys h in
    subst (λ k. All (λ b. b < 256) k × (hexstring_from_data k ≡ map lower (high ∷ low ∷ rest)))
      whole ((small, smalls), rw (up, down, same))

-- A hexadecimal string that is decoded gives bytes, which are encoded as that string with small
-- letters.
pub hexstring_from_data-data_from_hexstring :
    (hs bs : List ℕ)
    → data_from_hexstring hs ≡ some bs
    → All (λ b. b < 256) bs × (hexstring_from_data bs ≡ map lower hs)
unfolding data_from_hexstring
hexstring_from_data-data_from_hexstring hs bs e = elim (Bool-cases (length hs % 2 == 0)) [
  | inl f ↦
      let g : decode_pairs hs ≡ some bs = rw (data_from_hexstring, f) at e in
      hexstring_from_data-decode_pairs hs bs g
  | inr f ↦ let g : none ≡ some bs = rw (data_from_hexstring, f) at e in cc
]
