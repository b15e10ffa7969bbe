-- ===== src/Container/ByteArray/Codec/Zigzag.antt =====
-- Signed integers of variable length: the zigzag code.
use server_frame.Prelude.{
  ℕ, ◌-◌, ◌*◌, ◌/◌, ◌%◌, ◌^◌, ◌<◌, ◌≤◌, ◌≡◌, refl, sym, ap, ◌∙◌, arith, leb, Bool-cases, inl, inr,
  leb→le,
}
use server_frame.Prelude.Bits.{bit_and-one, bit_xor-zero, bit_xor-ones}
use server_frame.Container.ByteArray.{Endian, pure}
use server_frame.Container.ByteArray.Codec.{encode_zigzag, decode_zigzag, read_int, read_uint}
use server_frame.Container.ByteArray.Codec.Varint.{
  Width, w32, w64, bits, uint_bytes, read_uint-Parses,
}
use server_frame.Container.ByteArray.Codec.Parse.{Parses, map-Parses, pure-Parses}

-- A number not below 0 has an even code.
encode_non_negative : (w : Width) (v : ℕ) → v < 2 ^ (bits w - 1) → encode_zigzag (bits w) v ≡ 2 * v
unfolding encode_zigzag
encode_non_negative w32 v h = ground arith
encode_non_negative w64 v h = ground arith

-- The number -m, whose pattern is 2 ^ w - m, has an odd one.
encode_negative :
    (w : Width) (m : ℕ)
    → 0 < m
    → m ≤ 2 ^ (bits w - 1)
    → encode_zigzag (bits w) (2 ^ bits w - m) ≡ 2 * m - 1
unfolding encode_zigzag
encode_negative w32 m p h = ground arith
encode_negative w64 m p h = ground arith

decode_even : (w : Width) (v : ℕ) → v < 2 ^ (bits w - 1) → decode_zigzag (bits w) (2 * v) ≡ v
unfolding decode_zigzag
decode_even w32 v h =
    let half : 2 * v / 2 ≡ v = omega arith in
    let even : 2 * v % 2 ≡ 0 = omega arith in
    rw (bit_and-one (2 * v), half, even) (bit_xor-zero 32 v (omega arith))
decode_even w64 v h =
    let half : 2 * v / 2 ≡ v = omega arith in
    let even : 2 * v % 2 ≡ 0 = omega arith in
    rw (bit_and-one (2 * v), half, even) (bit_xor-zero 64 v (omega arith))

decode_odd :
    (w : Width) (m : ℕ)
    → 0 < m
    → m ≤ 2 ^ (bits w - 1)
    → decode_zigzag (bits w) (2 * m - 1) ≡ 2 ^ bits w - m
unfolding decode_zigzag
decode_odd w32 m p h =
    let half : (2 * m - 1) / 2 ≡ m - 1 = omega arith in
    let odd : (2 * m - 1) % 2 ≡ 1 = omega arith in
    rw (bit_and-one (2 * m - 1), half, odd) (bit_xor-ones 32 (m - 1) (omega arith) ∙ omega arith)
decode_odd w64 m p h =
    let half : (2 * m - 1) / 2 ≡ m - 1 = omega arith in
    let odd : (2 * m - 1) % 2 ≡ 1 = omega arith in
    rw (bit_and-one (2 * m - 1), half, odd) (bit_xor-ones 64 (m - 1) (omega arith) ∙ omega arith)

half_bits : (w : Width) → 2 ^ bits w ≡ 2 * 2 ^ (bits w - 1)
half_bits w32 = refl
half_bits w64 = refl

pub encode_zigzag-lt : (w : Width) (v : ℕ) → encode_zigzag (bits w) v < 2 ^ bits w
unfolding encode_zigzag
encode_zigzag-lt w32 v = ground arith
encode_zigzag-lt w64 v = ground arith

-- Decoding undoes encoding on every signed number of the width, the lowest one included.
pub decode_zigzag-encode_zigzag :
    (w : Width) (v : ℕ) → v < 2 ^ bits w → decode_zigzag (bits w) (encode_zigzag (bits w) v) ≡ v
decode_zigzag-encode_zigzag w v h = elim (Bool-cases (leb (2 ^ (bits w - 1)) v)) [
  | inr below ↦
      let low : v < 2 ^ (bits w - 1) = ground arith in
      ap (decode_zigzag (bits w)) (encode_non_negative w v low) ∙ decode_even w v low
  | inl above ↦
      let top : 2 ^ (bits w - 1) ≤ v = leb→le _ v above in
      let m = 2 ^ bits w - v in
      let back : 2 ^ bits w - m ≡ v = omega arith in
      let small : m ≤ 2 ^ (bits w - 1) = omega (arith, half_bits w) in
      ap (λ (x : ℕ). decode_zigzag (bits w) (encode_zigzag (bits w) x)) (sym back)
      ∙ ap (decode_zigzag (bits w)) (encode_negative w m (omega arith) small)
      ∙ decode_odd w m (omega arith) small
      ∙ back
]

-- ReadInt32 and ReadInt64 give back what WriteInt32 and WriteInt64 wrote.
pub read_int-Parses :
    (e : Endian) (w : Width) (v : ℕ)
    → v < 2 ^ bits w
    → Parses e (read_int (bits w)) (uint_bytes w (encode_zigzag (bits w) v)) v
unfolding read_int
read_int-Parses e w v h =
    let code = encode_zigzag (bits w) v in
    map-Parses e (read_uint (bits w)) (λ x. pure (decode_zigzag (bits w) x)) (uint_bytes w code)
      code v (read_uint-Parses e w code (encode_zigzag-lt w v))
      (rw (decode_zigzag-encode_zigzag w v h) (pure-Parses e v))
