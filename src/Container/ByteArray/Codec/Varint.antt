-- ===== src/Container/ByteArray/Codec/Varint.antt =====
-- Variable-length integers of 32 and 64 bits: seven bits a byte, the lowest first.
use native.Mathlib.Nat.{pow-suc, mod-eq_of_lt}
use mathlib.Core.Path.{subst}
use native.Mathlib.Numerals.{towards_suc}
use server_frame.Prelude.{
  ℕ, zero, suc, ◌+◌, ◌*◌, ◌/◌, ◌%◌, ◌^◌, ◌<◌, ◌≤◌, ◌≡◌, ap, ◌∙◌, List, [], ◌∷◌, some, arith, length,
  if◌then◌else◌, true, false, ltb, Bool-cases, inl, inr, bit_and, bit_or, lt→ltb, ltb-false,
  leb-false,
}
use server_frame.Prelude.Bits.{bit_and-low_seven, bit_or-shifted}
use server_frame.Container.ByteArray.{ByteArray, Endian, returns, write}
use server_frame.Container.ByteArray.Codec.{
  varint_bytes, write_uint, read_uint_loop, read_uint, read_fuint8,
}
use server_frame.Container.ByteArray.Codec.Parse.{Parses, >>=-Parses, map-Parses, pure-Parses}
use server_frame.Container.ByteArray.Codec.Fixed.{read_fuint8-Parses}

-- The format in plain arithmetic: `v` in at most `suc k` groups.
pub groups : ℕ → ℕ → List ℕ
groups zero v = v ∷ []
groups (suc k) v =
    let rest = groups k (v / 128) in if ltb v 128 then v ∷ [] else (v % 128 + 128) ∷ rest

inner_byte : (v : ℕ) → bit_or (bit_and v 0x7f) 0x80 ≡ v % 128 + 128
inner_byte v = rw (bit_and-low_seven v) (bit_or-shifted 7 (v % 128) 1 (omega arith))

-- WriteUint32 and WriteUint64 never leave `tmp`, and fill it with the groups of the value.
pub varint_bytes-groups : (k v : ℕ) → v < 128 ^ suc k → varint_bytes (suc k) v ≡ some (groups k v)
unfolding varint_bytes groups
varint_bytes-groups zero v h = rw (leb-false 0x80 v (omega arith))
varint_bytes-groups (suc k) v h = elim (Bool-cases (ltb v 128)) [
  | inl small ↦ ground arith
  | inr large ↦
      ground
        (arith, inner_byte v, varint_bytes-groups k (v / 128) (omega (arith, pow-suc 128 (suc k))))
]

pub length-groups : (k v : ℕ) → (1 ≤ length (groups k v)) × (length (groups k v) ≤ suc k)
unfolding groups
length-groups zero v = omega arith
length-groups (suc k) v = ground (arith, length-groups k (v / 128))

shift_seven : (s : ℕ) → 2 ^ (s + 7) ≡ 128 * 2 ^ s
shift_seven s = simp towards_suc (omega arith)

group-le : (x p : ℕ) → x < 128 → x * p ≤ 127 * p
group-le x p h = grind arith

-- The lowest group of `v` and the others, shifted by `s`.
group_sum : (v s : ℕ) → v * 2 ^ s ≡ v % 128 * 2 ^ s + v / 128 * 2 ^ (s + 7)
group_sum v s =
    let cut : v ≡ v % 128 + 128 * (v / 128) = omega arith in
    omega (arith, ap (λ (t : ℕ). t * 2 ^ s) cut, ap (λ (t : ℕ). v / 128 * t) (shift_seven s))

joined :
    (w i acc x : ℕ)
    → acc < 2 ^ i
    → acc + x * 2 ^ i < 2 ^ w
    → bit_or acc (x * 2 ^ i % 2 ^ w) ≡ acc + x * 2 ^ i
joined w i acc x low fits =
    let fit : x * 2 ^ i % 2 ^ w ≡ x * 2 ^ i = mod-eq_of_lt (omega arith) in
    rw fit (bit_or-shifted i acc x low)

-- One round of the reading loop, on the last byte and on another.
module _ (e : Endian) (fuel w i acc : ℕ) (more : i < w) where
  last_round :
      (x : ℕ)
      → x < 128
      → acc < 2 ^ i
      → acc + x * 2 ^ i < 2 ^ w
      → Parses e (read_uint_loop (suc fuel) w i acc) (x ∷ []) (acc + x * 2 ^ i)
  unfolding read_uint_loop
  last_round x h low fits b rest v en lies =
      rw (lt→ltb i w more, read_uint_loop)
        (map-Parses e read_fuint8
          (λ y c. elim (ltb y 0x80) [
            | true ↦ returns (bit_or acc (y * 2 ^ i % 2 ^ w)) c
            | false ↦ read_uint_loop fuel w (i + 7) (bit_or acc (bit_and y 0x7f * 2 ^ i % 2 ^ w)) c
          ])
          (x ∷ []) x (acc + x * 2 ^ i) (read_fuint8-Parses e x)
          (rw (lt→ltb x 0x80 h, joined w i acc x low fits) (pure-Parses e (acc + x * 2 ^ i))) b rest
          v en lies)

  inner_round :
      (x : ℕ) (bs : List ℕ) (a : ℕ)
      → x < 128
      → acc < 2 ^ i
      → acc + x * 2 ^ i < 2 ^ w
      → Parses e (read_uint_loop fuel w (i + 7) (acc + x * 2 ^ i)) bs a
      → Parses e (read_uint_loop (suc fuel) w i acc) ((x + 128) ∷ bs) a
  unfolding read_uint_loop
  inner_round x bs a h low fits p b rest v en lies =
      let seven : bit_and (x + 128) 0x7f ≡ x = bit_and-low_seven (x + 128) ∙ omega arith in
      rw (lt→ltb i w more, read_uint_loop)
        (>>=-Parses e read_fuint8
          (λ y c. elim (ltb y 0x80) [
            | true ↦ returns (bit_or acc (y * 2 ^ i % 2 ^ w)) c
            | false ↦ read_uint_loop fuel w (i + 7) (bit_or acc (bit_and y 0x7f * 2 ^ i % 2 ^ w)) c
          ])
          ((x + 128) ∷ []) bs (x + 128) a (read_fuint8-Parses e (x + 128))
          (rw (ltb-false (x + 128) 0x80 (omega arith), seven, joined w i acc x low fits) p) b rest v
          en lies)

-- `v` is what is still on the tape, and it counts from bit `i` on.
read_loop-groups :
    (e : Endian) (k fuel w v i acc : ℕ)
    → v < 128 ^ suc k
    → k < fuel
    → i + 7 * k < w
    → acc < 2 ^ i
    → acc + v * 2 ^ i < 2 ^ w
    → Parses e (read_uint_loop fuel w i acc) (groups k v) (acc + v * 2 ^ i)
unfolding groups
read_loop-groups e zero zero w v i acc h f b low fits = absurd (omega arith)
read_loop-groups e (suc k) zero w v i acc h f b low fits = absurd (omega arith)
read_loop-groups e zero (suc fuel) w v i acc h f b low fits =
    last_round e fuel w i acc (omega arith) v (omega arith) low fits
read_loop-groups e (suc k) (suc fuel) w v i acc h f b low fits = elim (Bool-cases (ltb v 128)) [
  | inl small ↦ rw small (last_round e fuel w i acc (omega arith) v (ground arith) low fits)
  | inr large ↦
      let sum = group_sum v i in
      let total : acc + v % 128 * 2 ^ i + v / 128 * 2 ^ (i + 7) ≡ acc + v * 2 ^ i = omega arith in
      let top : acc + v % 128 * 2 ^ i < 2 ^ (i + 7) =
        omega (arith, shift_seven i, group-le (v % 128) (2 ^ i) (omega arith)) in
      rw large (
        inner_round e fuel w i acc (omega arith) (v % 128) (groups k (v / 128)) (acc + v * 2 ^ i)
          (omega arith) low (omega arith)
          (rw (← total) (
            read_loop-groups e k fuel w (v / 128) (i + 7) (acc + v % 128 * 2 ^ i)
              (omega (arith, pow-suc 128 (suc k))) (omega arith) (omega arith) top (omega arith))))
]

-- The widths that the source has, with the number of groups behind the first.
pub data Width : Type 0 where
  w32 w64 : Width

abbrev pub bits : Width → ℕ
bits w32 = 32
bits w64 = 64

-- The bytes of a variable-length integer on the tape.
pub uint_bytes : Width → ℕ → List ℕ
uint_bytes w32 v = groups 4 v
uint_bytes w64 v = groups 9 v

pub length-uint_bytes :
    (w : Width) (v : ℕ) → (1 ≤ length (uint_bytes w v)) × (length (uint_bytes w v) ≤ 10)
unfolding uint_bytes
length-uint_bytes w32 v = (omega (arith, length-groups 4 v), omega (arith, length-groups 4 v))
length-uint_bytes w64 v = length-groups 9 v

-- WriteUint32 and WriteUint64 write the value's groups, and never leave their array.
pub write_uint_lem :
    (w : Width) (v : ℕ) (b : ByteArray)
    → v < 2 ^ bits w
    → write_uint (bits w) v b ≡ write (uint_bytes w v) b
unfolding write_uint uint_bytes
write_uint_lem w32 v b h = rw (varint_bytes-groups 4 v (omega arith), write_uint)
write_uint_lem w64 v b h = rw (varint_bytes-groups 9 v (omega arith), write_uint)

-- ReadUint32 and ReadUint64 give the value back.
pub read_uint-Parses :
    (e : Endian) (w : Width) (v : ℕ)
    → v < 2 ^ bits w
    → Parses e (read_uint (bits w)) (uint_bytes w v) v
unfolding read_uint uint_bytes
read_uint-Parses e w32 v h =
    let unit : 0 + v * 2 ^ 0 ≡ v = omega arith in
    subst (λ (x : ℕ). Parses e (read_uint_loop 6 32 0 0) (groups 4 v) x) unit
      (read_loop-groups e 4 6 32 v 0 0 (omega arith) (omega arith) (omega arith) (omega arith)
        (omega arith))
read_uint-Parses e w64 v h =
    let unit : 0 + v * 2 ^ 0 ≡ v = omega arith in
    subst (λ (x : ℕ). Parses e (read_uint_loop 11 64 0 0) (groups 9 v) x) unit
      (read_loop-groups e 9 11 64 v 0 0 (omega arith) (omega arith) (omega arith) (omega arith)
        (omega arith))
