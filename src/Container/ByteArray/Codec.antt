-- ===== src/Container/ByteArray/Codec.antt =====
-- The typed Write and Read operations of ByteArray, over its block-wise Write and Read. A number
-- of `w` bits, signed or not, is its bit pattern below 2 ^ w; a float or double is the pattern
-- that memcpy makes of it. The host is little endian (YGW_BYTE_ORDER of endian.h).
pub mod Parse
pub mod Fixed
pub mod Varint
pub mod Zigzag
pub mod Message
pub mod RoundTrip
use mathlib.Core.Option
use server_frame.Prelude.{
  ℕ, zero, suc, ◌+◌, ◌-◌, ◌*◌, ◌/◌, ◌%◌, ◌^◌, List, [], ◌∷◌, Option, none, some, true, false, ltb,
  leb, if◌then◌else◌, length, bit_and, bit_or, bit_xor, Bool,
}
use mathlib.Core.List.{reverse}
use server_frame.Container.ByteArray.{
  ByteArray, Outcome, returns, faults, diverges, M, pure, ◌>>=◌, Endian, little, big, write, read,
}

-- What `&value` points to, `sizeof(value)` bytes, and the value read from there.
pub to_bytes : ℕ → ℕ → List ℕ
to_bytes zero v = []
to_bytes (suc n) v = (v % 256) ∷ to_bytes n (v / 256)

pub from_bytes : List ℕ → ℕ
from_bytes [] = 0
from_bytes (x ∷ xs) = x + 256 * from_bytes xs

-- util::Byteswap, by bswap_16, bswap_32 and bswap_64.
pub byteswap : ℕ → ℕ → ℕ
unfolding to_bytes from_bytes
byteswap n v = from_bytes (reverse (to_bytes n v))

-- `endian_ != YGW_BYTE_ORDER`
abbrev pub is_swapped : Endian → Bool
is_swapped little = false
is_swapped big = true

pub set_is_little_endian : Bool → ByteArray → ByteArray
set_is_little_endian val b = record b { endian = if val then little else big }

-- WriteFint8 to WriteFuint64, for `n` bytes; the macro XX is empty at one byte.
pub write_fixed : ℕ → ℕ → M (Unit {0})
write_fixed n v b = write (to_bytes n (if is_swapped b.endian then byteswap n v else v)) b

pub read_fixed : ℕ → M ℕ
read_fixed n b =
    (do
      bs ← read n
      λ c. returns (if is_swapped c.endian then byteswap n (from_bytes bs) else from_bytes bs) c)
      b

pub write_fuint8 : ℕ → M (Unit {0})
write_fuint8 v = write (v ∷ [])

pub read_fuint8 : M ℕ
unfolding from_bytes
read_fuint8 = do bs ← read 1; pure (from_bytes bs)

-- EncodeZigzag32 and EncodeZigzag64 on the pattern of a signed number of `w` bits.
pub encode_zigzag : ℕ → ℕ → ℕ
encode_zigzag w v =
    if leb (2 ^ (w - 1)) v then ((2 ^ w - v) % 2 ^ w * 2 + 2 ^ w - 1) % 2 ^ w else v * 2 % 2 ^ w

-- `(v >> 1) ^ -(v & 1)`
pub decode_zigzag : ℕ → ℕ → ℕ
decode_zigzag w v = bit_xor (v / 2) ((2 ^ w - bit_and v 1) % 2 ^ w)

-- The bytes of `tmp` in WriteUint32 and WriteUint64; `none` is an index behind the array's end.
pub varint_bytes : ℕ → ℕ → Option (List ℕ)
varint_bytes zero v = none
varint_bytes (suc k) v =
    let more = Option.map (λ bs. bit_or (bit_and v 0x7f) 0x80 ∷ bs) (varint_bytes k (v / 128)) in
    if leb 0x80 v then more else some (v ∷ [])

-- `sizeof(tmp)`, and the rounds of the reading loop.
abbrev pub varint_size : ℕ → ℕ
varint_size w = (w + 6) / 7

pub write_uint : ℕ → ℕ → M (Unit {0})
write_uint w v b = elim (varint_bytes (varint_size w) v) [ none ↦ faults | some bs ↦ write bs b ]

pub write_int : ℕ → ℕ → M (Unit {0})
unfolding encode_zigzag
write_int w v = write_uint w (encode_zigzag w v)

-- `for (int i = 0; i < w; i += 7)`
pub read_uint_loop : ℕ → ℕ → ℕ → ℕ → M ℕ
read_uint_loop zero w i result b = diverges
read_uint_loop (suc fuel) w i result b = elim (ltb i w) [
  | false ↦ returns result b
  | true ↦
      (do
        x ← read_fuint8
        λ c. elim (ltb x 0x80) [
          | true ↦ returns (bit_or result (x * 2 ^ i % 2 ^ w)) c
          | false ↦ read_uint_loop fuel w (i + 7) (bit_or result (bit_and x 0x7f * 2 ^ i % 2 ^ w)) c
        ])
        b
]

pub read_uint : ℕ → M ℕ
unfolding read_uint_loop
read_uint w = read_uint_loop (varint_size w + 1) w 0 0

pub read_int : ℕ → M ℕ
unfolding decode_zigzag
read_int w = do v ← read_uint w; pure (decode_zigzag w v)

-- WriteStringF16, F32 and F64, for a length of `n` bytes; the argument of WriteFuint is cut to it.
pub write_string_fixed : ℕ → List ℕ → M (Unit {0})
write_string_fixed n s b = (do write_fixed n (length s % 2 ^ (8 * n)) >>= λ _. write s) b

pub write_string_vint : List ℕ → M (Unit {0})
write_string_vint s = write_uint 64 (length s) >>= λ _. write s

pub write_string_without_length : List ℕ → M (Unit {0})
write_string_without_length s = write s

pub read_string_fixed : ℕ → M (List ℕ)
read_string_fixed n = do len ← read_fixed n; read len

pub read_string_vint : M (List ℕ)
read_string_vint = do len ← read_uint 64; read len
