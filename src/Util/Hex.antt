-- ===== src/Util/Hex.antt =====
-- The hexadecimal codec of server_frame/util/hash_util.cc. A string is the list of its bytes, and
-- `none` is std::invalid_argument.
pub mod RoundTrip
use server_frame.Prelude.{
  ℕ, zero, suc, ◌+◌, ◌-◌, ◌*◌, ◌/◌, ◌%◌, List, [], ◌∷◌, Option, none, some, Bool, true, false, ◌&&◌,
  leb, ltb, ◌==◌, if◌then◌else◌, length, bit_or,
}

-- `c > 9 ? c + 'a' - 10 : c + '0'`.
pub hex_digit : ℕ → ℕ
hex_digit c = if ltb 9 c then c + 97 - 10 else c + 48

-- The loop of hexstring_from_data; `& 0xf` is the remainder by 16.
pub hexstring_from_data : List ℕ → List ℕ
hexstring_from_data [] = []
hexstring_from_data (b ∷ bs) = hex_digit (b / 16 % 16) ∷ hex_digit (b % 16) ∷ hexstring_from_data bs

-- The cases of the two switches.
unfoldable pub digit_value : ℕ → Option ℕ
digit_value c =
    if leb 97 c && leb c 102
    then some (c - 97 + 10)
    else if leb 65 c && leb c 70
    then some (c - 65 + 10)
    else if leb 48 c && leb c 57
    then some (c - 48)
    else none

-- One turn of the loop, whose byte has the high digit first.
unfoldable pub hex_byte : ℕ → ℕ → Option ℕ
unfolding digit_value
hex_byte high low = elim (digit_value high) [
  | none ↦ none
  | some v ↦ elim (digit_value low) [ none ↦ none | some w ↦ some (bit_or w (v * 16 % 256)) ]
]

unfoldable pub decode_pairs : List ℕ → Option (List ℕ)
decode_pairs [] = some []
decode_pairs (high ∷ []) = none
decode_pairs (high ∷ low ∷ rest) = elim (hex_byte high low) [
  | none ↦ none
  | some b ↦ elim (decode_pairs rest) [ none ↦ none | some bs ↦ some (b ∷ bs) ]
]

unfoldable pub data_from_hexstring : List ℕ → Option (List ℕ)
unfolding decode_pairs
data_from_hexstring hs = if length hs % 2 == 0 then decode_pairs hs else none
