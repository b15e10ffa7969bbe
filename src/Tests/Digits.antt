-- ===== src/Tests/Digits.antt =====
-- Runs of the hexadecimal codec.
use server_frame.Prelude.{ℕ, ◌*◌, ◌≡◌, refl, List, [], ◌∷◌, some, length, arith}
use server_frame.Util.Hex.{
  data_from_hexstring, hexstring_from_data, decode_pairs, hex_byte, digit_value,
}
use server_frame.Util.Hex.RoundTrip.{data_from_hexstring-hexstring_from_data}

abbrev two_bytes : List ℕ
two_bytes = 0 ∷ 175 ∷ []

data_from_hexstring-hexstring_from_data_example :
    (data_from_hexstring (hexstring_from_data two_bytes) ≡ some two_bytes)
    × (length (hexstring_from_data two_bytes) ≡ 2 * length two_bytes)
data_from_hexstring-hexstring_from_data_example =
    data_from_hexstring-hexstring_from_data two_bytes (omega arith, (omega arith, tt))

-- The text "aF".
decoded : data_from_hexstring (97 ∷ 70 ∷ []) ≡ some (175 ∷ [])
unfolding data_from_hexstring decode_pairs hex_byte digit_value
decoded = refl
