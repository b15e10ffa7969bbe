-- ===== src/Util/Base64.antt =====
-- base64encode and base64decode of server_frame/util/hash_util.cc. A string is the list of its
-- bytes.
pub mod RoundTrip
pub mod Bounds
use server_frame.Prelude.{
  ℕ, zero, suc, ◌+◌, ◌-◌, ◌*◌, ◌/◌, ◌%◌, ◌^◌, ◌<◌, List, [], ◌∷◌, ◌++◌, Option, none, some, Bool,
  true, false, not, ◌&&◌, leb, ltb, ◌==◌, if◌then◌else◌, get_or, bit_or,
}

-- The `n` characters from `c` on.
abbrev run : ℕ → ℕ → List ℕ
run c zero = []
run c (suc n) = c ∷ run (c + 1) n

-- "ABC...Zabc...z0123456789+/".
abbrev base64 : List ℕ
base64 = run 65 26 ++ run 97 26 ++ run 48 10 ++ (43 ∷ 47 ∷ [])

unfoldable pub digit : ℕ → ℕ
digit d = get_or 0 base64 d

-- One turn of the outer loop, behind the inner ones: three bytes packed, and how many are missing.
unfoldable pub encode_block : ℕ → ℕ → List ℕ
encode_block packed padding =
    digit (packed / 2 ^ 18)
    ∷ digit (packed / 2 ^ 12 % 64)
    ∷ (if padding == 2 then 61 else digit (packed / 2 ^ 6 % 64))
    ∷ (if padding == 0 then digit (packed % 64) else 61)
    ∷ []

-- `(packed << 8) | *ptr`, of an unsigned int.
abbrev pub add_byte : ℕ → ℕ → ℕ
add_byte packed b = bit_or (packed * 2 ^ 8 % 2 ^ 32) b

unfoldable pub base64encode : List ℕ → List ℕ
base64encode [] = []
base64encode (a ∷ []) = encode_block (add_byte 0 a * 2 ^ 8 * 2 ^ 8 % 2 ^ 32) 2
base64encode (a ∷ b ∷ []) = encode_block (add_byte (add_byte 0 a) b * 2 ^ 8 % 2 ^ 32) 1
base64encode (a ∷ b ∷ c ∷ rest) =
    encode_block (add_byte (add_byte (add_byte 0 a) b) c) 0 ++ base64encode rest

-- The value of a character; `none` for an invalid one.
unfoldable pub value : ℕ → Option ℕ
value c =
    if leb 65 c && leb c 90
    then some (c - 65)
    else if leb 97 c && leb c 122
    then some (c - 97 + 26)
    else if leb 48 c && leb c 57
    then some (c - 48 + 52)
    else if c == 43
    then some 62
    else if c == 47
    then some 63
    else none

-- One turn of the inner loop, on `padding` and `packed`; `none` is an early return.
unfoldable pub take_char : ℕ → ℕ × ℕ → Option (ℕ × ℕ)
take_char c (padding, packed) =
    if c == 61
    then some (padding + 1, packed * 2 ^ 6)
    else if ltb 0 padding
    then none
    else elim (value c) [ none ↦ none | some v ↦ some (padding, bit_or (packed * 2 ^ 6) v) ]

infixl 5 ◌>>=◌
abbrev pub ◌>>=◌ : Option (ℕ × ℕ) → (ℕ × ℕ → Option (ℕ × ℕ)) → Option (ℕ × ℕ)
none >>= f = none
some s >>= f = f s

unfoldable pub four_chars : ℕ → ℕ → ℕ → ℕ → Option (ℕ × ℕ)
four_chars a b c d = take_char a (0, 0) >>= take_char b >>= take_char c >>= take_char d

-- The bytes that one turn of the outer loop writes.
unfoldable pub written : ℕ → ℕ → List ℕ
written padding packed =
    (packed / 2 ^ 16 % 256) ∷ (if padding == 2 then [] else (packed / 2 ^ 8 % 256) ∷ [])
    ++ (if padding == 0 then (packed % 256) ∷ [] else [])

-- The end of one turn of the outer loop, with what the others write: it returns early behind a
-- padding that is not at the end or is too long.
unfoldable pub end_block : Bool → Option (ℕ × ℕ) → List ℕ × Bool → List ℕ × Bool
end_block at_end none (bytes, ended) = ([], false)
end_block at_end (some (padding, packed)) (bytes, ended) =
    if ltb 0 padding && not at_end
    then ([], false)
    else if ltb 2 padding
    then ([], false)
    else (written padding packed ++ bytes, ended)

-- The outer loop of base64decode: what it writes, and whether it comes to its end. Less than four
-- characters make it return, by an invalid one or by `i != 4`.
unfoldable pub decode_blocks : List ℕ → List ℕ × Bool
decode_blocks [] = ([], true)
decode_blocks (a ∷ []) = ([], false)
decode_blocks (a ∷ b ∷ []) = ([], false)
decode_blocks (a ∷ b ∷ c ∷ []) = ([], false)
decode_blocks (a ∷ b ∷ c ∷ d ∷ rest) =
    end_block (elim rest [ [] ↦ true | x ∷ xs ↦ false ]) (four_chars a b c d) (decode_blocks rest)

unfoldable pub base64decode : List ℕ → List ℕ
base64decode src = let (bytes, ended) = decode_blocks src in if ended then bytes else []
