-- ===== src/Util/Base64/Bounds.antt =====
-- The buffer of base64decode.
use server_frame.Prelude.{
  ℕ, ◌+◌, ◌*◌, ◌/◌, ◌≤◌, List, [], ◌∷◌, Option, none, some, Bool, true, false, not, ◌&&◌, ltb,
  length, length-append, Bool-cases, inl, inr, arith,
}
use server_frame.Util.Base64.{written, four_chars, end_block, decode_blocks}

length-written : (padding packed : ℕ) → length (written padding packed) ≤ 3
unfolding written
length-written padding packed = ground arith

length-end_block :
    (at_end : Bool) (o : Option (ℕ × ℕ)) (r : List ℕ × Bool) (k : ℕ)
    → 4 * length r.0 ≤ 3 * k
    → 4 * length (end_block at_end o r).0 ≤ 3 * (4 + k)
unfolding end_block
length-end_block at_end none (bytes, ended) k h = omega arith
length-end_block at_end (some (padding, packed)) (bytes, ended) k h =
    let piece = length-written padding packed in
    let whole = length-append {0} (written padding packed) bytes in
    elim (Bool-cases (ltb 0 padding && not at_end)) [
      | inl e ↦ rw (end_block, e) (omega arith)
      | inr e ↦ elim (Bool-cases (ltb 2 padding)) [
        | inl f ↦ rw (end_block, e, f) (omega arith)
        | inr f ↦ rw (end_block, e, f) (omega arith)
      ]
    ]

length-decode_blocks : (src : List ℕ) → 4 * length (decode_blocks src).0 ≤ 3 * length src
unfolding decode_blocks
length-decode_blocks [] = omega arith
length-decode_blocks (a ∷ []) = omega arith
length-decode_blocks (a ∷ b ∷ []) = omega arith
length-decode_blocks (a ∷ b ∷ c ∷ []) = omega arith
length-decode_blocks (a ∷ b ∷ c ∷ d ∷ rest) = omega (
  arith,
  length-end_block (elim rest [ [] ↦ true | x ∷ xs ↦ false ]) (four_chars a b c d)
      (decode_blocks rest) (length rest) (length-decode_blocks rest),
)

-- base64decode writes no byte beyond its buffer, which has three bytes for four characters, also
-- where it returns early.
pub decode_blocks_bounds : (src : List ℕ) → length (decode_blocks src).0 ≤ length src * 3 / 4
decode_blocks_bounds src = omega (arith, length-decode_blocks src)
