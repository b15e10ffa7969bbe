-- ===== src/Stream.antt =====
-- server_frame/stream/stream.h and stream.cc: reading and writing a fixed number of bytes by the
-- Read and Write of the stream, which are virtual: `step` stands for them, on a state of the
-- stream. The overloads for a buffer and for a ByteArray have the same loop.
pub mod FixSize
use server_frame.Prelude.{
  ℕ, zero, suc, ◌-◌, ◌%◌, ◌^◌, ltb, if◌then◌else◌, Option, none, some, ℤ, pos, negsuc, List, [],
  ◌∷◌, ◌++◌, length, take, drop,
}

-- What Read answers: the bytes read, none of them at the end, or a negative number.
pub data ReadAnswer : Type 0 where
  moves : List ℕ → ReadAnswer
  fails : ℕ → ReadAnswer

-- What Write answers: how many bytes it took, or a negative number.
pub data WriteAnswer : Type 0 where
  takes : ℕ → WriteAnswer
  refuses : ℕ → WriteAnswer

-- How the loop ends: with nothing left, or by a `len` that is not positive, given without its
-- sign; on fuel, `diverges`.
pub data Answer : Type 0 where
  full : Answer
  stops : ℕ → Answer
  diverges : Answer

-- The conversions from size_t to int, which `return length` makes, and to int64_t, for `left`: as
-- far as the loop goes, a negative number is 0.
unfoldable pub to_int : ℕ → ℤ
to_int length =
    let low = length % 2 ^ 32 in if ltb low (2 ^ 31) then pos low else negsuc (2 ^ 32 - 1 - low)

unfoldable pub to_left : ℕ → ℕ
to_left length = let low = length % 2 ^ 64 in if ltb low (2 ^ 63) then low else 0

-- What is returned behind a loop for `length` bytes.
unfoldable pub answer_of : ℕ → Answer → Option ℤ
unfolding to_int
answer_of length full = some (to_int length)
answer_of length (stops zero) = some (pos 0)
answer_of length (stops (suc c)) = some (negsuc c)
answer_of length diverges = none

-- The loop of ReadFixSize: the bytes put into the buffer, the end, and the stream afterwards.
pub read_left : {S : Type 0} → (S → ℕ → ReadAnswer × S) → ℕ → ℕ → S → List ℕ × Answer × S
read_left step fuel zero s = ([], full, s)
read_left step zero (suc left) s = ([], diverges, s)
read_left step (suc fuel) (suc left) s =
    let (a, s') = step s (suc left) in
    elim a [
      | fails c ↦ ([], stops c, s')
      | moves bs ↦ elim bs [
        | [] ↦ ([], stops 0, s')
        | b ∷ rest ↦
            let (more, r, s'') = read_left step fuel (left - length rest) s' in
            (b ∷ rest ++ more, r, s'')
      ]
    ]

pub read_fix_size : {S : Type 0} → (S → ℕ → ReadAnswer × S) → ℕ → ℕ → S → List ℕ × Option ℤ × S
unfolding read_left answer_of to_left
read_fix_size step fuel length s =
    let (bs, r, t) = read_left step fuel (to_left length) s in (bs, answer_of length r, t)

-- The loop of WriteFixSize, over what is left of the buffer: the bytes taken, the end, and the
-- stream afterwards.
pub write_left :
    {S : Type 0} → (S → List ℕ → WriteAnswer × S) → ℕ → List ℕ → S → List ℕ × Answer × S
write_left step fuel [] s = ([], full, s)
write_left step zero (b ∷ bs) s = ([], diverges, s)
write_left step (suc fuel) (b ∷ bs) s =
    let (a, s') = step s (b ∷ bs) in
    elim a [
      | refuses c ↦ ([], stops c, s')
      | takes n ↦ elim n [
        | zero ↦ ([], stops 0, s')
        | suc m ↦
            let (more, r, s'') = write_left step fuel (drop m bs) s' in
            (b ∷ take m bs ++ more, r, s'')
      ]
    ]

-- The buffer has `length` bytes.
pub write_fix_size :
    {S : Type 0} → (S → List ℕ → WriteAnswer × S) → ℕ → List ℕ → S → List ℕ × Option ℤ × S
unfolding write_left answer_of to_left
write_fix_size step fuel buffer s =
    let (bs, r, t) = write_left step fuel (take (to_left (length buffer)) buffer) s in
    (bs, answer_of (length buffer) r, t)
