-- ===== src/Util/Split/Join.antt =====
-- The pieces of a string, joined by the delimiter, are the string.
use server_frame.Prelude.{
  ℕ, zero, suc, ◌+◌, ◌-◌, ◌%◌, ◌^◌, ◌<◌, ◌≤◌, ◌≡◌, ◌≢◌, refl, sym, ap, ◌∙◌, List, [], ◌∷◌, ◌++◌,
  ◌==◌, length, length-append, All, Bool-cases, Option-cases, inl, inr, arith, ==-false,
}
use server_frame.Prelude.Splits.{cut, cut_splits, cut_absent}
use server_frame.Util.Split.{split_loop, split}

pub join : ℕ → List (List ℕ) → List ℕ
join delim [] = []
join delim (s ∷ []) = s
join delim (s ∷ t ∷ ss) = s ++ (delim ∷ join delim (t ∷ ss))

-- The pieces but the last.
pub inner : List (List ℕ) → List (List ℕ)
inner [] = []
inner (s ∷ []) = []
inner (s ∷ t ∷ ss) = s ∷ inner (t ∷ ss)

-- What a run of the loop gives: it is not empty, it joins to the string, and its pieces but the
-- last are free of the delimiter.
record IsSplit (delim : ℕ) (str : List ℕ) (ss : List (List ℕ)) : Type 0 where
  filled : ss ≢ []
  joined : join delim ss ≡ str
  free : All (All (λ c. c ≢ delim)) (inner ss)

IsSplit-one : (delim : ℕ) (str : List ℕ) → IsSplit delim str (str ∷ [])
unfolding join inner
IsSplit-one delim str = record { filled = λ e. cc; joined = refl; free = tt }

IsSplit-more :
    (delim : ℕ) (piece rest str : List ℕ) (ss : List (List ℕ))
    → str ≡ piece ++ (delim ∷ rest)
    → All (λ c. c ≢ delim) piece
    → IsSplit delim rest ss
    → IsSplit delim str (piece ∷ ss)
unfolding join inner
IsSplit-more delim piece rest str [] e h s = absurd (s.filled refl)
IsSplit-more delim piece rest str (t ∷ ss) e h s = record {
  filled = λ e. cc;
  joined = ap (λ r. piece ++ (delim ∷ r)) s.joined ∙ sym e;
  free = (h, s.free);
}

split_loop-IsSplit :
    (delim fuel max : ℕ) (str : List ℕ) → IsSplit delim str (split_loop (cut delim) fuel max str)
unfolding split_loop
split_loop-IsSplit delim zero max str = IsSplit-one delim str
split_loop-IsSplit delim (suc fuel) max str = elim (Option-cases (cut delim str)) [
  | inl e ↦ rw (split_loop, e) (IsSplit-one delim str)
  | inr ((piece, rest), e) ↦
      let (whole, free) = cut_splits delim str piece rest e in
      let max' = (max + (2 ^ 64 - 1)) % 2 ^ 64 in
      rw (split_loop, e)
        (elim (Bool-cases (max' == 1)) [
          | inl t ↦
              rw t
                (IsSplit-more delim piece rest str (rest ∷ []) whole free (IsSplit-one delim rest))
          | inr t ↦ rw t (
              IsSplit-more delim piece rest str (split_loop (cut delim) fuel max' rest) whole free
                (split_loop-IsSplit delim fuel max' rest))
        ])
]

-- Without a limit on the number of the pieces none of them holds the delimiter: `m` turns are left
-- until the counter `max` is 1.
split_loop_free :
    (delim fuel max m : ℕ) (str : List ℕ)
    → length str < fuel
    → m ≤ 2 ^ 64
    → length str + 2 < m
    → max ≡ m % 2 ^ 64
    → All (All (λ c. c ≢ delim)) (split_loop (cut delim) fuel max str)
unfolding split_loop
split_loop_free delim zero max m str l big room e = absurd (omega arith)
split_loop_free delim (suc fuel) max m str l big room e = elim (Option-cases (cut delim str)) [
  | inl f ↦ rw (split_loop, f) (cut_absent delim str f, tt)
  | inr ((piece, rest), f) ↦
      let (whole, free) = cut_splits delim str piece rest f in
      let size : length str ≡ length piece + (length rest + 1) =
        ap length whole ∙ omega (arith, length-append {0} piece (delim ∷ rest)) in
      let max' = (max + (2 ^ 64 - 1)) % 2 ^ 64 in
      let next : max' ≡ m - 1 = omega arith in
      rw (split_loop, f)
        (rw (==-false max' 1 (λ t. omega arith)) (
          free,
          split_loop_free delim fuel max' (m - 1) rest (omega arith) (omega arith) (omega arith)
              (omega arith),
        ))
]

pub join-split_lem :
    (str : List ℕ) (delim max : ℕ)
    → (join delim (split str delim max) ≡ str)
      × All (All (λ c. c ≢ delim)) (inner (split str delim max))
unfolding split
join-split_lem [] delim max = unfold join inner in (refl, tt)
join-split_lem (c ∷ str) delim max =
    let s = split_loop-IsSplit delim (suc (length (c ∷ str))) max (c ∷ str) in (s.joined, s.free)

split_free :
    (str : List ℕ) (delim max m : ℕ)
    → m ≤ 2 ^ 64
    → length str + 2 < m
    → max ≡ m % 2 ^ 64
    → All (All (λ c. c ≢ delim)) (split str delim max)
unfolding split
split_free [] delim max m b l e = tt
split_free (c ∷ str) delim max m b l e =
    split_loop_free delim (suc (length (c ∷ str))) max m (c ∷ str) (omega arith) b l e

-- What split gives for a call without `max`, which is then ~0.
abbrev pub no_limit : ℕ
no_limit = 2 ^ 64 - 1

-- The pieces that split gives, joined by the delimiter, are the string again, whatever the limit
-- `max` on their number; only the last of them may hold the delimiter. None does in a call without
-- a limit, where `max` is ~0, and in one with 0, for a string of less than 2^64 - 3 bytes.
pub join-split :
    (str : List ℕ) (delim max : ℕ)
    → length str + 3 < 2 ^ 64
    → (join delim (split str delim max) ≡ str)
      × All (All (λ c. c ≢ delim)) (inner (split str delim max))
      × All (All (λ c. c ≢ delim)) (split str delim no_limit)
      × All (All (λ c. c ≢ delim)) (split str delim 0)
join-split str delim max l =
    let (joined, free) = join-split_lem str delim max in
    (
      joined,
      free,
      split_free str delim no_limit no_limit (omega arith) (omega arith) refl,
      split_free str delim 0 (2 ^ 64) (omega arith) (omega arith) (omega arith),
    )
