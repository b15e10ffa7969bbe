-- ===== src/Util/Split.antt =====
-- split and replace of server_frame/util/hash_util.cc. A string is the list of its bytes, and a
-- size_t that falls below 0 wraps around.
pub mod Join
use server_frame.Prelude.{
  ℕ, zero, suc, ◌+◌, ◌-◌, ◌%◌, ◌^◌, List, [], ◌∷◌, ◌++◌, Option, none, some, Bool, true, false,
  ◌==◌, if◌then◌else◌, length,
}
use server_frame.Prelude.Splits.{cut}
use server_frame.Util.Trim.{contains}

-- str.find_first_of(delims): the bytes before it and behind it.
unfoldable pub cut_any : List ℕ → List ℕ → Option (List ℕ × List ℕ)
cut_any delims [] = none
cut_any delims (d ∷ str) =
    let rest : Option (List ℕ × List ℕ) = elim (cut_any delims str) [
      | none ↦ none
      | some (before, behind) ↦ some (d ∷ before, behind)
    ] in
    if contains delims d then some ([], str) else rest

-- The loop of split from `last` on, with the search `next`. A turn leaves less of the string.
unfoldable pub split_loop : (List ℕ → Option (List ℕ × List ℕ)) → ℕ → ℕ → List ℕ → List (List ℕ)
split_loop next zero max str = str ∷ []
split_loop next (suc fuel) max str = elim (next str) [
  | none ↦ str ∷ []
  | some (piece, rest) ↦
      let max' = (max + (2 ^ 64 - 1)) % 2 ^ 64 in
      let more = split_loop next fuel max' rest in piece ∷ (if max' == 1 then rest ∷ [] else more)
]

unfoldable pub split : List ℕ → ℕ → ℕ → List (List ℕ)
split [] delim max = []
split (c ∷ str) delim max = split_loop (cut delim) (suc (length (c ∷ str))) max (c ∷ str)

unfoldable pub split_any : List ℕ → List ℕ → ℕ → List (List ℕ)
unfolding cut_any
split_any [] delims max = []
split_any (c ∷ str) delims max = split_loop (cut_any delims) (suc (length (c ∷ str))) max (c ∷ str)

-- The loop of the first replace, of a byte by a byte.
unfoldable pub replace : List ℕ → ℕ → ℕ → List ℕ
replace [] find replace_with = []
replace (c ∷ str) find replace_with =
    (if c == find then replace_with else c) ∷ replace str find replace_with

-- The second one, of a byte by a string: the search goes on behind what was put in.
unfoldable pub replace_by : List ℕ → ℕ → List ℕ → List ℕ
replace_by [] find replace_with = []
replace_by (c ∷ str) find replace_with =
    (if c == find then replace_with else c ∷ []) ++ replace_by str find replace_with
