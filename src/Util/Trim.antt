-- ===== src/Util/Trim.antt =====
-- Trim, TrimLeft and TrimRight of StringUtil in server_frame/util.cc. A string is
-- the list of its bytes.
use server_frame.Prelude.{
  ℕ, suc, ◌+◌, ◌-◌, List, [], ◌∷◌, Option, none, some, Bool, false, ◌||◌, ◌==◌, if◌then◌else◌, take,
  drop,
}

-- " \t\r\n", the default delimiters.
abbrev pub blanks : List ℕ
blanks = 32 ∷ 9 ∷ 13 ∷ 10 ∷ []

abbrev pub contains : List ℕ → ℕ → Bool
contains [] c = false
contains (d ∷ ds) c = (d == c) || contains ds c

unfoldable pub find_first_not_of : List ℕ → List ℕ → Option ℕ
find_first_not_of delimit [] = none
find_first_not_of delimit (c ∷ cs) =
    let rest : Option ℕ = elim (find_first_not_of delimit cs) [
      | none ↦ none
      | some i ↦ some (suc i)
    ] in
    if contains delimit c then rest else some 0

unfoldable pub find_last_not_of : List ℕ → List ℕ → Option ℕ
find_last_not_of delimit [] = none
find_last_not_of delimit (c ∷ cs) = elim (find_last_not_of delimit cs) [
  | none ↦ if contains delimit c then none else some 0
  | some i ↦ some (suc i)
]

-- Where a first byte is found, a last one is.
unfoldable pub trim : List ℕ → List ℕ → List ℕ
trim delimit str = elim (find_first_not_of delimit str) [
  | none ↦ []
  | some begin ↦ elim (find_last_not_of delimit str) [
    | none ↦ []
    | some end ↦ take (end - begin + 1) (drop begin str)
  ]
]

unfoldable pub trim_left : List ℕ → List ℕ → List ℕ
trim_left delimit str = elim (find_first_not_of delimit str) [
  | none ↦ []
  | some begin ↦ drop begin str
]

-- `substr(0, end)`, without the byte at `end`.
unfoldable pub trim_right : List ℕ → List ℕ → List ℕ
trim_right delimit str = elim (find_last_not_of delimit str) [ none ↦ [] | some end ↦ take end str ]
