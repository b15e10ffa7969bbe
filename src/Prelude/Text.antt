-- ===== src/Prelude/Text.antt =====
-- Strings as lists of bytes, and what the C library's string functions do with them, in the C
-- locale.
use Prim.Native.Char.{code}
use Prim.Native.String.{String}
use Prim.Native.Nat.{ℕ, zero, suc, ◌+◌, ◌/◌, ◌%◌}
use mathlib.Core.Bool.{Bool, true, false, ◌&&◌, ◌||◌}
use mathlib.Core.List.{List, [], ◌∷◌, ◌++◌, map}
use server_frame.Prelude.Tests.{◌==◌, leb, ltb, if◌then◌else◌}
use server_frame.Prelude.Assoc.{same}

abbrev pub codes : String → List ℕ
codes String.[] = []
codes (String.◌∷◌ c s) = code c ∷ codes s

-- What a C string shows of a string: the bytes before the first NUL.
unfoldable pub c_str : List ℕ → List ℕ
c_str [] = []
c_str (c ∷ cs) = let rest = c_str cs in if c == 0 then [] else c ∷ rest

unfoldable pub to_lower : ℕ → ℕ
to_lower c = if leb 65 c && leb c 90 then c + 32 else c

-- What strcasecmp compares.
unfoldable pub folded : List ℕ → List ℕ
unfolding c_str to_lower
folded s = map to_lower (c_str s)

-- strcasecmp(s, t) == 0.
unfoldable pub same_folded : List ℕ → List ℕ → Bool
unfolding folded
same_folded s t = same (folded s) (folded t)

-- strncmp(s, t, strlen(s)) == 0.
unfoldable pub is_prefix : List ℕ → List ℕ → Bool
is_prefix [] t = true
is_prefix (c ∷ s) [] = false
is_prefix (c ∷ s) (d ∷ t) = (c == d) && is_prefix s t

-- strstr(t, s) != nullptr.
unfoldable pub is_part : List ℕ → List ℕ → Bool
unfolding is_prefix
is_part s [] = is_prefix s []
is_part s (c ∷ t) = is_prefix s (c ∷ t) || is_part s t

-- The decimal digits that a stream writes.
decimal_from : ℕ → ℕ → List ℕ
decimal_from zero n = []
decimal_from (suc fuel) n =
    let more = decimal_from fuel (n / 10) ++ ((48 + n % 10) ∷ []) in
    if ltb n 10 then (48 + n) ∷ [] else more

unfoldable pub decimal : ℕ → List ℕ
unfolding decimal_from
decimal n = decimal_from (suc n) n
