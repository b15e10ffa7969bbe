-- ===== src/Log.antt =====
-- LogFormatter::Init of server_frame/log.cc: a pattern is read as the items of a log line. A string
-- is the list of its bytes.
pub mod Directives
pub mod Patterns
use server_frame.Prelude.{
  ℕ, zero, suc, ◌+◌, List, [], ◌∷◌, ◌++◌, Option, none, some, Bool, true, false, not, ◌&&◌, ◌||◌,
  ◌==◌, leb, if◌then◌else◌, length,
}
use server_frame.Prelude.Splits.{cut}
use server_frame.Prelude.Text.{codes}

-- An element of `vec`: a string of type 0, or a directive of type 1 with its format.
pub data Piece : Type 0 where
  text : List ℕ → Piece
  directive : List ℕ → List ℕ → Piece

-- The variables of the loop, and `is_error_`.
pub record State : Type 0 where
  pub vec : List Piece
  pub nstr : List ℕ
  pub is_error : Bool

-- isalpha, `{` and `}`: what the name of a directive does not end at.
abbrev pub is_name : ℕ → Bool
is_name c = leb 65 c && leb c 90 || leb 97 c && leb c 122 || c == 125

unfoldable pub scan_name : List ℕ → List ℕ × List ℕ
scan_name [] = ([], [])
scan_name (c ∷ cs) =
    let (name, rest) = scan_name cs in if is_name c then (c ∷ name, rest) else ([], c ∷ cs)

-- What stands behind the name: a format in braces, or none.
unfoldable pub end_name : List ℕ → List ℕ → Option (List ℕ × List ℕ × ℕ)
end_name name [] = some (name, [], length name)
end_name name (c ∷ more) =
    if c == 123
    then elim (cut 125 more) [
      | none ↦ none
      | some (fmt, after) ↦ some (name, fmt, length name + (length fmt + 2))
    ]
    else some (name, [], length name)

-- The inner loop, behind `%`: the name and the format, and how many bytes they take; `none` where
-- a format does not end.
unfoldable pub scan_directive : List ℕ → Option (List ℕ × List ℕ × ℕ)
scan_directive cs = let (name, rest) = scan_name cs in end_name name rest

abbrev pub flush : State → List Piece
flush s = elim s.nstr [ [] ↦ s.vec | c ∷ cs ↦ s.vec ++ (text (c ∷ cs) ∷ []) ]

-- One turn of the outer loop at the byte `c`: how many bytes behind it `i` passes over.
unfoldable pub turn : State → ℕ → List ℕ → ℕ × State
turn s c cs =
    let is_double : Bool = elim cs [ [] ↦ false | d ∷ ds ↦ d == 37 ] in
    if not (c == 37)
    then (0, record s { nstr = s.nstr ++ (c ∷ []) })
    else if is_double
    then (0, record s { nstr = s.nstr ++ (37 ∷ []) })
    else elim (scan_directive cs) [
      | none ↦
          (0, record s { vec = s.vec ++ (text (codes "<<pattern_error>>") ∷ []); is_error = true })
      | some (name, fmt, k) ↦
          (k, record s { vec = flush s ++ (directive name fmt ∷ []); nstr = [] })
    ]

-- The outer loop, over the bytes from `i` on, of which it passes over `k`.
unfoldable pub loop : ℕ → State → List ℕ → State
loop k s [] = s
loop (suc k) s (c ∷ cs) = loop k s cs
loop zero s (c ∷ cs) = let (k, s') = turn s c cs in loop k s' cs

-- The items: a text, or the item of a letter with its format.
pub data FormatItem : Type 0 where
  string_item : List ℕ → FormatItem
  item : ℕ → List ℕ → FormatItem

-- The keys of s_format_items: m, p, r, c, t, n, d, f, l, T, F and N.
abbrev pub is_key : ℕ → Bool
is_key c =
    c == 109
    || c == 112
    || c == 114
    || c == 99
    || c == 116
    || c == 110
    || c == 100
    || c == 102
    || c == 108
    || c == 84
    || c == 70
    || c == 78

abbrev pub unknown : List ℕ → FormatItem × Bool
unknown name = (string_item (codes "<<error_format %" ++ name ++ codes ">>"), true)

-- The item of a piece, and whether it is an error.
unfoldable pub to_item : Piece → FormatItem × Bool
to_item (text s) = (string_item s, false)
to_item (directive [] fmt) = unknown []
to_item (directive (c ∷ []) fmt) = if is_key c then (item c fmt, false) else unknown (c ∷ [])
to_item (directive (c ∷ d ∷ name) fmt) = unknown (c ∷ d ∷ name)

unfoldable pub to_items : List Piece → Bool → List FormatItem × Bool
to_items [] is_error = ([], is_error)
to_items (p ∷ ps) is_error =
    let (i, bad) = to_item p in
    let (items, is_error') = to_items ps (is_error || bad) in (i ∷ items, is_error')

-- `items_` and `is_error_` behind Init.
unfoldable pub init : List ℕ → List FormatItem × Bool
init pattern =
    let s = loop 0 (record { vec = []; nstr = []; is_error = false }) pattern in
    to_items (flush s) s.is_error
