-- ===== src/Sys/Env.antt =====
-- server_frame/sys/env.h and env.cc: the arguments of the program and the help texts. A string is
-- the list of its bytes.
pub mod Arguments
use server_frame.Prelude.{
  ℕ, List, [], ◌∷◌, ◌++◌, Option, none, some, Bool, true, false, not, ◌==◌, if◌then◌else◌, same,
  find, assign, erase_first,
}
use server_frame.Prelude.Text.{codes}

pub record Env : Type 0 where
  pub args : List (List ℕ × List ℕ)
  pub helps : List (List ℕ × List ℕ)
  pub program : List ℕ
  pub exe : List ℕ
  pub cwd : List ℕ

unfoldable pub add : List ℕ → List ℕ → Env → Env
add key val e = record e { args = assign key val e.args }

unfoldable pub has : List ℕ → Env → Bool
has key e = elim (find key e.args) [ none ↦ false | some v ↦ true ]

unfoldable pub del : List ℕ → Env → Env
del key e = record e { args = erase_first key e.args }

unfoldable pub get : List ℕ → List ℕ → Env → List ℕ
get key default_value e = elim (find key e.args) [ none ↦ default_value | some v ↦ v ]

unfoldable pub without : List ℕ → List (List ℕ × List ℕ) → List (List ℕ × List ℕ)
without key [] = []
without key ((k, desc) ∷ helps) =
    let rest = without key helps in if same k key then rest else (k, desc) ∷ rest

unfoldable pub remove_help : List ℕ → Env → Env
remove_help key e = record e { helps = without key e.helps }

unfoldable pub add_help : List ℕ → List ℕ → Env → Env
unfolding remove_help
add_help key desc e =
    let e' = remove_help key e in record e' { helps = e'.helps ++ ((key, desc) ∷ []) }

-- `if (now_key) Add(now_key, "")`.
unfoldable pub end_key : Option (List ℕ) → Env → Env
unfolding add
end_key none e = e
end_key (some key) e = add key [] e

-- The loop of Init over the arguments behind the first, with `now_key`.
unfoldable pub read_args : Option (List ℕ) → List (List ℕ) → Env → Env × Bool
unfolding add end_key
read_args now_key [] e = (end_key now_key e, true)
read_args now_key ([] ∷ argv) e = elim now_key [
  | none ↦ (e, false)
  | some key ↦ read_args none argv (add key [] e)
]
read_args now_key ((c ∷ arg) ∷ argv) e = elim (c == 45) [
  | true ↦ elim arg [
    | [] ↦ (e, false)
    | d ∷ ds ↦ read_args (some (d ∷ ds)) argv (end_key now_key e)
  ]
  | false ↦ elim now_key [
    | none ↦ (e, false)
    | some key ↦ read_args none argv (add key (c ∷ arg) e)
  ]
]

-- The bytes before the last `/`, and all where there is none.
abbrev before_slash : List ℕ → Option (List ℕ)
before_slash [] = none
before_slash (c ∷ cs) = elim (before_slash cs) [
  | some s ↦ some (c ∷ s)
  | none ↦ if c == 47 then some [] else none
]

unfoldable pub dir_of : List ℕ → List ℕ
dir_of path = elim (before_slash path) [ none ↦ path | some s ↦ s ] ++ codes "/"

-- `path` is what readlink gives, `none` where it fails: Init then returns -1, which is true.
unfoldable pub init : Option (List ℕ) → List ℕ → List (List ℕ) → Env → Env × Bool
unfolding read_args dir_of
init none program argv e = (e, true)
init (some path) program argv e =
    read_args none argv (record e { exe = path; cwd = dir_of path; program = program })

unfoldable pub get_absolute_path : List ℕ → Env → List ℕ
get_absolute_path [] e = codes "/"
get_absolute_path (c ∷ path) e = if c == 47 then c ∷ path else e.cwd ++ (c ∷ path)

unfoldable pub get_config_path : Env → List ℕ
unfolding get_absolute_path get
get_config_path e = get_absolute_path (get (codes "c") (codes "conf") e) e
