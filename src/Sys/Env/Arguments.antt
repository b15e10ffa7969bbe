-- ===== src/Sys/Env/Arguments.antt =====
-- Arguments that are options with and without values are read into them.
use server_frame.Prelude.{
  ℕ, ◌≡◌, ◌≢◌, refl, sym, ap, ◌∙◌, List, [], ◌∷◌, ◌++◌, Option, none, some, Bool, true, All,
  ==-false, assign,
}
use server_frame.Sys.Env.{Env, add, end_key, read_args, dir_of, init}

-- `-key val`, or `-key` alone.
pub record Setting : Type 0 where
  pub key : List ℕ
  pub value : Option (List ℕ)

-- A value is no key.
abbrev pub IsValue : Option (List ℕ) → Type 0
IsValue none = Unit {0}
IsValue (some []) = Unit {0}
IsValue (some (c ∷ val)) = c ≢ 45

abbrev pub value_arg : Option (List ℕ) → List (List ℕ)
value_arg none = []
value_arg (some val) = val ∷ []

abbrev pub value_of : Option (List ℕ) → List ℕ
value_of none = []
value_of (some val) = val

abbrev pub IsSetting : Setting → Type 0
IsSetting s = (s.key ≢ []) × IsValue s.value

pub argv_of : List Setting → List (List ℕ)
argv_of [] = []
argv_of (s ∷ ss) = (45 ∷ s.key) ∷ (value_arg s.value ++ argv_of ss)

pub settings_in : List Setting → List (List ℕ × List ℕ) → List (List ℕ × List ℕ)
settings_in [] m = m
settings_in (s ∷ ss) m = settings_in ss (assign s.key (value_of s.value) m)

-- A key behind another one, and at the end.
read_key :
    (now : Option (List ℕ)) (key : List ℕ) (argv : List (List ℕ)) (e : Env)
    → key ≢ []
    → read_args now ((45 ∷ key) ∷ argv) e ≡ read_args (some key) argv (end_key now e)
unfolding read_args
read_key now [] argv e n = absurd (n refl)
read_key now (c ∷ key) argv e n = refl

read_value :
    (key val : List ℕ) (argv : List (List ℕ)) (e : Env)
    → IsValue (some val)
    → read_args (some key) (val ∷ argv) e ≡ read_args none argv (add key val e)
unfolding read_args
read_value key [] argv e h = refl
read_value key (c ∷ val) argv e h = rw (read_args, ==-false c 45 h)

-- The key that is still open counts as a setting without a value.
opened : Option (List ℕ) → List Setting → List Setting
opened none ss = ss
opened (some key) ss = record { key = key; value = none } ∷ ss

-- What the settings make of the arguments.
after : Option (List ℕ) → List Setting → Env → Env × Bool
after now ss e = (record e { args = settings_in (opened now ss) e.args }, true)

after-end_key :
    (now : Option (List ℕ)) (ss : List Setting) (e : Env)
    → after none ss (end_key now e) ≡ after now ss e
unfolding after opened settings_in end_key add
after-end_key none ss e = refl
after-end_key (some key) ss e = refl

with_value :
    (s : Setting) (ss : List Setting) (e : Env) (val : List ℕ)
    → after none ss (add s.key val e) ≡ after none (record { key = s.key; value = some val } ∷ ss) e
unfolding after opened settings_in add
with_value s ss e val = refl

read_setting :
    (now : Option (List ℕ)) (s : Setting) (ss : List Setting) (e : Env) (v : Option (List ℕ))
    → s.value ≡ v
    → s.key ≢ []
    → IsValue v
    → ((now' : Option (List ℕ)) (e' : Env) → read_args now' (argv_of ss) e' ≡ after now' ss e')
    → read_args now ((45 ∷ s.key) ∷ (value_arg v ++ argv_of ss)) e ≡ after now (s ∷ ss) e
unfolding after opened
read_setting now s ss e none w n h ih =
    read_key now s.key (argv_of ss) e n
    ∙ ih (some s.key) (end_key now e)
    ∙ ap (λ x. after none (record { key = s.key; value = x } ∷ ss) (end_key now e)) (sym w)
    ∙ after-end_key now (s ∷ ss) e
read_setting now s ss e (some val) w n h ih =
    read_key now s.key (val ∷ argv_of ss) e n
    ∙ read_value s.key val (argv_of ss) (end_key now e) h
    ∙ ih none (add s.key val (end_key now e))
    ∙ with_value s ss (end_key now e) val
    ∙ ap (λ x. after none (record { key = s.key; value = x } ∷ ss) (end_key now e)) (sym w)
    ∙ after-end_key now (s ∷ ss) e

read_settings :
    (now : Option (List ℕ)) (ss : List Setting) (e : Env)
    → All IsSetting ss
    → read_args now (argv_of ss) e ≡ after now ss e
unfolding argv_of
read_settings none [] e h = unfold read_args end_key after settings_in opened in refl
read_settings (some key) [] e h = unfold read_args end_key add after settings_in opened in refl
read_settings now (s ∷ ss) e ((n, v), hs) =
    read_setting now s ss e s.value refl n v (λ now' e'. read_settings now' ss e' hs)

-- Init reads settings, each a key with a value that does not begin with `-` or without a value,
-- just as they are: it succeeds, each key has its last value, and the directory of the program
-- is set.
pub init-argv_of :
    (path program : List ℕ) (ss : List Setting) (e : Env)
    → All IsSetting ss
    → init (some path) program (argv_of ss) e ≡ (
      record e { args = settings_in ss e.args; exe = path; cwd = dir_of path; program = program },
      true,
    )
unfolding init
init-argv_of path program ss e h =
    let e' : Env = record e { exe = path; cwd = dir_of path; program = program } in
    unfold after opened in read_settings none ss e' h
