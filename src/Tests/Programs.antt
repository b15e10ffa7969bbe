-- ===== src/Tests/Programs.antt =====
-- Runs of the log patterns, the arguments of the program and the splitting of strings.
use server_frame.Prelude.{◌≡◌, ◌≢◌, refl, List, [], ◌∷◌, ◌++◌, none, some, true, false, All, arith}
use server_frame.Prelude.Text.{codes}
use server_frame.Prelude.Splits.{cut}
use server_frame.Log.{
  item, string_item, init, loop, turn, scan_directive, scan_name, end_name, to_items, to_item,
}
use server_frame.Log.Patterns.{Part, pattern_of, items_of, text_items, init-pattern_of}
use server_frame.Sys.Env
use server_frame.Sys.Env.{Env}
use server_frame.Sys.Env.Arguments.{Setting, argv_of, settings_in, init-argv_of}
use server_frame.Util.Split.{split}
use server_frame.Util.Split.Join.{join, inner, no_limit, join-split}

-- "[%d{%H}] %m%n".
abbrev parts : List Part
parts =
    record { letter = 100; format = some (codes "%H"); behind = codes "] " }
    ∷ record { letter = 109; format = none; behind = [] }
    ∷ record { letter = 110; format = none; behind = [] }
    ∷ []

init-pattern_of_example :
    init (codes "[" ++ pattern_of parts) ≡ (text_items (codes "[") ++ items_of parts, false)
init-pattern_of_example =
    init-pattern_of (codes "[") parts (omega arith)
      ((refl, omega arith, omega arith), ((refl, tt, tt), ((refl, tt, tt), tt)))

two_items : init (codes "%d{%H}x") ≡ (item 100 (codes "%H") ∷ string_item (codes "x") ∷ [], false)
unfolding init loop turn scan_directive scan_name end_name to_items to_item cut
two_items = refl

abbrev no_env : Env
no_env = record { args = []; helps = []; program = []; exe = []; cwd = [] }

-- -d -c conf.
abbrev settings : List Setting
settings =
    record { key = codes "d"; value = none }
    ∷ record { key = codes "c"; value = some (codes "conf") }
    ∷ []

init-argv_of_example : Env.init (some (codes "/bin/x")) (codes "x") (argv_of settings) no_env ≡ (
  record no_env {
    args = settings_in settings no_env.args;
    exe = codes "/bin/x";
    cwd = Env.dir_of (codes "/bin/x");
    program = codes "x";
  },
  true,
)
init-argv_of_example =
    init-argv_of (codes "/bin/x") (codes "x") settings no_env
      ((λ e. cc, tt), ((λ e. cc, omega arith), tt))

join-split_example :
    (join 44 (split (codes "a,b,c") 44 2) ≡ codes "a,b,c")
    × All (All (λ c. c ≢ 44)) (inner (split (codes "a,b,c") 44 2))
    × All (All (λ c. c ≢ 44)) (split (codes "a,b,c") 44 no_limit)
    × All (All (λ c. c ≢ 44)) (split (codes "a,b,c") 44 0)
join-split_example = join-split (codes "a,b,c") 44 2 (omega arith)
