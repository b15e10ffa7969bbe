-- ===== src/Tests/Servlets.antt =====
-- Runs of the servlet table.
use server_frame.Prelude.{ℕ, ◌≡◌, ◌≢◌, List, [], ◌∷◌, none, some, Bool, same}
use server_frame.Http.Servlet.{
  object, holds, ServletDispatch, init, add_servlet, get_matched_servlet,
}
use server_frame.Http.Servlet.Dispatch.{
  IsValid, Change, add, add_glob, delete, changes, changes-IsValid, init-IsValid,
  get_matched_servlet-add_servlet,
}

-- A test that knows the pattern "*" only.
abbrev star : List ℕ → List ℕ → Bool
star pattern uri = same pattern (42 ∷ [])

abbrev some_changes : List Change
some_changes =
    add (47 ∷ []) (holds (object 1))
    ∷ add_glob (42 ∷ []) (holds (object 2))
    ∷ add_glob (42 ∷ []) (holds (object 3))
    ∷ delete (98 ∷ [])
    ∷ []

abbrev table : ServletDispatch
table = changes some_changes init

table-IsValid : IsValid table
table-IsValid = changes-IsValid some_changes init init-IsValid

get_matched_servlet-add_servlet_example :
    (get_matched_servlet star (97 ∷ []) (add_servlet (97 ∷ []) (object 9) table) ≡ some (object 9))
    × ((path : List ℕ)
        → (97 ∷ []) ≢ path
        → get_matched_servlet star path (add_servlet (97 ∷ []) (object 9) table)
          ≡ get_matched_servlet star path table)
get_matched_servlet-add_servlet_example =
    get_matched_servlet-add_servlet star (97 ∷ []) (object 9) table

-- Patterns only, of which one matches everything.
abbrev table_of_patterns : ServletDispatch
table_of_patterns = record {
  datas = [];
  globs = (47 ∷ [], holds (object 1)) ∷ (42 ∷ [], holds (object 2)) ∷ [];
  fallback = none;
}
