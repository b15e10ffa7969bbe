-- ===== src/Http/Servlet/Dispatch.antt =====
-- The table of servlets: what each operation makes of the servlet that a path gets.
use server_frame.Prelude.{
  ℕ, List, [], ◌∷◌, ◌++◌, Option, none, some, Bool, true, false, erase_first, Unique, find-assign,
  find-assign_ne, find-erase_first, find-erase_first_ne, assign-Unique, erase_first-Unique,
  find-append, find-append_ne, append-Unique, same-false, ◌≡◌, ◌≢◌, refl, ap, ◌∙◌, ◌⊎◌,
}
use server_frame.Http.Servlet.{
  Servlet, ServletCreator, holds, ServletDispatch, init, add_servlet_creator, add_servlet,
  add_glob_servlet_creator, add_glob_servlet, del_servlet, del_glob_servlet, get, get_servlet,
  get_glob_servlet, first_match, get_matched_servlet, got,
}

-- No path and no pattern is in its table twice.
pub record IsValid (d : ServletDispatch) : Type 0 where
  pub datas : Unique d.datas
  pub globs : Unique d.globs

-- The changes of the table.
pub data Change : Type 0 where
  add : List ℕ → ServletCreator → Change
  add_glob : List ℕ → ServletCreator → Change
  delete : List ℕ → Change
  delete_glob : List ℕ → Change

pub change : Change → ServletDispatch → ServletDispatch
unfolding add_servlet_creator add_glob_servlet_creator del_servlet del_glob_servlet
change (add uri c) d = add_servlet_creator uri c d
change (add_glob uri c) d = add_glob_servlet_creator uri c d
change (delete uri) d = del_servlet uri d
change (delete_glob uri) d = del_glob_servlet uri d

pub changes : List Change → ServletDispatch → ServletDispatch
changes [] d = d
changes (c ∷ cs) d = changes cs (change c d)

change-IsValid : (c : Change) (d : ServletDispatch) → IsValid d → IsValid (change c d)
unfolding change add_servlet_creator add_glob_servlet_creator del_servlet del_glob_servlet
change-IsValid (add uri c) d v = record {
  datas = assign-Unique uri c d.datas v.datas;
  globs = v.globs;
}
change-IsValid (add_glob uri c) d v = record {
  datas = v.datas;
  globs =
      append-Unique uri (erase_first uri d.globs) c (erase_first-Unique uri d.globs v.globs)
        (find-erase_first uri d.globs v.globs);
}
change-IsValid (delete uri) d v = record {
  datas = erase_first-Unique uri d.datas v.datas;
  globs = v.globs;
}
change-IsValid (delete_glob uri) d v = record {
  datas = v.datas;
  globs = erase_first-Unique uri d.globs v.globs;
}

-- Any sequence of changes leaves a valid table valid: neither a path nor a pattern is in it twice.
pub changes-IsValid : (cs : List Change) (d : ServletDispatch) → IsValid d → IsValid (changes cs d)
unfolding changes
changes-IsValid [] d v = v
changes-IsValid (c ∷ cs) d v = changes-IsValid cs (change c d) (change-IsValid c d v)

pub init-IsValid : IsValid init
unfolding init
init-IsValid = record { datas = tt; globs = tt }

-- The answer for what is found for the path.
abbrev selected :
    (List ℕ → List ℕ → Bool) → List ℕ → ServletDispatch → Option ServletCreator → Option Servlet
selected match uri d o = elim o [
  | some c ↦ some (get c)
  | none ↦ first_match match uri d.globs d.fallback
]

-- A servlet set for a path is the one that the path gets, whatever the patterns are, and no other
-- path gets another servlet.
pub get_matched_servlet-add_servlet :
    (match : List ℕ → List ℕ → Bool) (uri : List ℕ) (s : Servlet) (d : ServletDispatch)
    → (get_matched_servlet match uri (add_servlet uri s d) ≡ some s)
      × ((path : List ℕ)
          → uri ≢ path
          → get_matched_servlet match path (add_servlet uri s d) ≡ get_matched_servlet match path d)
unfolding get_matched_servlet add_servlet add_servlet_creator get
get_matched_servlet-add_servlet match uri s d = (
  ap (selected match uri d) (find-assign uri (holds s) d.datas),
  λ path n.
      ap (selected match path d)
        (find-assign_ne uri path (holds s) d.datas (same-false uri path n)),
)

-- In a table without double entries, a path whose servlet is deleted gets what the patterns give
-- it, and no other path gets another servlet.
pub get_matched_servlet-del_servlet :
    (match : List ℕ → List ℕ → Bool) (uri : List ℕ) (d : ServletDispatch)
    → IsValid d
    → (get_matched_servlet match uri (del_servlet uri d) ≡ first_match match uri d.globs d.fallback)
      × (get_servlet uri (del_servlet uri d) ≡ none)
      × ((path : List ℕ)
          → uri ≢ path
          → get_matched_servlet match path (del_servlet uri d) ≡ get_matched_servlet match path d)
unfolding get_matched_servlet get_servlet del_servlet got
get_matched_servlet-del_servlet match uri d v = (
  ap (selected match uri d) (find-erase_first uri d.datas v.datas),
  ap got (find-erase_first uri d.datas v.datas),
  λ path n.
      ap (selected match path d) (find-erase_first_ne uri path d.datas (same-false uri path n)),
)

-- In a table without double entries, a servlet set for a pattern replaces the one that the
-- pattern had, no other pattern gets another servlet, and a deleted pattern has none.
pub get_glob_servlet-add_glob_servlet :
    (uri : List ℕ) (s : Servlet) (d : ServletDispatch)
    → IsValid d
    → (get_glob_servlet uri (add_glob_servlet uri s d) ≡ some s)
      × (get_glob_servlet uri (del_glob_servlet uri d) ≡ none)
      × ((path : List ℕ)
          → uri ≢ path
          → get_glob_servlet path (add_glob_servlet uri s d) ≡ get_glob_servlet path d)
unfolding get_glob_servlet add_glob_servlet add_glob_servlet_creator del_glob_servlet got get
get_glob_servlet-add_glob_servlet uri s d v =
    let gone = find-erase_first uri d.globs v.globs in
    (
      rw (find-append uri (erase_first uri d.globs) (holds s) gone) refl,
      rw gone refl,
      λ path n.
          let f = same-false uri path n in
          ap got (
            find-append_ne uri path (erase_first uri d.globs) (holds s) f
            ∙ find-erase_first_ne uri path d.globs f),
    )

-- No pattern of the list matches.
abbrev pub NoMatch : (List ℕ → List ℕ → Bool) → List ℕ → List (List ℕ × ServletCreator) → Type 0
NoMatch match uri [] = Unit {0}
NoMatch match uri ((p, c) ∷ gs) = (match p uri ≡ false) × NoMatch match uri gs

-- The servlet of the first of the patterns that matches, or the default.
abbrev pub Chosen :
    (List ℕ → List ℕ → Bool)
    → List ℕ
    → List (List ℕ × ServletCreator)
    → Option Servlet
    → Option Servlet
    → Type 0
Chosen match uri gs other r =
    (NoMatch match uri gs × (r ≡ other))
    ⊎ ((before : List (List ℕ × ServletCreator)) × (p : List ℕ) × (c : ServletCreator)
        × (after : List (List ℕ × ServletCreator)) × (gs ≡ before ++ ((p, c) ∷ after))
        × NoMatch match uri before
        × (match p uri ≡ true)
        × (r ≡ some (get c)))
