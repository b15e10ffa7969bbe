-- ===== src/Http/Servlet.antt =====
-- server_frame/http/servlet.h and servlet.cc: which servlet handles a path. A string is the list
-- of its bytes. `match` is the test that fnmatch(pattern, uri, 0) is 0, which is the C library's.
pub mod Dispatch
use server_frame.Prelude.{
  ℕ, List, [], ◌∷◌, ◌++◌, Option, none, some, Bool, true, false, if◌then◌else◌, same, find, assign,
  erase_first,
}

-- A servlet object, a callback in a FunctionServlet, a new object of a class, and the
-- NotFoundServlet.
pub data Servlet : Type 0 where
  object : ℕ → Servlet
  function : ℕ → Servlet
  new_object : ℕ → Servlet
  not_found : Servlet

-- HoldServletCreator and ServletCreator<T>; a class is a number.
pub data ServletCreator : Type 0 where
  holds : Servlet → ServletCreator
  makes : ℕ → ServletCreator

-- IServletCreator::Get.
pub get : ServletCreator → Servlet
get (holds s) = s
get (makes t) = new_object t

pub record ServletDispatch : Type 0 where
  pub datas : List (List ℕ × ServletCreator)
  pub globs : List (List ℕ × ServletCreator)
  pub fallback : Option Servlet

pub init : ServletDispatch
init = record { datas = []; globs = []; fallback = some not_found }

pub add_servlet_creator : List ℕ → ServletCreator → ServletDispatch → ServletDispatch
add_servlet_creator uri c d = record d { datas = assign uri c d.datas }

pub add_servlet : List ℕ → Servlet → ServletDispatch → ServletDispatch
unfolding add_servlet_creator
add_servlet uri s d = add_servlet_creator uri (holds s) d

pub add_function : List ℕ → ℕ → ServletDispatch → ServletDispatch
unfolding add_servlet
add_function uri cb d = add_servlet uri (function cb) d

-- The loop erases the first entry of the pattern, and the new one goes to the end.
pub add_glob_servlet_creator : List ℕ → ServletCreator → ServletDispatch → ServletDispatch
add_glob_servlet_creator uri c d = record d { globs = erase_first uri d.globs ++ ((uri, c) ∷ []) }

pub add_glob_servlet : List ℕ → Servlet → ServletDispatch → ServletDispatch
unfolding add_glob_servlet_creator
add_glob_servlet uri s d = add_glob_servlet_creator uri (holds s) d

pub add_glob_function : List ℕ → ℕ → ServletDispatch → ServletDispatch
unfolding add_glob_servlet
add_glob_function uri cb d = add_glob_servlet uri (function cb) d

pub del_servlet : List ℕ → ServletDispatch → ServletDispatch
del_servlet uri d = record d { datas = erase_first uri d.datas }

pub del_glob_servlet : List ℕ → ServletDispatch → ServletDispatch
del_glob_servlet uri d = record d { globs = erase_first uri d.globs }

pub set_default : Option Servlet → ServletDispatch → ServletDispatch
set_default s d = record d { fallback = s }

got : Option ServletCreator → Option Servlet
unfolding get
got o = elim o [ none ↦ none | some c ↦ some (get c) ]

pub get_servlet : List ℕ → ServletDispatch → Option Servlet
unfolding got
get_servlet uri d = got (find uri d.datas)

pub get_glob_servlet : List ℕ → ServletDispatch → Option Servlet
unfolding got
get_glob_servlet uri d = got (find uri d.globs)

-- The loop of GetMatchedServlet over the patterns.
pub first_match :
    (List ℕ → List ℕ → Bool)
    → List ℕ
    → List (List ℕ × ServletCreator)
    → Option Servlet
    → Option Servlet
unfolding get
first_match match uri [] other = other
first_match match uri ((pattern, c) ∷ gs) other =
    let rest = first_match match uri gs other in if match pattern uri then some (get c) else rest

pub get_matched_servlet : (List ℕ → List ℕ → Bool) → List ℕ → ServletDispatch → Option Servlet
unfolding get first_match
get_matched_servlet match uri d = elim (find uri d.datas) [
  | some c ↦ some (get c)
  | none ↦ first_match match uri d.globs d.fallback
]

-- ServletDispatch::Handle: the servlet that handles the request; without one it answers nothing.
pub handle : (List ℕ → List ℕ → Bool) → List ℕ → ServletDispatch → Option Servlet
unfolding get_matched_servlet
handle match path d = get_matched_servlet match path d

-- ListAllServletCreator and ListAllGlobServletCreator, into the map `infos`.
pub list_all :
    List (List ℕ × ServletCreator) → List (List ℕ × ServletCreator) → List (List ℕ × ServletCreator)
list_all [] infos = infos
list_all ((uri, c) ∷ rest) infos = list_all rest (assign uri c infos)
