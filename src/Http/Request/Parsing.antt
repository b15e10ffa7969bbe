-- ===== src/Http/Request/Parsing.antt =====
-- Parsing adds entries and changes none.
use server_frame.Prelude.{
  ℕ, zero, suc, ◌≡◌, List, [], ◌∷◌, some, true, false, not, length, if_either, Option-cases, inl,
  inr,
}
use server_frame.Prelude.Text.{codes}
use server_frame.Prelude.Splits.{cut}
use server_frame.Util.Url.{url_decode}
use server_frame.Util.Trim.{trim, blanks}
use server_frame.Http.Fields.{Fields, find, insert}
use server_frame.Http.Fields.Laws.{find-insert_kept}
use server_frame.Http.Request.{
  HttpRequest, parse_param, untrimmed, init_query_param, init_body_param, init_cookies, is_form,
  get_header,
}

-- An entry of the map stays as it is.
abbrev pub Keeps : List ℕ → List ℕ → Fields → Fields → Type 0
Keeps k v m m' = find k m ≡ some v → find k m' ≡ some v

pub parse_param-Keeps :
    (trimmed : List ℕ → List ℕ) (flag fuel : ℕ) (str k v : List ℕ) (m : Fields)
    → Keeps k v m (parse_param trimmed flag fuel str m)
unfolding parse_param
parse_param-Keeps trimmed flag zero str k v m h = h
parse_param-Keeps trimmed flag (suc fuel) str k v m h = elim (Option-cases (cut 61 str)) [
  | inl e ↦ rw (parse_param, e) h
  | inr ((key, rest), e) ↦ elim (Option-cases (cut flag rest)) [
    | inl f ↦ rw (parse_param, e, f) (find-insert_kept k v (trimmed key) (url_decode true rest) m h)
    | inr ((val, more), f) ↦
        rw (parse_param, e, f)
          (parse_param-Keeps trimmed flag fuel more k v
            (insert (trimmed key) (url_decode true val) m)
            (find-insert_kept k v (trimmed key) (url_decode true val) m h))
  ]
]

abbrev HasParam : List ℕ → List ℕ → HttpRequest → Type 0
HasParam k v q = find k q.params ≡ some v

abbrev HasCookie : List ℕ → List ℕ → HttpRequest → Type 0
HasCookie k v q = find k q.cookies ≡ some v

pub init_query_param-Keeps :
    (k v : List ℕ) (r : HttpRequest) → Keeps k v r.params (init_query_param r).params
unfolding init_query_param
init_query_param-Keeps k v r h =
    if_either (HasParam k v) r.query_parsed r _ h
      (parse_param-Keeps untrimmed 38 (suc (length r.query)) r.query k v r.params h)

pub init_body_param-Keeps :
    (k v : List ℕ) (r : HttpRequest) → Keeps k v r.params (init_body_param r).params
unfolding init_body_param
init_body_param-Keeps k v r h = if_either (HasParam k v) r.body_parsed r _ h (
    if_either (HasParam k v) (not (is_form r)) _ _ h
      (parse_param-Keeps untrimmed 38 (suc (length r.body)) r.body k v r.params h))

pub init_cookies-Keeps :
    (k v : List ℕ) (r : HttpRequest) → Keeps k v r.cookies (init_cookies r).cookies
unfolding init_cookies
init_cookies-Keeps k v r h =
    let cookie = get_header (codes "cookie") [] r in
    if_either (HasCookie k v) r.cookies_parsed r _ h (
      if_either (HasCookie k v) (elim cookie [ [] ↦ true | x ∷ xs ↦ false ]) _ _ h
        (parse_param-Keeps (trim blanks) 59 (suc (length cookie)) cookie k v r.cookies h))
