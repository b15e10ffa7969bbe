-- ===== src/Http/Request/Parameters.antt =====
-- A query string that is built from keys and values is parsed into them.
use server_frame.Prelude.{
  ℕ, zero, suc, ◌<◌, ◌≡◌, ◌≢◌, refl, ap, ◌∙◌, List, [], ◌∷◌, ◌++◌, append_assoc, true, false,
  length, length-append, All, arith,
}
use server_frame.Prelude.Splits.{cut, cut_found, cut_missing}
use server_frame.Util.Url.{url_encode}
use server_frame.Util.Url.RoundTrip.{url_decode-url_encode}
use server_frame.Util.Url.Letters.{url_encode-ne}
use server_frame.Http.Fields.{Fields, insert}
use server_frame.Http.Request.{HttpRequest, parse_param, untrimmed, init_query_param}

-- The query string of a form: `key=value` with `&` between, each value encoded.
pub query_of : List (List ℕ × List ℕ) → List ℕ
query_of [] = []
query_of ((key, val) ∷ []) = key ++ (61 ∷ url_encode true val)
query_of ((key, val) ∷ p ∷ ps) = (key ++ (61 ∷ url_encode true val)) ++ (38 ∷ query_of (p ∷ ps))

pub insert_all : List (List ℕ × List ℕ) → Fields → Fields
insert_all [] m = m
insert_all ((key, val) ∷ ps) m = insert_all ps (insert key val m)

abbrev pub IsPair : List ℕ × List ℕ → Type 0
IsPair p = All (λ c. c ≢ 61) p.0 × All (λ c. c < 256) p.1

parse_last :
    (fuel : ℕ) (key val : List ℕ) (m : Fields)
    → IsPair (key, val)
    → parse_param untrimmed 38 (suc fuel) (key ++ (61 ∷ url_encode true val)) m ≡ insert key val m
unfolding parse_param
parse_last fuel key val m (hk, hv) =
    rw
      (
        parse_param,
        cut_found 61 key (url_encode true val) hk,
        cut_missing 38 (url_encode true val) (url_encode-ne true val),
      )
      (ap (λ v. insert key v m) (url_decode-url_encode true true val (λ e. e) hv))

parse_more :
    (fuel : ℕ) (key val rest : List ℕ) (m : Fields)
    → IsPair (key, val)
    → parse_param untrimmed 38 (suc fuel) ((key ++ (61 ∷ url_encode true val)) ++ (38 ∷ rest)) m
      ≡ parse_param untrimmed 38 fuel rest (insert key val m)
unfolding parse_param
parse_more fuel key val rest m (hk, hv) =
    rw (append_assoc key (61 ∷ url_encode true val) (38 ∷ rest)) (
      rw
        (
          parse_param,
          cut_found 61 key (url_encode true val ++ (38 ∷ rest)) hk,
          cut_found 38 (url_encode true val) rest (url_encode-ne true val),
        )
        (ap (λ v. parse_param untrimmed 38 fuel rest (insert key v m))
          (url_decode-url_encode true true val (λ e. e) hv)))

parse_query :
    (fuel : ℕ) (ps : List (List ℕ × List ℕ)) (m : Fields)
    → All IsPair ps
    → length (query_of ps) < fuel
    → parse_param untrimmed 38 fuel (query_of ps) m ≡ insert_all ps m
unfolding query_of insert_all
parse_query zero ps m h l = absurd (omega arith)
parse_query (suc fuel) [] m h l = unfold parse_param cut in refl
parse_query (suc fuel) ((key, val) ∷ []) m (h, _) l = parse_last fuel key val m h
parse_query (suc fuel) ((key, val) ∷ p ∷ ps) m (h, hs) l =
    let size = length-append {0} (key ++ (61 ∷ url_encode true val)) (38 ∷ query_of (p ∷ ps)) in
    parse_more fuel key val (query_of (p ∷ ps)) m h
    ∙ parse_query fuel (p ∷ ps) (insert key val m) hs (omega arith)

init_query_param_once :
    (r : HttpRequest)
    → r.query_parsed ≡ false
    → init_query_param r ≡ record r {
      params = parse_param untrimmed 38 (suc (length r.query)) r.query r.params;
      query_parsed = true;
    }
unfolding init_query_param
init_query_param_once r f = ground arith

-- A request whose query is built from keys without `=` and encoded values is parsed into just
-- these keys and values, in their order, where the first value of a key stays; then the query
-- counts as parsed.
pub init_query_param-query_of :
    (ps : List (List ℕ × List ℕ)) (r : HttpRequest)
    → All IsPair ps
    → r.query ≡ query_of ps
    → r.query_parsed ≡ false
    → init_query_param r ≡ record r { params = insert_all ps r.params; query_parsed = true }
init_query_param-query_of ps r h e f =
    init_query_param_once r f
    ∙ ap (λ m. record r { params = m; query_parsed = true })
        (ap (λ q. parse_param untrimmed 38 (suc (length q)) q r.params) e
          ∙ parse_query (suc (length (query_of ps))) ps r.params h (omega arith))
