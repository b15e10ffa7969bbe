-- ===== src/Log/Patterns.antt =====
-- A pattern that is built from texts and directives is read as their items.
use server_frame.Prelude.{
  ℕ, ◌≡◌, ◌≢◌, refl, sym, ap, ◌∙◌, List, [], ◌∷◌, ◌++◌, append-nil, append_assoc, Option, Bool,
  true, false, All, arith,
}
use server_frame.Log.{
  Piece, text, directive, State, flush, loop, FormatItem, string_item, item, is_key, to_item,
  to_items, init,
}
use server_frame.Log.Directives.{format_text, format_of, Ends, IsFormat, loop_text, loop_directive}

-- A directive of one letter, perhaps with a format, and the text behind it.
pub record Part : Type 0 where
  pub letter : ℕ
  pub format : Option (List ℕ)
  pub behind : List ℕ

pub pattern_of : List Part → List ℕ
pattern_of [] = []
pattern_of (p ∷ ps) = 37 ∷ p.letter ∷ (format_text p.format ++ (p.behind ++ pattern_of ps))

abbrev pub text_items : List ℕ → List FormatItem
text_items [] = []
text_items (c ∷ cs) = string_item (c ∷ cs) ∷ []

pub items_of : List Part → List FormatItem
items_of [] = []
items_of (p ∷ ps) = item p.letter (format_of p.format) ∷ (text_items p.behind ++ items_of ps)

abbrev pub IsPart : Part → Type 0
IsPart p = (is_key p.letter ≡ true) × IsFormat p.format p.behind × All (λ c. c ≢ 37) p.behind

abbrev text_pieces : List ℕ → List Piece
text_pieces [] = []
text_pieces (c ∷ cs) = text (c ∷ cs) ∷ []

pieces_of : List Part → List Piece
pieces_of [] = []
pieces_of (p ∷ ps) =
    directive (p.letter ∷ []) (format_of p.format) ∷ (text_pieces p.behind ++ pieces_of ps)

flush_text :
    (v : List Piece) (t : List ℕ) (e : Bool)
    → flush (record { vec = v; nstr = t; is_error = e }) ≡ v ++ text_pieces t
flush_text v [] e = sym (append-nil v)
flush_text v (c ∷ t) e = refl

pattern_of-Ends : (ps : List Part) → Ends (pattern_of ps)
unfolding pattern_of
pattern_of-Ends [] = tt
pattern_of-Ends (p ∷ ps) = (refl, omega arith)

-- What the loop adds to the pieces.
loop_parts :
    (ps : List Part) (s : State)
    → All IsPart ps
    → (flush (loop 0 s (pattern_of ps)) ≡ flush s ++ pieces_of ps)
      × ((loop 0 s (pattern_of ps)).is_error ≡ s.is_error)
unfolding pattern_of pieces_of
loop_parts [] s h = unfold loop in (sym (append-nil (flush s)), refl)
loop_parts (p ∷ ps) s ((key, format, plain), hs) =
    let d = directive (p.letter ∷ []) (format_of p.format) in
    let next : State = record s { vec = flush s ++ (d ∷ []); nstr = p.behind } in
    let step : loop 0 s (pattern_of (p ∷ ps)) ≡ loop 0 next (pattern_of ps) =
      loop_directive p.letter p.format p.behind (pattern_of ps) s key format (pattern_of-Ends ps)
      ∙ loop_text p.behind (pattern_of ps) (record s { vec = flush s ++ (d ∷ []); nstr = [] })
          plain in
    let (vec, error) = loop_parts ps next hs in
    (
      ap flush step
          ∙ vec
          ∙ ap (λ v. v ++ pieces_of ps) (flush_text (flush s ++ (d ∷ [])) p.behind s.is_error)
          ∙ append_assoc (flush s ++ (d ∷ [])) (text_pieces p.behind) (pieces_of ps)
          ∙ append_assoc (flush s) (d ∷ []) (text_pieces p.behind ++ pieces_of ps),
      ap (λ (u : State). u.is_error) step ∙ error,
    )

to_items_text :
    (t : List ℕ) (ps : List Piece) (is : List FormatItem)
    → to_items ps false ≡ (is, false)
    → to_items (text_pieces t ++ ps) false ≡ (text_items t ++ is, false)
unfolding to_items to_item
to_items_text [] ps is h = h
to_items_text (c ∷ t) ps is h = rw h

to_items_parts :
    (ps : List Part) → All IsPart ps → to_items (pieces_of ps) false ≡ (items_of ps, false)
unfolding to_items to_item pieces_of items_of
to_items_parts [] h = refl
to_items_parts (p ∷ ps) ((key, format, plain), hs) =
    let rest = to_items_text p.behind (pieces_of ps) (items_of ps) (to_items_parts ps hs) in
    rw (key, rest)

-- A pattern of texts without `%` and of directives that name an item, each with a format without
-- `}` or followed by a byte that no name goes on with, is read without an error as these texts
-- and items in their order, where an empty text gives no item.
pub init-pattern_of :
    (t : List ℕ) (ps : List Part)
    → All (λ c. c ≢ 37) t
    → All IsPart ps
    → init (t ++ pattern_of ps) ≡ (text_items t ++ items_of ps, false)
unfolding init
init-pattern_of t ps plain h =
    let s : State = record { vec = []; nstr = []; is_error = false } in
    let s' : State = record { vec = []; nstr = t; is_error = false } in
    let first = loop_text t (pattern_of ps) s plain in
    let (vec, error) = loop_parts ps s' h in
    let pieces : flush (loop 0 s (t ++ pattern_of ps)) ≡ text_pieces t ++ pieces_of ps =
      ap flush first ∙ vec ∙ ap (λ v. v ++ pieces_of ps) (flush_text [] t false) in
    let fine : (loop 0 s (t ++ pattern_of ps)).is_error ≡ false =
      ap (λ (u : State). u.is_error) first ∙ error in
    ap (λ v. to_items v (loop 0 s (t ++ pattern_of ps)).is_error) pieces
    ∙ ap (to_items (text_pieces t ++ pieces_of ps)) fine
    ∙ to_items_text t (pieces_of ps) (items_of ps) (to_items_parts ps h)
