-- ===== src/Http/Dump/Headers.antt =====
-- The lines of the headers behind a change of the connection header.
use server_frame.Prelude.{
  ℕ, ◌≡◌, sym, ap, ◌∙◌, List, [], ◌∷◌, ◌++◌, Bool, true, false, Bool-cases, inl, inr, same,
}
use server_frame.Prelude.Text.{codes, folded, same_folded}
use server_frame.Http.Fields.{Fields, less, assign}
use server_frame.Http.Fields.Laws.{less_total}
use server_frame.Http.Dump.{header_line, header_lines}

abbrev pub is_connection : List ℕ → Bool
is_connection key = same_folded key (codes "connection")

is_connection_like :
    (j k : List ℕ) → folded j ≡ folded k → is_connection k ≡ true → is_connection j ≡ true
unfolding same_folded
is_connection_like j k e h = ap (λ f. same f (folded (codes "connection"))) e ∙ h

skipped :
    (j v : List ℕ) (m : Fields)
    → is_connection j ≡ true
    → header_lines false ((j, v) ∷ m) ≡ header_lines false m
unfolding header_lines header_line
skipped j v m h = rw h

next_line :
    (j w : List ℕ) (m m' : Fields)
    → header_lines false m ≡ header_lines false m'
    → header_lines false ((j, w) ∷ m) ≡ header_lines false ((j, w) ∷ m')
unfolding header_lines
next_line j w m m' e = ap (λ t. header_line false j w ++ t) e

pub header_lines-assign :
    (k v : List ℕ) (m : Fields)
    → is_connection k ≡ true
    → header_lines false (assign k v m) ≡ header_lines false m
unfolding assign
header_lines-assign k v [] h = skipped k v [] h
header_lines-assign k v ((j, w) ∷ m) h = elim (Bool-cases (less j k)) [
  | inl e ↦ rw (assign, e) (next_line j w (assign k v m) m (header_lines-assign k v m h))
  | inr e ↦ elim (Bool-cases (less k j)) [
    | inl f ↦ rw (assign, e, f) (skipped k v ((j, w) ∷ m) h)
    | inr f ↦
        let c = is_connection_like j k (less_total j k e f) h in
        rw (assign, e, f) (skipped j v m c ∙ sym (skipped j w m c))
  ]
]
