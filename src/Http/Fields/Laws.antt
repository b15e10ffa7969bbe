-- ===== src/Http/Fields/Laws.antt =====
-- The order of the keys, and lookups behind each change of a map.
use server_frame.Prelude.{
  ℕ, ◌≡◌, refl, sym, ap, ◌∙◌, List, [], ◌∷◌, Option, none, some, true, false, arith, Bool-cases,
  inl, inr,
}
use server_frame.Prelude.Text.{folded}
use server_frame.Http.Fields.{Fields, precedes, less, find, find_or, assign, insert}

precedes_irrefl : (s : List ℕ) → precedes s s ≡ false
precedes_irrefl [] = refl
precedes_irrefl (c ∷ s) = ground (arith, precedes_irrefl s)

precedes_trans : (r s t : List ℕ) → precedes r s ≡ true → precedes s t ≡ true → precedes r t ≡ true
precedes_trans [] [] t h k = cc
precedes_trans [] (d ∷ s) [] h k = cc
precedes_trans [] (d ∷ s) (e ∷ t) h k = refl
precedes_trans (c ∷ r) [] t h k = cc
precedes_trans (c ∷ r) (d ∷ s) [] h k = cc
precedes_trans (c ∷ r) (d ∷ s) (e ∷ t) h k = ground (arith, precedes_trans r s t)

precedes_total : (s t : List ℕ) → precedes s t ≡ false → precedes t s ≡ false → s ≡ t
precedes_total [] [] h k = refl
precedes_total [] (d ∷ t) h k = cc
precedes_total (c ∷ s) [] h k = cc
precedes_total (c ∷ s) (d ∷ t) h k = ground (arith, precedes_total s t)

pub less_irrefl : (k : List ℕ) → less k k ≡ false
unfolding less
less_irrefl k = precedes_irrefl (folded k)

less_trans : (i j k : List ℕ) → less i j ≡ true → less j k ≡ true → less i k ≡ true
unfolding less
less_trans i j k = precedes_trans (folded i) (folded j) (folded k)

-- Keys of which neither is less differ at most in their case.
pub less_total : (j k : List ℕ) → less j k ≡ false → less k j ≡ false → folded j ≡ folded k
unfolding less
less_total j k = precedes_total (folded j) (folded k)

less_left : (i j k : List ℕ) → folded i ≡ folded j → less i k ≡ less j k
unfolding less
less_left i j k e = rw e

less_right : (i j k : List ℕ) → folded i ≡ folded j → less k i ≡ less k j
unfolding less
less_right i j k e = rw e

pub find-assign : (k v : List ℕ) (m : Fields) → find k (assign k v m) ≡ some v
unfolding find assign
find-assign k v [] = rw (less_irrefl k)
find-assign k v ((j, w) ∷ m) = elim (Bool-cases (less j k)) [
  | inl e ↦ rw (assign, e) (rw (find, e) (find-assign k v m))
  | inr e ↦ elim (Bool-cases (less k j)) [
    | inl f ↦ rw (assign, e, f) (rw (find, less_irrefl k))
    | inr f ↦ rw (assign, e, f) (rw (find, e, f))
  ]
]

-- An insertion does not change what an entry holds.
pub find-insert_kept :
    (k v j w : List ℕ) (m : Fields) → find k m ≡ some v → find k (insert j w m) ≡ some v
unfolding find insert
find-insert_kept k v j w [] h = cc
find-insert_kept k v j w ((i, u) ∷ m) h = elim (Bool-cases (less i j)) [
  | inl e ↦
      rw (insert, e)
        (elim (Bool-cases (less i k)) [
          | inl f ↦
              let g : find k m ≡ some v = rw (find, f) at h in
              rw (find, f) (find-insert_kept k v j w m g)
          | inr f ↦ elim (Bool-cases (less k i)) [
            | inl g ↦ let b : none ≡ some v = rw (find, f, g) at h in cc
            | inr g ↦ let b : some u ≡ some v = rw (find, f, g) at h in rw (find, f, g) b
          ]
        ])
  | inr e ↦ elim (Bool-cases (less j i)) [
    | inl f ↦ rw (insert, e, f) (rw (find, before k v j i u m f h) h)
    | inr f ↦ rw (insert, e, f) h
  ]
]
  where
    before :
        (k v j i u : List ℕ) (m : Fields)
        → less j i ≡ true
        → find k ((i, u) ∷ m) ≡ some v
        → less j k ≡ true
    before k v j i u m f h = elim (Bool-cases (less i k)) [
      | inl g ↦ less_trans j i k f g
      | inr g ↦ elim (Bool-cases (less k i)) [
        | inl b ↦ let c : none ≡ some v = rw (find, g, b) at h in cc
        | inr b ↦ sym (less_right i k j (less_total i k g b)) ∙ f
      ]
    ]

pub find_or_found : (k v def : List ℕ) (m : Fields) → find k m ≡ some v → find_or k def m ≡ v
unfolding find_or
find_or_found k v def m h = ap (λ (o : Option (List ℕ)). elim o [ none ↦ def | some w ↦ w ]) h
