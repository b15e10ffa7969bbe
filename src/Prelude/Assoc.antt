-- ===== src/Prelude/Assoc.antt =====
-- Association lists with strings, as lists of bytes, for keys.
use Prim.Native.Nat.{ℕ}
use mathlib.Core.Path.{◌≡◌, refl, ◌∙◌, subst}
use mathlib.Core.Logic.{◌≢◌, inl, inr}
use mathlib.Core.Bool.{Bool, true, false, ◌&&◌}
use mathlib.Core.List.{List, [], ◌∷◌, ◌++◌}
use mathlib.Core.Option.{Option, none, some}
use server_frame.Prelude.Tests.{◌==◌, if◌then◌else◌, ==_iff, Bool-cases}

abbrev pub same : List ℕ → List ℕ → Bool
same [] [] = true
same [] (y ∷ ys) = false
same (x ∷ xs) [] = false
same (x ∷ xs) (y ∷ ys) = (x == y) && same xs ys

pub same_refl : (xs : List ℕ) → same xs xs ≡ true
same_refl [] = refl
same_refl (x ∷ xs) = rw ((==_iff x x).1 refl, same_refl xs)

pub same→≡ : (xs ys : List ℕ) → same xs ys ≡ true → xs ≡ ys
same→≡ [] [] e = refl
same→≡ [] (y ∷ ys) e = cc
same→≡ (x ∷ xs) [] e = cc
same→≡ (x ∷ xs) (y ∷ ys) e = elim (Bool-cases (x == y)) [
  | inl t ↦ let u : same xs ys ≡ true = rw t at e in rw ((==_iff x y).0 t, same→≡ xs ys u)
  | inr t ↦ let u : false ≡ true = rw t at e in cc
]

pub same-false : (xs ys : List ℕ) → xs ≢ ys → same xs ys ≡ false
same-false xs ys n = elim (Bool-cases (same xs ys)) [
  | inl e ↦ absurd (n (same→≡ xs ys e))
  | inr e ↦ e
]

same-sym : (j k : List ℕ) → same j k ≡ false → same k j ≡ false
same-sym j k e = elim (Bool-cases (same k j)) [
  | inl f ↦
      let g : same j j ≡ false = subst (λ i. same j i ≡ false) (same→≡ k j f) e in
      cc (same_refl j, g)
  | inr f ↦ f
]

module _ {ℓ} {A : Type ℓ} where
  abbrev pub find : List ℕ → List (List ℕ × A) → Option A
  find k [] = none
  find k ((j, a) ∷ xs) = let rest = find k xs in if same j k then some a else rest

  -- operator[] of a map, assigned to.
  abbrev pub assign : List ℕ → A → List (List ℕ × A) → List (List ℕ × A)
  assign k a [] = (k, a) ∷ []
  assign k a ((j, b) ∷ xs) =
      let rest = assign k a xs in if same j k then (j, a) ∷ xs else (j, b) ∷ rest

  -- The first entry of the key is erased.
  abbrev pub erase_first : List ℕ → List (List ℕ × A) → List (List ℕ × A)
  erase_first k [] = []
  erase_first k ((j, b) ∷ xs) =
      let rest = erase_first k xs in if same j k then xs else (j, b) ∷ rest

  abbrev pub Fresh : List ℕ → List (List ℕ × A) → Type ℓ
  Fresh k xs = find k xs ≡ none

  -- No key has two entries.
  abbrev pub Unique : List (List ℕ × A) → Type ℓ
  Unique [] = Unit {ℓ}
  Unique ((j, b) ∷ xs) = Fresh j xs × Unique xs

  pub find-assign : (k : List ℕ) (a : A) (xs : List (List ℕ × A)) → find k (assign k a xs) ≡ some a
  find-assign k a [] = rw (same_refl k)
  find-assign k a ((j, b) ∷ xs) = elim (Bool-cases (same j k)) [
    | inl e ↦ rw e (rw e refl)
    | inr e ↦ rw e (rw (e, find-assign k a xs))
  ]

  pub find-assign_ne :
      (k k' : List ℕ) (a : A) (xs : List (List ℕ × A))
      → same k k' ≡ false
      → find k' (assign k a xs) ≡ find k' xs
  find-assign_ne k k' a [] n = rw n
  find-assign_ne k k' a ((j, b) ∷ xs) n = elim (Bool-cases (same j k)) [
    | inl e ↦ let f : same j k' ≡ false = rw (same→≡ j k e) n in rw e (rw f refl)
    | inr e ↦ rw e (elim (Bool-cases (same j k')) [
      | inl f ↦ rw f
      | inr f ↦ rw (f, find-assign_ne k k' a xs n)
    ])
  ]

  pub find-erase_first_ne :
      (k k' : List ℕ) (xs : List (List ℕ × A))
      → same k k' ≡ false
      → find k' (erase_first k xs) ≡ find k' xs
  find-erase_first_ne k k' [] n = refl
  find-erase_first_ne k k' ((j, b) ∷ xs) n = elim (Bool-cases (same j k)) [
    | inl e ↦ let f : same j k' ≡ false = rw (same→≡ j k e) n in rw (e, f)
    | inr e ↦ rw e (elim (Bool-cases (same j k')) [
      | inl f ↦ rw f
      | inr f ↦ rw (f, find-erase_first_ne k k' xs n)
    ])
  ]

  pub find-erase_first :
      (k : List ℕ) (xs : List (List ℕ × A)) → Unique xs → find k (erase_first k xs) ≡ none
  find-erase_first k [] u = refl
  find-erase_first k ((j, b) ∷ xs) (f, u) = elim (Bool-cases (same j k)) [
    | inl e ↦ rw e (subst (λ i. find i xs ≡ none) (same→≡ j k e) f)
    | inr e ↦ rw e (rw (e, find-erase_first k xs u))
  ]

  pub assign-Unique :
      (k : List ℕ) (a : A) (xs : List (List ℕ × A)) → Unique xs → Unique (assign k a xs)
  assign-Unique k a [] u = (refl, tt)
  assign-Unique k a ((j, b) ∷ xs) (f, u) = elim (Bool-cases (same j k)) [
    | inl e ↦ rw e (f, u)
    | inr e ↦ rw e (find-assign_ne k j a xs (same-sym j k e) ∙ f, assign-Unique k a xs u)
  ]

  pub erase_first-Unique :
      (k : List ℕ) (xs : List (List ℕ × A)) → Unique xs → Unique (erase_first k xs)
  erase_first-Unique k [] u = tt
  erase_first-Unique k ((j, b) ∷ xs) (f, u) = elim (Bool-cases (same j k)) [
    | inl e ↦ rw e u
    | inr e ↦ rw e (find-erase_first_ne k j xs (same-sym j k e) ∙ f, erase_first-Unique k xs u)
  ]

  pub find-append :
      (k : List ℕ) (xs : List (List ℕ × A)) (a : A)
      → find k xs ≡ none
      → find k (xs ++ (k, a) ∷ []) ≡ some a
  find-append k [] a n = rw (same_refl k)
  find-append k ((j, b) ∷ xs) a n = elim (Bool-cases (same j k)) [
    | inl e ↦ let f : some b ≡ none = rw e at n in cc
    | inr e ↦ let f : find k xs ≡ none = rw e at n in rw (e, find-append k xs a f)
  ]

  pub find-append_ne :
      (k k' : List ℕ) (xs : List (List ℕ × A)) (a : A)
      → same k k' ≡ false
      → find k' (xs ++ (k, a) ∷ []) ≡ find k' xs
  find-append_ne k k' [] a n = rw n
  find-append_ne k k' ((j, b) ∷ xs) a n = elim (Bool-cases (same j k')) [
    | inl e ↦ rw e
    | inr e ↦ rw (e, find-append_ne k k' xs a n)
  ]

  pub append-Unique :
      (k : List ℕ) (xs : List (List ℕ × A)) (a : A)
      → Unique xs
      → find k xs ≡ none
      → Unique (xs ++ (k, a) ∷ [])
  append-Unique k [] a u n = (refl, tt)
  append-Unique k ((j, b) ∷ xs) a (f, u) n = elim (Bool-cases (same j k)) [
    | inl e ↦ let g : some b ≡ none = rw e at n in cc
    | inr e ↦
        let g : find k xs ≡ none = rw e at n in
        (find-append_ne k j xs a (same-sym j k e) ∙ f, append-Unique k xs a u g)
  ]
