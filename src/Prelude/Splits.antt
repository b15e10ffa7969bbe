-- ===== src/Prelude/Splits.antt =====
-- A list cut where an element first stands.
use Prim.Native.Nat.{ℕ}
use mathlib.Core.Path.{◌≡◌, refl, ap, subst}
use mathlib.Core.Logic.{◌≢◌, inl, inr}
use mathlib.Core.List.{List, [], ◌∷◌, ◌++◌}
use mathlib.Core.Option.{Option, none, some}
use server_frame.Prelude.Tests.{◌==◌, if◌then◌else◌, ==_iff, ==-false, ℕ-cases}
use server_frame.Prelude.Lists.{All}

-- str.find(c): the bytes before it and behind it.
unfoldable pub cut : ℕ → List ℕ → Option (List ℕ × List ℕ)
cut c [] = none
cut c (d ∷ str) =
    let rest : Option (List ℕ × List ℕ) = elim (cut c str) [
      | none ↦ none
      | some (before, behind) ↦ some (d ∷ before, behind)
    ] in
    if d == c then some ([], str) else rest

pub cut_found :
    (c : ℕ) (before behind : List ℕ)
    → All (λ d. d ≢ c) before
    → cut c (before ++ (c ∷ behind)) ≡ some (before, behind)
unfolding cut
cut_found c [] behind h = rw ((==_iff c c).1 refl)
cut_found c (d ∷ before) behind (n, h) = rw (cut_found c before behind h, ==-false d c n)

pub cut_missing : (c : ℕ) (str : List ℕ) → All (λ d. d ≢ c) str → cut c str ≡ none
unfolding cut
cut_missing c [] h = refl
cut_missing c (d ∷ str) (n, h) = rw (cut_missing c str h, ==-false d c n)

abbrev Cuts : ℕ → List ℕ → Option (List ℕ × List ℕ) → Type 0
Cuts c str none = All (λ d. d ≢ c) str
Cuts c str (some (before, behind)) = (str ≡ before ++ (c ∷ behind)) × All (λ d. d ≢ c) before

cut-Cuts : (c : ℕ) (str : List ℕ) → Cuts c str (cut c str)
unfolding cut
cut-Cuts c [] = tt
cut-Cuts c (d ∷ str) = elim (ℕ-cases d c) [
  | inl e ↦ rw ((==_iff d c).1 e) (ap (λ x. x ∷ str) e, tt)
  | inr n ↦ rw (==-false d c n) (further c d str (cut c str) n (cut-Cuts c str))
]
  where
    further :
        (c d : ℕ) (str : List ℕ) (o : Option (List ℕ × List ℕ))
        → d ≢ c
        → Cuts c str o
        → Cuts c
            (d ∷ str)
            (elim o [ none ↦ none | some (before, behind) ↦ some (d ∷ before, behind) ])
    further c d str none n h = (n, h)
    further c d str (some (before, behind)) n (e, h) = (ap (◌∷◌ d) e, (n, h))

-- What a cut tells of the list.
pub cut_splits :
    (c : ℕ) (str before behind : List ℕ)
    → cut c str ≡ some (before, behind)
    → (str ≡ before ++ (c ∷ behind)) × All (λ d. d ≢ c) before
cut_splits c str before behind e = subst (Cuts c str) e (cut-Cuts c str)

pub cut_absent : (c : ℕ) (str : List ℕ) → cut c str ≡ none → All (λ d. d ≢ c) str
cut_absent c str e = subst (Cuts c str) e (cut-Cuts c str)
