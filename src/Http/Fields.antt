-- ===== src/Http/Fields.antt =====
-- The maps of server_frame/http/http.h: std::map with CaseInsensitiveLess, as the list of its
-- entries in their order.
pub mod Laws
use server_frame.Prelude.{
  ℕ, List, [], ◌∷◌, Option, none, some, Bool, true, false, ltb, if◌then◌else◌,
}
use server_frame.Prelude.Text.{folded}

abbrev pub Fields : Type 0
Fields = List (List ℕ × List ℕ)

abbrev pub precedes : List ℕ → List ℕ → Bool
precedes [] [] = false
precedes [] (d ∷ t) = true
precedes (c ∷ s) [] = false
precedes (c ∷ s) (d ∷ t) =
    let rest = precedes s t in if ltb c d then true else if ltb d c then false else rest

-- CaseInsensitiveLess: strcasecmp is negative.
unfoldable pub less : List ℕ → List ℕ → Bool
less s t = precedes (folded s) (folded t)

unfoldable pub find : List ℕ → Fields → Option (List ℕ)
find k [] = none
find k ((j, v) ∷ m) =
    let rest = find k m in if less j k then rest else if less k j then none else some v

-- operator[], assigned to: a key that is there stays as it is spelled.
unfoldable pub assign : List ℕ → List ℕ → Fields → Fields
assign k v [] = (k, v) ∷ []
assign k v ((j, w) ∷ m) =
    let rest = assign k v m in
    if less j k then (j, w) ∷ rest else if less k j then (k, v) ∷ (j, w) ∷ m else (j, v) ∷ m

-- insert: an entry that is there stays.
unfoldable pub insert : List ℕ → List ℕ → Fields → Fields
insert k v [] = (k, v) ∷ []
insert k v ((j, w) ∷ m) =
    let rest = insert k v m in
    if less j k then (j, w) ∷ rest else if less k j then (k, v) ∷ (j, w) ∷ m else (j, w) ∷ m

unfoldable pub erase : List ℕ → Fields → Fields
erase k [] = []
erase k ((j, w) ∷ m) =
    let rest = erase k m in if less j k then (j, w) ∷ rest else if less k j then (j, w) ∷ m else m

-- `it == m.end() ? def : it->second`.
unfoldable pub find_or : List ℕ → List ℕ → Fields → List ℕ
find_or k def m = elim (find k m) [ none ↦ def | some v ↦ v ]
