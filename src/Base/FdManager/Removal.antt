-- ===== src/Base/FdManager/Removal.antt =====
-- Get without auto_create, and Del.
use server_frame.Prelude.{
  ℕ, ◌≤◌, ◌≡◌, ◌≢◌, refl, sym, ap, ◌∙◌, Option, none, some, Bool, false, leb, length, set, pos,
  arith, Bool-cases, Option-cases, ℕ-cases, inl, inr, length-set, get_elem?-set_self,
  get_elem?-set_ne,
}
use server_frame.Base.FdManager.{FdContextManager, get, del}
use server_frame.Base.FdManager.Table.{
  IsValid, held, entry_of, beyond, get_far, get_near, get-held, entry_at,
}

-- Get without auto_create gives what the table holds and changes nothing.
pub get_only :
    (stat : Option Bool) (n : ℕ) (m : FdContextManager) → get stat (pos n) false m ≡ (held n m, m)
get_only stat n m = elim (Bool-cases (leb (length m.datas) n)) [
  | inl e ↦ get_far stat n false m e ∙ ap (λ o. (o, m)) (sym (beyond n m.datas (ground arith)))
  | inr e ↦
      let x = entry_at n m.datas (ground arith) in
      elim (Option-cases (held n m)) [
        | inl h ↦ get_near stat n false m e h x ∙ ap (λ o. (o, m)) (sym h)
        | inr (a, h) ↦ get-held stat n a false m e h x ∙ ap (λ o. (o, m)) (sym h)
      ]
]

kept_entry :
    (n : ℕ) (m r : FdContextManager) (i a : ℕ)
    → held n r ≡ none
    → ((j : ℕ) → n ≢ j → held j r ≡ held j m)
    → held i r ≡ some a
    → held i m ≡ some a
kept_entry n m r i a gone others h = elim (ℕ-cases n i) [
  | inl e ↦ absurd (cc (gone, ap (λ k. held k r) e, h))
  | inr d ↦ sym (others i d) ∙ h
]

removed-IsValid :
    (n : ℕ) (m r : FdContextManager)
    → IsValid m
    → 64 ≤ length r.datas
    → r.fresh ≡ m.fresh
    → held n r ≡ none
    → ((i : ℕ) → n ≢ i → held i r ≡ held i m)
    → IsValid r
removed-IsValid n m r v roomy same gone others = record {
  roomy = roomy;
  made = λ i a h. let l = v.made i a (kept_entry n m r i a gone others h) in omega arith;
  own = λ i j a h k.
      v.own i j a (kept_entry n m r i a gone others h) (kept_entry n m r j a gone others k);
}

-- After Del the table holds no context for the descriptor, and what it held for the others.
pub del-held :
    (n : ℕ) (m : FdContextManager)
    → IsValid m
    → (r : FdContextManager) × (del (pos n) m ≡ some r)
      × IsValid r
      × (held n r ≡ none)
      × ((i : ℕ) → n ≢ i → held i r ≡ held i m)
unfolding del
del-held n m v = elim (Bool-cases (leb (length m.datas) n)) [
  | inl e ↦ (m, rw (del, e) refl, v, beyond n m.datas (ground arith), λ i d. refl)
  | inr e ↦ (
    record m { datas = set m.datas n none },
    rw (del, e) refl,
    removed-IsValid n m (record m { datas = set m.datas n none }) v
        (rw (length-set m.datas n none) v.roomy) refl
        (ap entry_of (get_elem?-set_self m.datas n none (ground arith)))
        (λ i d. ap entry_of (get_elem?-set_ne m.datas n i none d)),
    ap entry_of (get_elem?-set_self m.datas n none (ground arith)),
    λ i d. ap entry_of (get_elem?-set_ne m.datas n i none d),
  )
]
