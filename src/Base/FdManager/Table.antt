-- ===== src/Base/FdManager/Table.antt =====
-- The table of contexts: what Get makes of the context that a descriptor has.
use server_frame.Prelude.{
  ℕ, suc, ◌*◌, ◌/◌, ◌≤◌, ◌<◌, ◌≡◌, ◌≢◌, refl, sym, ap, ◌∙◌, List, [], ◌∷◌, Option, none, some, Bool,
  true, false, leb, if◌then◌else◌, length, get_elem?, pos, zero, arith, Bool-cases, Option-cases,
  ℕ-cases, ==-false, replicate, inl, inr, ◌⊎◌, ==_iff, length-set, get_elem?-set_self,
  get_elem?-set_ne,
}
use server_frame.Base.FdManager.{
  FdContext, FdContextManager, resize, create, get, init, new_context,
}

-- The context that the manager holds for a descriptor.
abbrev pub held : ℕ → FdContextManager → Option ℕ
held n m = elim (get_elem? m.datas n) [ none ↦ none | some entry ↦ entry ]

-- The vector never has fewer than the 64 entries of the constructor, the contexts in it were made
-- before, and no two descriptors share one.
pub record IsValid (m : FdContextManager) : Type 0 where
  pub roomy : 64 ≤ length m.datas
  pub made : (i a : ℕ) → held i m ≡ some a → a < m.fresh
  pub own : (i j a : ℕ) → held i m ≡ some a → held j m ≡ some a → i ≡ j

length-resize : (n : ℕ) (xs : List (Option ℕ)) → length (resize n xs) ≡ n
unfolding resize
length-resize zero xs = refl
length-resize (suc n) [] = ap suc (length-resize n [])
length-resize (suc n) (x ∷ xs) = ap suc (length-resize n xs)

abbrev pub entry_of : Option (Option ℕ) → Option ℕ
entry_of o = elim o [ none ↦ none | some entry ↦ entry ]

-- Growing the vector changes no entry.
resize_keeps :
    (n i : ℕ) (xs : List (Option ℕ))
    → length xs ≤ n
    → entry_of (get_elem? (resize n xs) i) ≡ entry_of (get_elem? xs i)
unfolding resize
resize_keeps zero i [] l = refl
resize_keeps zero i (x ∷ xs) l = absurd (omega arith)
resize_keeps (suc n) zero [] l = refl
resize_keeps (suc n) (suc i) [] l = resize_keeps n i [] (omega arith)
resize_keeps (suc n) zero (x ∷ xs) l = refl
resize_keeps (suc n) (suc i) (x ∷ xs) l = resize_keeps n i xs (omega arith)

abbrev room : ℕ → FdContextManager → List (Option ℕ)
room n m = if leb (length m.datas) n then resize (n * 3 / 2) m.datas else m.datas

room_lem :
    (n : ℕ) (m : FdContextManager)
    → 64 ≤ length m.datas
    → (n < length (room n m))
      × (64 ≤ length (room n m))
      × ((i : ℕ) → entry_of (get_elem? (room n m) i) ≡ held i m)
room_lem n m v = elim (Bool-cases (leb (length m.datas) n)) [
  | inl e ↦
      let size = length-resize (n * 3 / 2) m.datas in
      let far : length m.datas ≤ n = ground arith in
      rw (e, size) (omega arith, omega arith, λ i. resize_keeps (n * 3 / 2) i m.datas (omega arith))
  | inr e ↦ rw e (ground arith, v, λ i. refl)
]

-- What a call of Get for the descriptor `n` gives.
pub record Gets (stat : Option Bool) (n : ℕ) (m : FdContextManager)
    (r : Option ℕ × FdContextManager) : Type 0 where
  pub valid : IsValid r.1
  pub address : ℕ
  pub result : r.0 ≡ some address
  pub holds : held n r.1 ≡ some address
  pub others : (i : ℕ) → n ≢ i → held i r.1 ≡ held i m
  pub alone : (i : ℕ) → n ≢ i → held i r.1 ≢ some address
  pub objects : (a : ℕ) → a ≢ address → r.1.objects a ≡ m.objects a
  pub fresh_or_held :
      (held n m ≡ some address) × (r.1 ≡ m)
      ⊎ (held n m ≡ none) × (address ≡ m.fresh) × (r.1.objects address ≡ new_context stat n)

new_address : (m : FdContextManager) → IsValid m → (i : ℕ) → held i m ≢ some m.fresh
new_address m v i q = let l = v.made i m.fresh q in absurd (omega arith)

some_is : {a b : ℕ} → some a ≡ some b → a ≡ b
some_is {a} e = ap (λ o. elim o [ none ↦ a | some x ↦ x ]) e

-- One descriptor gets the next new context.
added-IsValid :
    (n : ℕ) (m r : FdContextManager)
    → IsValid m
    → 64 ≤ length r.datas
    → r.fresh ≡ suc m.fresh
    → held n r ≡ some m.fresh
    → ((i : ℕ) → n ≢ i → held i r ≡ held i m)
    → IsValid r
added-IsValid n m r v roomy next here others = record {
  roomy = roomy;
  made = λ i a h. elim (ℕ-cases n i) [
    | inl e ↦ let f : m.fresh ≡ a = some_is (sym here ∙ ap (λ k. held k r) e ∙ h) in omega arith
    | inr d ↦ let l = v.made i a (sym (others i d) ∙ h) in omega arith
  ];
  own = λ i j a h k. elim (ℕ-cases n i) [
    | inl e ↦ elim (ℕ-cases n j) [
      | inl f ↦ sym e ∙ f
      | inr d ↦
          let g : m.fresh ≡ a = some_is (sym here ∙ ap (λ x. held x r) e ∙ h) in
          absurd (new_address m v j (sym (others j d) ∙ k ∙ ap some (sym g)))
    ]
    | inr d ↦ elim (ℕ-cases n j) [
      | inl f ↦
          let g : m.fresh ≡ a = some_is (sym here ∙ ap (λ x. held x r) f ∙ k) in
          absurd (new_address m v i (sym (others i d) ∙ h ∙ ap some (sym g)))
      | inr c ↦ v.own i j a (sym (others i d) ∙ h) (sym (others j c) ∙ k)
    ]
  ];
}

create-Gets :
    (stat : Option Bool) (n : ℕ) (m : FdContextManager)
    → IsValid m
    → held n m ≡ none
    → Gets stat n m (create stat n m)
unfolding create
create-Gets stat n m v h =
    let (l, more, keeps) = room_lem n m v.roomy in
    let filled = length-set (room n m) n (some m.fresh) in
    record {
      valid =
          added-IsValid n m (create stat n m).1 v (rw filled more) refl
            (ap entry_of (get_elem?-set_self (room n m) n (some m.fresh) l))
            (λ i d. ap entry_of (get_elem?-set_ne (room n m) n i (some m.fresh) d) ∙ keeps i);
      address = m.fresh;
      result = refl;
      holds = ap entry_of (get_elem?-set_self (room n m) n (some m.fresh) l);
      others = λ i d. ap entry_of (get_elem?-set_ne (room n m) n i (some m.fresh) d) ∙ keeps i;
      alone = λ i d q.
          new_address m v i
            (sym (ap entry_of (get_elem?-set_ne (room n m) n i (some m.fresh) d) ∙ keeps i) ∙ q);
      objects = λ a d. rw (==-false a m.fresh d) refl;
      fresh_or_held = inr (h, refl, rw ((==_iff m.fresh m.fresh).1 refl) refl);
    }

pub get_far :
    (stat : Option Bool) (n : ℕ) (auto : Bool) (m : FdContextManager)
    → leb (length m.datas) n ≡ true
    → get stat (pos n) auto m ≡ (if auto then create stat n m else (none, m))
unfolding get
get_far stat n auto m e = rw (get, e) refl

pub get_near :
    (stat : Option Bool) (n : ℕ) (auto : Bool) (m : FdContextManager)
    → leb (length m.datas) n ≡ false
    → held n m ≡ none
    → (x : Option ℕ) × (get_elem? m.datas n ≡ some x)
    → get stat (pos n) auto m ≡ (if auto then create stat n m else (none, m))
unfolding get
get_near stat n auto m e h (none, f) = rw (get, e, f) refl
get_near stat n auto m e h (some a, f) = let g : some a ≡ none = rw (held, f) at h in cc

pub get-held :
    (stat : Option Bool) (n a : ℕ) (auto : Bool) (m : FdContextManager)
    → leb (length m.datas) n ≡ false
    → held n m ≡ some a
    → (x : Option ℕ) × (get_elem? m.datas n ≡ some x)
    → get stat (pos n) auto m ≡ (some a, m)
unfolding get
get-held stat n a auto m e h (none, f) = let g : none ≡ some a = rw (held, f) at h in cc
get-held stat n a auto m e h (some b, f) =
    let g : some b ≡ some a = rw (held, f) at h in rw (get, e, f) (ap (λ o. (o, m)) g)

pub entry_at :
    (n : ℕ) (xs : List (Option ℕ)) → n < length xs → (x : Option ℕ) × (get_elem? xs n ≡ some x)
entry_at n [] l = absurd (omega arith)
entry_at zero (x ∷ xs) l = (x, refl)
entry_at (suc n) (x ∷ xs) l = entry_at n xs (omega arith)

pub beyond : (n : ℕ) (xs : List (Option ℕ)) → length xs ≤ n → entry_of (get_elem? xs n) ≡ none
beyond n [] l = refl
beyond zero (x ∷ xs) l = absurd (omega arith)
beyond (suc n) (x ∷ xs) l = beyond n xs (omega arith)

-- Get with auto_create gives a context for every descriptor that is not negative: the one that
-- the table holds, with nothing changed, or else a new one, which the table then holds. No other
-- descriptor has that context, none gets another one, and no other context changes.
pub get-Gets :
    (stat : Option Bool) (n : ℕ) (m : FdContextManager)
    → IsValid m
    → Gets stat n m (get stat (pos n) true m)
get-Gets stat n m v = elim (Bool-cases (leb (length m.datas) n)) [
  | inl e ↦ rw (get_far stat n true m e) (create-Gets stat n m v (beyond n m.datas (ground arith)))
  | inr e ↦
      let x = entry_at n m.datas (ground arith) in
      elim (Option-cases (held n m)) [
        | inl h ↦ rw (get_near stat n true m e h x) (create-Gets stat n m v h)
        | inr (a, h) ↦ rw (get-held stat n a true m e h x) (record {
          valid = v;
          address = a;
          result = refl;
          holds = h;
          others = λ i d. refl;
          alone = λ i d q. d (v.own n i a h q);
          objects = λ b d. refl;
          fresh_or_held = inl (h, refl);
        })
      ]
]

replicate-none : (n i : ℕ) → entry_of (get_elem? (replicate n none) i) ≡ none
unfolding replicate
replicate-none zero i = refl
replicate-none (suc n) zero = refl
replicate-none (suc n) (suc i) = replicate-none n i

pub init-IsValid : (objects : ℕ → FdContext) → IsValid (init objects)
unfolding init
init-IsValid objects = record {
  roomy = omega arith;
  made = λ i a h. absurd (cc (replicate-none 64 i, h));
  own = λ i j a h k. absurd (cc (replicate-none 64 i, h));
}
