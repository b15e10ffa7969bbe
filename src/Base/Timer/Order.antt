-- ===== src/Base/Timer/Order.antt =====
-- The set of timers as a sorted list: insert, erase and split_at by its order.
use server_frame.Prelude.{
  ℕ, ◌≡◌, ◌≢◌, refl, sym, ◌∙◌, ◌⊎◌, inl, inr, List, [], ◌∷◌, some, true, false, arith, All,
  Bool-cases, ==-false, ==_iff,
}
use server_frame.Base.Timer.{Timer, Heap, update, less, insert, erase}

abbrev pub Less : Heap → ℕ → ℕ → Type 0
Less h a b = less h a b ≡ true

-- `timers_` in the order of its comparator.
abbrev pub Sorted : Heap → List ℕ → Type 0
Sorted h [] = Unit {0}
Sorted h (x ∷ xs) = All (Less h x) xs × Sorted h xs

abbrev pub In : ℕ → List ℕ → Type 0
In a [] = ⊥
In a (x ∷ xs) = (a ≡ x) ⊎ In a xs

pub less_irrefl : (h : Heap) (a : ℕ) → less h a a ≡ false
unfolding less
less_irrefl h a = ground arith

pub less_asymm : (h : Heap) (a b : ℕ) → Less h a b → less h b a ≡ false
unfolding less
less_asymm h a b l = ground arith

pub Less-trans : (h : Heap) (a b c : ℕ) → Less h a b → Less h b c → Less h a c
unfolding less
Less-trans h a b c l k = ground arith

pub less_total : (h : Heap) (a b : ℕ) → less h a b ≡ false → less h b a ≡ false → a ≡ b
unfolding less
less_total h a b l k = ground arith

pub All-of {κ} : (P : ℕ → Type κ) {a : ℕ} (xs : List ℕ) → All P xs → In a xs → P a
All-of P [] p i = absurd i
All-of P (x ∷ xs) (p, ps) (inl e) = rw e p
All-of P (x ∷ xs) (p, ps) (inr i) = All-of P xs ps i

pub All-map {κ μ} :
    {P : ℕ → Type κ} {Q : ℕ → Type μ} (xs : List ℕ)
    → ((a : ℕ) → In a xs → P a → Q a)
    → All P xs
    → All Q xs
All-map [] f p = tt
All-map (x ∷ xs) f (p, ps) = (f x (inl refl) p, All-map xs (λ a i. f a (inr i)) ps)

Less-all : (h : Heap) (a x : ℕ) (xs : List ℕ) → Less h a x → All (Less h x) xs → All (Less h a) xs
Less-all h a x xs l p = All-map xs (λ b i q. Less-trans h a x b l q) p

-- insert puts the pointer in, and nothing else.
pub In-insert_self : (h : Heap) (a : ℕ) (xs : List ℕ) → In a (insert h a xs)
unfolding insert
In-insert_self h a [] = inl refl
In-insert_self h a (x ∷ xs) = elim (Bool-cases (less h x a)) [
  | inl e ↦ rw e (inr (In-insert_self h a xs))
  | inr e ↦ elim (Bool-cases (less h a x)) [
    | inl f ↦ rw (e, f) (inl refl)
    | inr f ↦ rw (e, f) (inl (less_total h a x f e))
  ]
]

pub In-insert : (h : Heap) (a b : ℕ) (xs : List ℕ) → In b xs → In b (insert h a xs)
unfolding insert
In-insert h a b [] i = absurd i
In-insert h a b (x ∷ xs) i = elim (Bool-cases (less h x a)) [
  | inl e ↦ rw e (elim i [ inl k ↦ inl k | inr k ↦ inr (In-insert h a b xs k) ])
  | inr e ↦ elim (Bool-cases (less h a x)) [ inl f ↦ rw (e, f) (inr i) | inr f ↦ rw (e, f) i ]
]

pub All-insert {κ} :
    (P : ℕ → Type κ) (h : Heap) (a : ℕ) (xs : List ℕ) → P a → All P xs → All P (insert h a xs)
unfolding insert
All-insert P h a [] p ps = (p, tt)
All-insert P h a (x ∷ xs) p (q, qs) = elim (Bool-cases (less h x a)) [
  | inl e ↦ rw e (q, All-insert P h a xs p qs)
  | inr e ↦ elim (Bool-cases (less h a x)) [
    | inl f ↦ rw (e, f) (p, (q, qs))
    | inr f ↦ rw (e, f) (q, qs)
  ]
]

pub insert-Sorted : (h : Heap) (a : ℕ) (xs : List ℕ) → Sorted h xs → Sorted h (insert h a xs)
unfolding insert
insert-Sorted h a [] s = (tt, tt)
insert-Sorted h a (x ∷ xs) (p, s) = elim (Bool-cases (less h x a)) [
  | inl e ↦ rw e (All-insert (Less h x) h a xs e p, insert-Sorted h a xs s)
  | inr e ↦ elim (Bool-cases (less h a x)) [
    | inl f ↦ rw (e, f) ((f, Less-all h a x xs f p), (p, s))
    | inr f ↦ rw (e, f) (p, s)
  ]
]

-- What erase leaves: a sorted set without `a`, and all the others.
pub record Erased (h : Heap) (a : ℕ) (xs : List ℕ) : Type 0 where
  pub left : List ℕ
  pub result : erase h a xs ≡ some left
  pub sorted : Sorted h left
  pub gone : All (λ b. b ≢ a) left
  pub others : (b : ℕ) → In b xs → b ≢ a → In b left
  pub subset : (b : ℕ) → In b left → In b xs

pub Less-ne : (h : Heap) (a b : ℕ) → Less h a b → b ≢ a
Less-ne h a b l e = cc (less_irrefl h a, rw e at l)

pub erase-Erased : (h : Heap) (a : ℕ) (xs : List ℕ) → Sorted h xs → In a xs → Erased h a xs
unfolding erase
erase-Erased h a [] s i = absurd i
erase-Erased h a (x ∷ xs) (p, s) (inl e) = record {
  left = xs;
  result = rw (e, less_irrefl h x);
  sorted = s;
  gone = All-map xs (λ b k l n. Less-ne h x b l (n ∙ e)) p;
  others = λ b i n. elim i [ inl k ↦ absurd (n (k ∙ sym e)) | inr k ↦ k ];
  subset = λ b i. inr i;
}
erase-Erased h a (x ∷ xs) (p, s) (inr i) =
    let r = erase-Erased h a xs s i in
    let l : Less h x a = All-of (Less h x) xs p i in
    record {
      left = x ∷ r.left;
      result = rw (l, r.result);
      sorted = (All-map r.left (λ b k q. All-of (Less h x) xs p (r.subset b k)) r.gone, r.sorted);
      gone = (λ n. Less-ne h x a l (sym n), r.gone);
      others = λ b k n. elim k [ inl j ↦ inl j | inr j ↦ inr (r.others b j n) ];
      subset = λ b k. elim k [ inl j ↦ inl j | inr j ↦ inr (r.subset b j) ];
    }

-- The order reads nothing of a timer but its time.
less_same :
    (h k : Heap) (a b : ℕ)
    → (h a).next ≡ (k a).next
    → (h b).next ≡ (k b).next
    → less h a b ≡ less k a b
unfolding less
less_same h k a b p q = rw (p, q)

pub Sorted-same :
    (h k : Heap) (xs : List ℕ) → All (λ a. (h a).next ≡ (k a).next) xs → Sorted h xs → Sorted k xs
Sorted-same h k [] e s = tt
Sorted-same h k (x ∷ xs) (e, es) (p, s) = (
  All-map xs
      (λ b i l. sym (less_same h k x b e (All-of (λ a. (h a).next ≡ (k a).next) xs es i)) ∙ l) p,
  Sorted-same h k xs es s,
)

pub erase-same :
    (h k : Heap) (a : ℕ) (xs : List ℕ)
    → ((b : ℕ) → (h b).next ≡ (k b).next)
    → erase h a xs ≡ erase k a xs
unfolding erase
erase-same h k a [] e = refl
erase-same h k a (x ∷ xs) e =
    rw (less_same h k x a (e x) (e a), less_same h k a x (e a) (e x), erase-same h k a xs e)

pub update_ne : (h : Heap) (a b : ℕ) (t : Timer) → b ≢ a → update h a t b ≡ h b
update_ne h a b t n = rw (==-false b a n)

pub update_self : (h : Heap) (a : ℕ) (t : Timer) → update h a t a ≡ t
update_self h a t = rw ((==_iff a a).1 refl)
