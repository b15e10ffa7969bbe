-- ===== src/Base/Timer/Due.antt =====
-- The part of the set that is due at a time, which ListExpiredCb takes out.
use server_frame.Prelude.{
  ℕ, ◌≤◌, ◌<◌, ◌≡◌, ◌≢◌, refl, ap, ◌⊎◌, inl, inr, List, [], ◌∷◌, false, leb, if◌then◌else◌, arith,
  All, Bool-cases,
}
use server_frame.Base.Timer.{TimerManager, Heap, less, split_at}
use server_frame.Base.Timer.Order.{Sorted, In, Less, All-map, Less-ne}
use server_frame.Base.Timer.Invariant.{Holding, IsValid}

-- The timers of the set that are due at `now`, and the others.
abbrev pub due : Heap → ℕ → List ℕ → List ℕ
due h now [] = []
due h now (x ∷ xs) = let rest = due h now xs in if leb (h x).next now then x ∷ rest else rest

abbrev pub later : Heap → ℕ → List ℕ → List ℕ
later h now [] = []
later h now (x ∷ xs) = let rest = later h now xs in if leb (h x).next now then rest else x ∷ rest

Less-le : (h : Heap) (a b : ℕ) → Less h a b → (h a).next ≤ (h b).next
unfolding less
Less-le h a b l = ground arith

-- Behind a timer that is not due there is none that is.
pub none_due :
    (h : Heap) (now x : ℕ) (xs : List ℕ)
    → now < (h x).next
    → All (Less h x) xs
    → (due h now xs ≡ []) × (later h now xs ≡ xs)
none_due h now x [] l p = (refl, refl)
none_due h now x (y ∷ ys) l (p, ps) =
    let (d, k) = none_due h now x ys l ps in
    let f : leb (h y).next now ≡ false = ground (arith, Less-le h x y p) in (rw (f, d), rw (f, k))

split_step :
    (h : Heap) (now a x : ℕ) (xs : List ℕ)
    → split_at h now a (x ∷ xs) ≡ (
        if leb (h x).next now
        then (x ∷ (split_at h now a xs).0, (split_at h now a xs).1)
        else ([], x ∷ xs))
unfolding split_at
split_step h now a x xs = ground arith

-- The split of a sorted set is at the last timer that is due.
pub split_at_lem :
    (h : Heap) (now a : ℕ) (xs : List ℕ)
    → Sorted h xs
    → split_at h now a xs ≡ (due h now xs, later h now xs)
split_at_lem h now a [] s = unfold split_at in refl
split_at_lem h now a (x ∷ xs) (p, s) = elim (Bool-cases (leb (h x).next now)) [
  | inl e ↦ rw (split_step h now a x xs, e, split_at_lem h now a xs s)
  | inr e ↦
      let (d, k) = none_due h now x xs (ground arith) p in rw (split_step h now a x xs, e, d, k)
]

All-due {κ} : (P : ℕ → Type κ) (h : Heap) (now : ℕ) (xs : List ℕ) → All P xs → All P (due h now xs)
All-due P h now [] p = tt
All-due P h now (x ∷ xs) (p, ps) = elim (Bool-cases (leb (h x).next now)) [
  | inl e ↦ rw e (p, All-due P h now xs ps)
  | inr e ↦ rw e (All-due P h now xs ps)
]

All-later {κ} :
    (P : ℕ → Type κ) (h : Heap) (now : ℕ) (xs : List ℕ) → All P xs → All P (later h now xs)
All-later P h now [] p = tt
All-later P h now (x ∷ xs) (p, ps) = elim (Bool-cases (leb (h x).next now)) [
  | inl e ↦ rw e (All-later P h now xs ps)
  | inr e ↦ rw e (p, All-later P h now xs ps)
]

due_early : (h : Heap) (now : ℕ) (xs : List ℕ) → All (λ a. (h a).next ≤ now) (due h now xs)
due_early h now [] = tt
due_early h now (x ∷ xs) = elim (Bool-cases (leb (h x).next now)) [
  | inl e ↦ rw e (ground arith, due_early h now xs)
  | inr e ↦ rw e (due_early h now xs)
]

later_late : (h : Heap) (now : ℕ) (xs : List ℕ) → All (λ a. now < (h a).next) (later h now xs)
later_late h now [] = tt
later_late h now (x ∷ xs) = elim (Bool-cases (leb (h x).next now)) [
  | inl e ↦ rw e (later_late h now xs)
  | inr e ↦ rw e (ground arith, later_late h now xs)
]

In-due :
    (h : Heap) (now b : ℕ) (xs : List ℕ) → In b xs → In b (later h now xs) ⊎ In b (due h now xs)
In-due h now b [] i = absurd i
In-due h now b (x ∷ xs) i = elim (Bool-cases (leb (h x).next now)) [
  | inl e ↦ rw e (elim i [
    | inl k ↦ inr (inl k)
    | inr k ↦ elim (In-due h now b xs k) [ inl j ↦ inl j | inr j ↦ inr (inr j) ]
  ])
  | inr e ↦ rw e (elim i [
    | inl k ↦ inl (inl k)
    | inr k ↦ elim (In-due h now b xs k) [ inl j ↦ inl (inr j) | inr j ↦ inr j ]
  ])
]

later-Sorted : (h : Heap) (now : ℕ) (xs : List ℕ) → Sorted h xs → Sorted h (later h now xs)
later-Sorted h now [] s = tt
later-Sorted h now (x ∷ xs) (p, s) = elim (Bool-cases (leb (h x).next now)) [
  | inl e ↦ rw e (later-Sorted h now xs s)
  | inr e ↦ rw e (All-later (Less h x) h now xs p, later-Sorted h now xs s)
]

pub due-Sorted : (h : Heap) (now : ℕ) (xs : List ℕ) → Sorted h xs → Sorted h (due h now xs)
due-Sorted h now [] s = tt
due-Sorted h now (x ∷ xs) (p, s) = elim (Bool-cases (leb (h x).next now)) [
  | inl e ↦ rw e (All-due (Less h x) h now xs p, due-Sorted h now xs s)
  | inr e ↦ rw e (due-Sorted h now xs s)
]

abbrev pub Distinct : List ℕ → Type 0
Distinct [] = Unit {0}
Distinct (x ∷ xs) = All (λ b. b ≢ x) xs × Distinct xs

pub Sorted-Distinct : (h : Heap) (xs : List ℕ) → Sorted h xs → Distinct xs
Sorted-Distinct h [] s = tt
Sorted-Distinct h (x ∷ xs) (p, s) =
    (All-map xs (λ b i l. Less-ne h x b l) p, Sorted-Distinct h xs s)

early_ne_late : (h : Heap) (now a b : ℕ) → (h a).next ≤ now → now < (h b).next → b ≢ a
early_ne_late h now a b early late e =
    let same : (h b).next ≡ (h a).next = ap (λ c. (h c).next) e in omega arith

-- The due timers are taken out of the set.
pub take_due :
    (now : ℕ) (m : TimerManager)
    → IsValid m
    → Holding (due m.heap now m.timers) (record m { timers = later m.heap now m.timers })
take_due now m v = record {
  sorted = later-Sorted m.heap now m.timers v.sorted;
  live = All-later _ m.heap now m.timers v.live;
  waiting = All-due _ m.heap now m.timers v.live;
  apart =
      All-map (due m.heap now m.timers)
        (λ a i early.
          All-map (later m.heap now m.timers) (λ b k late. early_ne_late m.heap now a b early late)
            (later_late m.heap now m.timers))
        (due_early m.heap now m.timers);
  complete = λ b l on. elim (v.complete b l on) [
    | inl k ↦ In-due m.heap now b m.timers k
    | inr k ↦ absurd k
  ];
}

-- With a clock that went back, all timers are taken out.
pub take_all : (m : TimerManager) → IsValid m → Holding m.timers (record m { timers = [] })
take_all m v = record {
  sorted = tt;
  live = tt;
  waiting = v.live;
  apart = All-map m.timers (λ a i k. tt) v.live;
  complete = λ b l on. elim (v.complete b l on) [ inl k ↦ inr k | inr k ↦ absurd k ];
}
