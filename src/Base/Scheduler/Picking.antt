-- ===== src/Base/Scheduler/Picking.antt =====
-- The walk of Run over the queue takes the first task that the thread may run.
use server_frame.Prelude.{
  ℕ, ◌≡◌, refl, ap, List, [], ◌∷◌, ◌++◌, Option, none, some, Bool, true, false, ◌||◌, All, inl, inr,
  Bool-cases,
}
use server_frame.Base.Fiber.{Fiber}
use server_frame.Base.Scheduler.{Task, is_elsewhere, is_taken, pick}

-- The thread `me` leaves the task in the queue.
abbrev pub passes_over : (ℕ → Fiber) → ℕ → Task → Bool
passes_over fs me t = is_elsewhere me t || is_taken fs t

pub data Picks (fs : ℕ → Fiber) (me : ℕ) : List Task → Option (Task × List Task) → Type 0 where
  nothing : {ts : List Task} → All (λ u. passes_over fs me u ≡ true) ts → Picks fs me ts none
  first :
      {ts rest : List Task} (before after : List Task) (t : Task)
      → ts ≡ before ++ (t ∷ after)
      → rest ≡ before ++ after
      → All (λ u. passes_over fs me u ≡ true) before
      → passes_over fs me t ≡ false
      → Picks fs me ts (some (t, rest))

abbrev behind : Task → Option (Task × List Task) → Option (Task × List Task)
behind t o = elim o [ none ↦ none | some (u, us) ↦ some (u, t ∷ us) ]

behind-Picks :
    (fs : ℕ → Fiber) (me : ℕ) (t : Task) {ts : List Task} {o : Option (Task × List Task)}
    → passes_over fs me t ≡ true
    → Picks fs me ts o
    → Picks fs me (t ∷ ts) (behind t o)
behind-Picks fs me t h (nothing all) = nothing (h, all)
behind-Picks fs me t h (first before after u e f all k) =
    first (t ∷ before) after u (ap (◌∷◌ t) e) (ap (◌∷◌ t) f) (h, all) k

pick_elsewhere :
    (fs : ℕ → Fiber) (me : ℕ) (t : Task) (ts : List Task)
    → is_elsewhere me t ≡ true
    → (pick fs me (t ∷ ts)).0 ≡ behind t (pick fs me ts).0
unfolding pick
pick_elsewhere fs me t ts h = rw h

pick_taken :
    (fs : ℕ → Fiber) (me : ℕ) (t : Task) (ts : List Task)
    → is_elsewhere me t ≡ false
    → is_taken fs t ≡ true
    → (pick fs me (t ∷ ts)).0 ≡ behind t (pick fs me ts).0
unfolding pick
pick_taken fs me t ts h k = rw (h, k)

pick_here :
    (fs : ℕ → Fiber) (me : ℕ) (t : Task) (ts : List Task)
    → is_elsewhere me t ≡ false
    → is_taken fs t ≡ false
    → (pick fs me (t ∷ ts)).0 ≡ some (t, ts)
unfolding pick
pick_here fs me t ts h k = rw (h, k)

-- A thread that looks for a task takes the first one of the queue that is not for another thread
-- and is no running fiber, and leaves the others in their order; it takes none only if there is no
-- such task.
pub pick-Picks : (fs : ℕ → Fiber) (me : ℕ) (ts : List Task) → Picks fs me ts (pick fs me ts).0
pick-Picks fs me [] = unfold pick in nothing tt
pick-Picks fs me (t ∷ ts) =
    let ih = pick-Picks fs me ts in
    elim (Bool-cases (is_elsewhere me t)) [
      | inl h ↦ rw (pick_elsewhere fs me t ts h) (behind-Picks fs me t (rw h) ih)
      | inr h ↦ elim (Bool-cases (is_taken fs t)) [
        | inl k ↦ rw (pick_taken fs me t ts h k) (behind-Picks fs me t (rw (h, k)) ih)
        | inr k ↦ rw (pick_here fs me t ts h k) (first [] ts t refl refl tt (rw (h, k)))
      ]
    ]
