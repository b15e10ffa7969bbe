-- ===== src/Base/Timer/Invariant.antt =====
-- The invariant of the TimerManager, and the steps that its operations consist of.
use server_frame.Prelude.{
  ℕ, ◌+◌, ◌%◌, ◌^◌, ◌<◌, ◌≡◌, ◌≢◌, refl, sym, ap, ◌∙◌, ◌⊎◌, inl, inr, List, [], ◌∷◌, none, some,
  arith, All, ℕ-cases,
}
use mathlib.Core.Path.{subst}
use server_frame.Base.Timer.{
  Timer, TimerManager, Heap, update, insert, erase, restart, disarm, init,
}
use server_frame.Base.Timer.Order.{
  Sorted, In, All-of, All-map, In-insert, In-insert_self, All-insert, insert-Sorted, erase-Erased,
  Sorted-same, update_ne, update_self,
}

pub none≢some : {c : ℕ} → none ≢ some c
none≢some e = cc

-- A timer is armed while it has a callback.
abbrev pub IsArmed : Timer → Type 0
IsArmed t = (c : ℕ) × (t.cb ≡ some c)

-- The set is sorted and holds the armed timers, but for those in `held`, which an operation has
-- taken out.
pub record Holding (held : List ℕ) (m : TimerManager) : Type 0 where
  pub sorted : Sorted m.heap m.timers
  pub live : All (λ a. (a < m.fresh) × IsArmed (m.heap a)) m.timers
  pub waiting : All (λ a. (a < m.fresh) × IsArmed (m.heap a)) held
  pub apart : All (λ a. All (λ b. b ≢ a) m.timers) held
  pub complete : (a : ℕ) → a < m.fresh → IsArmed (m.heap a) → In a m.timers ⊎ In a held

-- A handle is in the set exactly while it is armed.
abbrev pub IsValid : TimerManager → Type 0
IsValid m = Holding [] m

pub init-IsValid : (now : ℕ) (h : Heap) → IsValid (init now h)
unfolding init
init-IsValid now h = record {
  sorted = tt;
  live = tt;
  waiting = tt;
  apart = tt;
  complete = λ a l. absurd (omega arith);
}

-- Taking a timer out of the set.
pub take_out :
    (m : TimerManager) (a : ℕ)
    → IsValid m
    → In a m.timers
    → (ts : List ℕ) × (erase m.heap a m.timers ≡ some ts)
      × Holding (a ∷ []) (record m { timers = ts })
take_out m a v i =
    let r = erase-Erased m.heap a m.timers v.sorted i in
    (
      r.left,
      r.result,
      record {
        sorted = r.sorted;
        live = All-map r.left (λ b k _. All-of _ m.timers v.live (r.subset b k)) r.gone;
        waiting = (All-of _ m.timers v.live i, tt);
        apart = (r.gone, tt);
        complete = λ b l armed. elim (v.complete b l armed) [
          | inl k ↦ elim (ℕ-cases b a) [ inl e ↦ inr (inl e) | inr n ↦ inl (r.others b k n) ]
          | inr k ↦ absurd k
        ];
      },
    )

module _ (held : List ℕ) (a : ℕ) (m : TimerManager) (v : Holding (a ∷ held) m)
    (distinct : All (λ b. b ≢ a) held) (t : Timer) where
  rest_same :
      (xs : List ℕ)
      → All (λ b. b ≢ a) xs
      → All (λ b. (b < m.fresh) × IsArmed (m.heap b)) xs
      → All (λ b. (b < m.fresh) × IsArmed (update m.heap a t b)) xs
  rest_same xs n p =
      All-map xs (λ b i q. (q.0, rw (update_ne m.heap a b t (All-of (λ c. c ≢ a) xs n i)) q.1)) p

  still-Sorted : Sorted (update m.heap a t) m.timers
  still-Sorted =
      Sorted-same m.heap (update m.heap a t) m.timers
        (All-map m.timers (λ b i n. ap (λ (u : Timer). u.next) (sym (update_ne m.heap a b t n)))
          v.apart.0)
        v.sorted

  -- A timer taken out may get another time, or be disarmed.
  retime : IsArmed t → Holding (a ∷ held) (record m { heap = update m.heap a t })
  retime armed = record {
    sorted = still-Sorted;
    live = rest_same m.timers v.apart.0 v.live;
    waiting = (
      (v.waiting.0.0, subst IsArmed (sym (update_self m.heap a t)) armed),
      rest_same held distinct v.waiting.1,
    );
    apart = v.apart;
    complete = λ b l on. elim (ℕ-cases b a) [
      | inl e ↦ inr (inl e)
      | inr n ↦ v.complete b l (subst IsArmed (update_ne m.heap a b t n) on)
    ];
  }

  empty : t.cb ≡ none → Holding held (record m { heap = update m.heap a t })
  empty off = record {
    sorted = still-Sorted;
    live = rest_same m.timers v.apart.0 v.live;
    waiting = rest_same held distinct v.waiting.1;
    apart = v.apart.1;
    complete = λ b l on. elim (ℕ-cases b a) [
      | inl e ↦
          let (c, f) = subst IsArmed (ap (update m.heap a t) e ∙ update_self m.heap a t) on in
          absurd (none≢some (sym off ∙ f))
      | inr n ↦ elim (v.complete b l (subst IsArmed (update_ne m.heap a b t n) on)) [
        | inl k ↦ inl k
        | inr k ↦ elim k [ inl e ↦ absurd (n e) | inr j ↦ inr j ]
      ]
    ];
  }

-- The steps of refresh, cancel and the expiry on a timer that is taken out.
pub disarm-Holding :
    (held : List ℕ) (a : ℕ) (m : TimerManager)
    → Holding (a ∷ held) m
    → All (λ b. b ≢ a) held
    → Holding held (record m { heap = disarm a m.heap })
unfolding disarm
disarm-Holding held a m v distinct =
    empty held a m v distinct (record (m.heap a) { cb = none }) refl

pub disarm-cb : (a : ℕ) (h : Heap) → (disarm a h a).cb ≡ none
unfolding disarm
disarm-cb a h = ap (λ (t : Timer). t.cb) (update_self h a _)

pub restart-Holding :
    (held : List ℕ) (now a : ℕ) (m : TimerManager)
    → Holding (a ∷ held) m
    → All (λ b. b ≢ a) held
    → Holding (a ∷ held) (record m { heap = restart now a m.heap })
unfolding restart
restart-Holding held now a m v distinct = retime held a m v distinct _ v.waiting.0.1

pub restart-next : (now a : ℕ) (h : Heap) → (restart now a h a).next ≡ (now + (h a).ms) % 2 ^ 64
unfolding restart
restart-next now a h = ap (λ (t : Timer). t.next) (update_self h a _)

-- A timer taken out may be put in again.
pub insert_held :
    (held : List ℕ) (a : ℕ) (m : TimerManager)
    → Holding (a ∷ held) m
    → All (λ b. b ≢ a) held
    → Holding held (record m { timers = insert m.heap a m.timers })
insert_held held a m v distinct = record {
  sorted = insert-Sorted m.heap a m.timers v.sorted;
  live = All-insert _ m.heap a m.timers v.waiting.0 v.live;
  waiting = v.waiting.1;
  apart =
      All-map held
        (λ c i n.
          All-insert (λ b. b ≢ c) m.heap a m.timers (λ e. n (sym e))
            (All-of (λ d. All (λ b. b ≢ d) m.timers) held v.apart.1 i))
        distinct;
  complete = λ b l on. elim (v.complete b l on) [
    | inl k ↦ inl (In-insert m.heap a b m.timers k)
    | inr k ↦ elim k [ inl e ↦ inl (rw e (In-insert_self m.heap a m.timers)) | inr j ↦ inr j ]
  ];
}
