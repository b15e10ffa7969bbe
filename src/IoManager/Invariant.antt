-- ===== src/IoManager/Invariant.antt =====
-- The invariant of the IOManager: every context agrees with its mask, and the count of pending
-- events is the number of events that wait; and what the operations on one event do.
use server_frame.Prelude.{
  ℕ, zero, suc, ◌+◌, ◌*◌, ◌/◌, ◌%◌, ◌^◌, ◌≤◌, ◌<◌, ◌≡◌, refl, ap, ◌∙◌, arith, inl, inr, List, [],
  ◌∷◌, Option, none, some, true, ltb, length, get_elem?, set, Bool-cases, length-set,
}
use mathlib.Core.Path.{subst}
use server_frame.IoManager.{
  Event, FdContext, Task, IoManager, has, new_context, context_resize, init, reserve, less_one,
}
use server_frame.IoManager.Context.{IsContext, count, no_event, no_event-IsContext, count-no_event}

abbrev pub Contexts : ℕ → List FdContext → Type 0
Contexts i [] = Unit {0}
Contexts i (c ∷ cs) = IsContext i c × Contexts (suc i) cs

-- How many events wait.
abbrev pub armed : List FdContext → ℕ
armed [] = 0
armed (c ∷ cs) = count c.events + armed cs

pub record IsValid (m : IoManager) : Type 0 where
  pub contexts : Contexts 0 m.fd_contexts
  pub counted : m.pending ≡ armed m.fd_contexts % 2 ^ 64
  pub roomy : 32 ≤ length m.fd_contexts

pub get_elem?-Contexts :
    (k i : ℕ) (cs : List FdContext) {c : FdContext}
    → Contexts k cs
    → get_elem? cs i ≡ some c
    → IsContext (k + i) c
get_elem?-Contexts k i [] v e = cc
get_elem?-Contexts k zero (c ∷ cs) (v, vs) e =
    let same : k + zero ≡ k = omega arith in
    rw same (subst (λ o. elim o [ none ↦ Unit {0} | some y ↦ IsContext k y ]) e v)
get_elem?-Contexts k (suc i) (c ∷ cs) (v, vs) e =
    let same : k + suc i ≡ suc k + i = omega arith in rw same (get_elem?-Contexts (suc k) i cs vs e)

set-Contexts :
    (k i : ℕ) (cs : List FdContext) (d : FdContext)
    → Contexts k cs
    → IsContext (k + i) d
    → Contexts k (set cs i d)
set-Contexts k i [] d v w = tt
set-Contexts k zero (c ∷ cs) d (v, vs) w =
    let same : k + zero ≡ k = omega arith in (subst (λ j. IsContext j d) same w, vs)
set-Contexts k (suc i) (c ∷ cs) d (v, vs) w =
    let same : k + suc i ≡ suc k + i = omega arith in
    (v, set-Contexts (suc k) i cs d vs (subst (λ j. IsContext j d) same w))

pub IsContext-at :
    (fd : ℕ) (cs : List FdContext) {c : FdContext}
    → Contexts 0 cs
    → get_elem? cs fd ≡ some c
    → IsContext fd c
IsContext-at fd cs {c} v e =
    let same : 0 + fd ≡ fd = omega arith in
    subst (λ j. IsContext j c) same (get_elem?-Contexts 0 fd cs v e)

pub put_at :
    (fd : ℕ) (cs : List FdContext) (d : FdContext)
    → Contexts 0 cs
    → IsContext fd d
    → Contexts 0 (set cs fd d)
put_at fd cs d v w =
    let same : fd ≡ 0 + fd = omega arith in
    set-Contexts 0 fd cs d v (subst (λ j. IsContext j d) same w)

pub armed-set :
    (i : ℕ) (cs : List FdContext) (c d : FdContext)
    → get_elem? cs i ≡ some c
    → armed (set cs i d) + count c.events ≡ armed cs + count d.events
armed-set i [] c d e = cc
armed-set zero (x ∷ xs) c d e =
    let same : count x.events ≡ count c.events =
      ap (λ (o : Option FdContext). elim o [ none ↦ 0 | some y ↦ count y.events ]) e in
    omega arith
armed-set (suc i) (x ∷ xs) c d e = omega (arith, armed-set i xs c d e)

new_context-IsContext : (i : ℕ) → IsContext i (new_context i)
new_context-IsContext i = record { own = refl; reads = refl; writes = refl }

context_resize-Contexts :
    (n k : ℕ) (cs : List FdContext) → Contexts k cs → Contexts k (context_resize n k cs)
unfolding context_resize
context_resize-Contexts zero k cs v = tt
context_resize-Contexts (suc n) k [] v =
    (new_context-IsContext k, context_resize-Contexts n (suc k) [] tt)
context_resize-Contexts (suc n) k (c ∷ cs) (v, vs) = (v, context_resize-Contexts n (suc k) cs vs)

length-context_resize : (n k : ℕ) (cs : List FdContext) → length (context_resize n k cs) ≡ n
unfolding context_resize
length-context_resize zero k cs = refl
length-context_resize (suc n) k [] = ap suc (length-context_resize n (suc k) [])
length-context_resize (suc n) k (c ∷ cs) = ap suc (length-context_resize n (suc k) cs)

armed-context_resize :
    (n k : ℕ) (cs : List FdContext) → length cs ≤ n → armed (context_resize n k cs) ≡ armed cs
unfolding context_resize
armed-context_resize zero k [] l = refl
armed-context_resize zero k (c ∷ cs) l = absurd (omega arith)
armed-context_resize (suc n) k [] l = omega (arith, armed-context_resize n (suc k) [] (omega arith))
armed-context_resize (suc n) k (c ∷ cs) l =
    omega (arith, armed-context_resize n (suc k) cs (omega arith))

-- The constructor.
pub init-IsValid : IsValid init
unfolding init context_resize
init-IsValid = record {
  contexts = context_resize-Contexts 32 0 [] tt;
  counted = refl;
  roomy = omega arith;
}

-- The room that AddEvent makes: one and a half times the descriptor is beyond it.
pub reserve_lem :
    (fd : ℕ) (cs : List FdContext)
    → 32 ≤ length cs
    → Contexts 0 cs
    → Contexts 0 (reserve fd cs)
      × (armed (reserve fd cs) ≡ armed cs)
      × (32 ≤ length (reserve fd cs))
      × (fd < length (reserve fd cs))
unfolding reserve
reserve_lem fd cs l v = elim (Bool-cases (ltb fd (length cs))) [
  | inl e ↦ rw e (v, refl, l, ground arith)
  | inr e ↦
      let size = length-context_resize (fd * 3 / 2) 0 cs in
      let far : length cs ≤ fd = ground arith in
      rw (e, size)
        (
          context_resize-Contexts (fd * 3 / 2) 0 cs v,
          armed-context_resize (fd * 3 / 2) 0 cs (omega arith),
          omega arith,
          omega arith,
        )
]

less_one_lem : (p n : ℕ) → p ≡ suc n % 2 ^ 64 → less_one p ≡ n % 2 ^ 64
unfolding less_one
less_one_lem p n e = omega arith

-- An event is taken off.
pub no_event-IsValid :
    (fd : ℕ) (event : Event) (c : FdContext) (m : IoManager) (tasks : List Task)
    → IsValid m
    → get_elem? m.fd_contexts fd ≡ some c
    → has event c.events ≡ true
    → IsValid (record m {
      fd_contexts = set m.fd_contexts fd (no_event event c);
      pending = less_one m.pending;
      scheduled = tasks;
    })
no_event-IsValid fd event c m tasks v e h =
    let own : IsContext fd c = IsContext-at fd m.fd_contexts v.contexts e in
    let less = count-no_event event c h in
    let sum = armed-set fd m.fd_contexts c (no_event event c) e in
    record {
      contexts = put_at fd m.fd_contexts _ v.contexts (no_event-IsContext fd event c own);
      counted =
          less_one_lem m.pending (armed (set m.fd_contexts fd (no_event event c)))
            (v.counted ∙ ap (λ n. n % 2 ^ 64) (omega (arith, less, sum)));
      roomy = rw (length-set m.fd_contexts fd (no_event event c)) v.roomy;
    }
