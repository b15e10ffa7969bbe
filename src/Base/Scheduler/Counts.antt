-- ===== src/Base/Scheduler/Counts.antt =====
-- The two counters of the scheduler are the numbers of the threads that they are about.
use server_frame.Prelude.{
  ℕ, zero, suc, ◌+◌, ◌^◌, ◌≤◌, ◌<◌, ◌≡◌, refl, sym, ap, Option, none, some, arith, put, total,
  total-put, total_bound, total_member, Bool-cases, Option-cases, inl, inr,
}
use mathlib.Core.Path.{subst}
use server_frame.Base.Fiber.{Fiber, is_ready, is_over, reset}
use server_frame.Base.Scheduler.{
  Scheduler, Worker, Phase, Move, Step, System, Reach, start, settle_queued, settle_own, schedule,
  take, find_none, drop, resume, call_first, call_again, swap_out, come_back, put_back, put_own,
  idle_in, idle_run, idle_out, finish, work, submit, auto_stop_it, stop_it, here, next,
}

-- From the moment a task is taken until SwapIn returns.
abbrev pub busy_in : Phase → ℕ
busy_in Phase.looking = 0
busy_in (Phase.holding t) = 1
busy_in Phase.empty_handed = 0
busy_in (Phase.running k f) = 1
busy_in (Phase.leaving k f) = 1
busy_in (Phase.left k f) = 0
busy_in Phase.idling = 0
busy_in Phase.idled = 0
busy_in Phase.done = 0

abbrev pub idle_in_phase : Phase → ℕ
idle_in_phase Phase.looking = 0
idle_in_phase (Phase.holding t) = 0
idle_in_phase Phase.empty_handed = 0
idle_in_phase (Phase.running k f) = 0
idle_in_phase (Phase.leaving k f) = 0
idle_in_phase (Phase.left k f) = 0
idle_in_phase Phase.idling = 1
idle_in_phase Phase.idled = 1
idle_in_phase Phase.done = 0

abbrev pub is_busy : Worker → ℕ
is_busy w = busy_in w.phase

abbrev pub is_idle : Worker → ℕ
is_idle w = idle_in_phase w.phase

pub record IsCounted (n : ℕ) (s : System) : Type 0 where
  pub active : s.shared.active ≡ total is_busy n s.workers
  pub idle : s.shared.idle ≡ total is_idle n s.workers

abbrev pub Kept : Scheduler → Scheduler → Type 0
Kept m m' = (m'.active ≡ m.active) × (m'.idle ≡ m.idle) × (m'.stopping ≡ m.stopping)

pub settle_queued-Kept : (f : ℕ) (m : Scheduler) → Kept m (settle_queued f m)
unfolding settle_queued
settle_queued-Kept f m = elim (Bool-cases (is_ready (m.fibers f).state)) [
  | inl r ↦ (rw (settle_queued, r), rw (settle_queued, r), rw (settle_queued, r))
  | inr r ↦ elim (Bool-cases (is_over (m.fibers f).state)) [
    | inl o ↦ (rw (settle_queued, r, o), rw (settle_queued, r, o), rw (settle_queued, r, o))
    | inr o ↦ (rw (settle_queued, r, o), rw (settle_queued, r, o), rw (settle_queued, r, o))
  ]
]

abbrev KeptBy : Scheduler → Option (Scheduler × Option ℕ) → Type 0
KeptBy m none = Unit {0}
KeptBy m (some (m', kept)) = Kept m m'

settle_own-KeptBy : (f : ℕ) (m : Scheduler) → KeptBy m (settle_own f m)
unfolding settle_own
settle_own-KeptBy f m = elim (Bool-cases (is_ready (m.fibers f).state)) [
  | inl r ↦ rw (settle_own, r) (refl, refl, refl)
  | inr r ↦ elim (Bool-cases (is_over (m.fibers f).state)) [
    | inl o ↦ elim (Option-cases (reset none (m.fibers f))) [
      | inl e ↦ rw (settle_own, r, o, e) tt
      | inr (g, e) ↦ rw (settle_own, r, o, e) (refl, refl, refl)
    ]
    | inr o ↦ rw (settle_own, r, o) (refl, refl, refl)
  ]
]

pub settle_own-Kept :
    (f : ℕ) (m : Scheduler) {m' : Scheduler} {kept : Option ℕ}
    → settle_own f m ≡ some (m', kept)
    → Kept m m'
settle_own-Kept f m e = subst (KeptBy m) e (settle_own-KeptBy f m)

-- A move changes a counter as it changes its thread, where the counter does not wrap around.
move_active :
    {i : ℕ} {m : Scheduler} {w : Worker} {m' : Scheduler} {w' : Worker}
    → Move i m w m' w'
    → is_busy w ≤ m.active
    → m.active < 2 ^ 64
    → m.active + is_busy w' < 2 ^ 64 + is_busy w
    → m'.active + is_busy w ≡ m.active + is_busy w'
move_active (take e p) l b u = omega (arith, ap busy_in e)
move_active (find_none e p) l b u = omega (arith, ap busy_in e)
move_active (drop e o) l b u = omega (arith, ap busy_in e)
move_active (resume e o x) l b u = omega (arith, ap busy_in e)
move_active (call_first e c x) l b u = omega (arith, ap busy_in e)
move_active (call_again e c r x) l b u = omega (arith, ap busy_in e)
move_active (swap_out x e y) l b u = omega (arith, ap busy_in e)
move_active (come_back e) l b u = omega (arith, ap busy_in e)
move_active {m = m} (put_back {f} e) l b u = omega (arith, ap busy_in e, (settle_queued-Kept f m).0)
move_active {m = m} (put_own {f} e x) l b u = omega (arith, ap busy_in e, (settle_own-Kept f m x).0)
move_active (idle_in e o) l b u = omega (arith, ap busy_in e)
move_active (idle_run e) l b u = omega (arith, ap busy_in e)
move_active (idle_out e) l b u = omega (arith, ap busy_in e)
move_active (finish e o) l b u = omega (arith, ap busy_in e)

move_idle :
    {i : ℕ} {m : Scheduler} {w : Worker} {m' : Scheduler} {w' : Worker}
    → Move i m w m' w'
    → is_idle w ≤ m.idle
    → m.idle < 2 ^ 64
    → m.idle + is_idle w' < 2 ^ 64 + is_idle w
    → m'.idle + is_idle w ≡ m.idle + is_idle w'
move_idle (take e p) l b u = omega (arith, ap idle_in_phase e)
move_idle (find_none e p) l b u = omega (arith, ap idle_in_phase e)
move_idle (drop e o) l b u = omega (arith, ap idle_in_phase e)
move_idle (resume e o x) l b u = omega (arith, ap idle_in_phase e)
move_idle (call_first e c x) l b u = omega (arith, ap idle_in_phase e)
move_idle (call_again e c r x) l b u = omega (arith, ap idle_in_phase e)
move_idle (swap_out x e y) l b u = omega (arith, ap idle_in_phase e)
move_idle (come_back e) l b u = omega (arith, ap idle_in_phase e)
move_idle {m = m} (put_back {f} e) l b u =
    omega (arith, ap idle_in_phase e, (settle_queued-Kept f m).1)
move_idle {m = m} (put_own {f} e x) l b u =
    omega (arith, ap idle_in_phase e, (settle_own-Kept f m x).1)
move_idle (idle_in e o) l b u = omega (arith, ap idle_in_phase e)
move_idle (idle_run e) l b u = omega (arith, ap idle_in_phase e)
move_idle (idle_out e) l b u = omega (arith, ap idle_in_phase e)
move_idle (finish e o) l b u = omega (arith, ap idle_in_phase e)

busy_le : (w : Worker) → is_busy w ≤ 1
busy_le w = go w.phase
  where
    go : (p : Phase) → busy_in p ≤ 1
    go p = ground arith

idle_le : (w : Worker) → is_idle w ≤ 1
idle_le w = go w.phase
  where
    go : (p : Phase) → idle_in_phase p ≤ 1
    go p = ground arith

-- Counting a member that moved.
counted :
    (g : Worker → ℕ) (n : ℕ) (ws : ℕ → Worker) (i : ℕ) (w : Worker) (a b : ℕ)
    → ((x : Worker) → g x ≤ 1)
    → n < 2 ^ 64
    → i < n
    → a ≡ total g n ws
    → (g (ws i) ≤ a → a < 2 ^ 64 → a + g w < 2 ^ 64 + g (ws i) → b + g (ws i) ≡ a + g w)
    → b ≡ total g n (put ws i w)
counted g n ws i w a b le few l e h =
    let old = total_bound g n ws le in
    let new = total_bound g n (put ws i w) le in
    let own = total_member g n ws i l in
    let changed = total-put g n ws i w l in
    let moved = h (omega arith) (omega arith) (omega arith) in omega arith

Step-IsCounted : {n : ℕ} {s t : System} → n < 2 ^ 64 → Step n s t → IsCounted n s → IsCounted n t
unfolding schedule
Step-IsCounted {n} {s} few (work i {m} {w} l mv) c = record {
  active =
      counted is_busy n s.workers i w s.shared.active m.active busy_le few l c.active
        (move_active mv);
  idle = counted is_idle n s.workers i w s.shared.idle m.idle idle_le few l c.idle (move_idle mv);
}
Step-IsCounted few (submit t) c = record { active = c.active; idle = c.idle }
Step-IsCounted few auto_stop_it c = record { active = c.active; idle = c.idle }
Step-IsCounted few stop_it c = record { active = c.active; idle = c.idle }

none_at_start : (g : Worker → ℕ) (n : ℕ) (w : Worker) → g w ≡ 0 → total g n (λ i. w) ≡ 0
none_at_start g zero w e = refl
none_at_start g (suc n) w e = omega (arith, e, none_at_start g n w e)

-- In every state that fewer than 2^64 threads reach from their start, the active counter is the
-- number of the threads that hold or run a task, and the idle counter the number of those in their
-- idle fiber.
pub Reach-IsCounted :
    {fibers : ℕ → Fiber} {fresh n : ℕ} {s : System}
    → n < 2 ^ 64
    → Reach n (start fibers fresh) s
    → IsCounted n s
Reach-IsCounted {fibers} {fresh} {n} few here = record {
  active = sym (none_at_start is_busy n ((start fibers fresh).workers 0) refl);
  idle = sym (none_at_start is_idle n ((start fibers fresh).workers 0) refl);
}
Reach-IsCounted few (next r st) = Step-IsCounted few st (Reach-IsCounted few r)
