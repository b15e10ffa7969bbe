-- ===== src/Base/Scheduler/Waking.antt =====
-- A thread in its idle fiber comes back to the queue and takes a task.
use server_frame.Prelude.{
  ℕ, ◌≡◌, refl, ap, List, [], ◌∷◌, ◌++◌, Option, some, true, false, All, put, put_self,
}
use mathlib.Core.Path.{subst}
use server_frame.Base.Fiber.{Fiber}
use server_frame.Base.Scheduler.{
  Task, Scheduler, Worker, Phase, Move, System, is_stopping, one_less, one_more, take, idle_run,
  idle_out,
}
use server_frame.Base.Scheduler.Picking.{passes_over, Picks, nothing, first, pick-Picks}

-- The worker `i` alone moves to `w`, and the scheduler to `m`.
abbrev moved : System → ℕ → Scheduler → Worker → System
moved s i m w = record { shared = m; workers = put s.workers i w }

moved_phase :
    (s : System) (i : ℕ) (m : Scheduler) (w : Worker) → ((moved s i m w).workers i).phase ≡ w.phase
moved_phase s i m w = ap (λ (x : Worker). x.phase) (put_self s.workers i w)

-- What the walk over a queue with a task that the thread may run comes to.
record Picked (fs : ℕ → Fiber) (me : ℕ) (ts : List Task) (o : Option (Task × List Task))
    : Type 0 where
  task : Task
  front : List Task
  behind : List Task
  result : o ≡ some (task, front ++ behind)
  split : ts ≡ front ++ (task ∷ behind)
  passed : All (λ u. passes_over fs me u ≡ true) front
  allowed : passes_over fs me task ≡ false

picked :
    (fs : ℕ → Fiber) (me : ℕ) (before after : List Task) (t : Task) {ts : List Task}
    {o : Option (Task × List Task)}
    → Picks fs me ts o
    → ts ≡ before ++ (t ∷ after)
    → passes_over fs me t ≡ false
    → Picked fs me ts o
picked fs me before after t (nothing all) e k =
    absurd (none_left before (subst (All (λ u. passes_over fs me u ≡ true)) e all))
  where
    none_left : (xs : List Task) → All (λ u. passes_over fs me u ≡ true) (xs ++ (t ∷ after)) → ⊥
    none_left [] (h, hs) = cc
    none_left (x ∷ xs) (h, hs) = none_left xs hs
picked fs me before after t (first b a u f g all h) e k = record {
  task = u;
  front = b;
  behind = a;
  result = ap (λ r. some (u, r)) g;
  split = f;
  passed = all;
  allowed = h;
}

-- Steps of the thread `i` alone.
pub data Alone (i : ℕ) (s : System) : System → Type 0 where
  rests : Alone i s s
  moves :
      {t : System} {m : Scheduler} {w : Worker}
      → Alone i s t
      → Move i t.shared (t.workers i) m w
      → Alone i s (record { shared = m; workers = put t.workers i w })

Alone-first :
    {i : ℕ} {s : System} {m : Scheduler} {w : Worker} {u : System}
    → Move i s.shared (s.workers i) m w
    → Alone i (record { shared = m; workers = put s.workers i w }) u
    → Alone i s u
Alone-first mv rests = moves rests mv
Alone-first mv (moves r last) = moves (Alone-first mv r) last

-- The thread `i` comes, by its own steps alone, to hold a task of the queue, which is the first
-- that it may run, and only that task has left the queue.
pub record Held (i : ℕ) (s : System) : Type 0 where
  pub task : Task
  pub front : List Task
  pub behind : List Task
  pub split : s.shared.queue ≡ front ++ (task ∷ behind)
  pub passed : All (λ u. passes_over s.shared.fibers i u ≡ true) front
  pub allowed : passes_over s.shared.fibers i task ≡ false
  pub after : System
  pub steps : Alone i s after
  pub held : (after.workers i).phase ≡ Phase.holding task
  pub queue : after.shared.queue ≡ front ++ behind

module _ (i : ℕ) (before after : List Task) (t : Task) where
  -- The thread may take the task `t` of the queue.
  abbrev IsOffered : Scheduler → Type 0
  IsOffered m = (m.queue ≡ before ++ (t ∷ after)) × (passes_over m.fibers i t ≡ false)

  looking-Held : (s : System) → (s.workers i).phase ≡ Phase.looking → IsOffered s.shared → Held i s
  looking-Held s e (q, k) =
      let p =
        picked s.shared.fibers i before after t (pick-Picks s.shared.fibers i s.shared.queue) q k in
      let rest = p.front ++ p.behind in
      let w : Worker = record (s.workers i) { phase = Phase.holding p.task } in
      let m : Scheduler = record s.shared { queue = rest; active = one_more s.shared.active } in
      record {
        task = p.task;
        front = p.front;
        behind = p.behind;
        split = p.split;
        passed = p.passed;
        allowed = p.allowed;
        after = moved s i m w;
        steps = moves rests (take e p.result);
        held = moved_phase s i m w;
        queue = refl;
      }

  idled-Held : (s : System) → (s.workers i).phase ≡ Phase.idled → IsOffered s.shared → Held i s
  idled-Held s e o =
      let w : Worker = record (s.workers i) { phase = Phase.looking } in
      let m : Scheduler = record s.shared { idle = one_less s.shared.idle } in
      let h = looking-Held (moved s i m w) (moved_phase s i m w) o in
      record {
        task = h.task;
        front = h.front;
        behind = h.behind;
        split = h.split;
        passed = h.passed;
        queue = h.queue;
        allowed = h.allowed;
        after = h.after;
        steps = Alone-first (idle_out e) h.steps;
        held = h.held;
      }

-- From every state in which a thread is in its idle fiber, and some task of the queue is neither
-- for another thread nor a running fiber, the thread comes by its own steps to hold the first such
-- task; the queue keeps the other tasks in their order.
pub idling-Held :
    (i : ℕ) (s : System) (before after : List Task) (t : Task)
    → (s.workers i).phase ≡ Phase.idling
    → s.shared.queue ≡ before ++ (t ∷ after)
    → passes_over s.shared.fibers i t ≡ false
    → Held i s
idling-Held i s before after t e q k =
    let w : Worker = record (s.workers i) {
      phase = Phase.idled;
      idle_over = is_stopping s.shared;
    } in
    let h =
      idled-Held i before after t (moved s i s.shared w) (moved_phase s i s.shared w) (q, k) in
    record {
      task = h.task;
      front = h.front;
      behind = h.behind;
      split = h.split;
      passed = h.passed;
      queue = h.queue;
      allowed = h.allowed;
      after = h.after;
      steps = Alone-first (idle_run e) h.steps;
      held = h.held;
    }
