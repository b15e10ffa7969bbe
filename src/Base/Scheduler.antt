-- ===== src/Base/Scheduler.antt =====
-- server_frame/base/scheduler.h and scheduler.cc: `n` threads that run the tasks of one queue. A
-- thread is the number of its worker, and a fiber is the address of its object in `fibers`. A step
-- is one access to what the threads share, with what the thread does alone behind it; of a fiber's
-- state, a test and the assignment that follows it are one step. An assertion that fails ends the
-- program, so it has no step. Idle and Stopping are those of the class itself.
pub mod Picking
pub mod Counts
pub mod Shutdown
pub mod Waking
use server_frame.Prelude.{
  ℕ, suc, ◌+◌, ◌-◌, ◌%◌, ◌^◌, ◌<◌, ◌≡◌, List, [], ◌∷◌, ◌++◌, Option, none, some, Bool, true, false,
  not, ◌&&◌, ◌||◌, ◌==◌, if◌then◌else◌, put,
}
use server_frame.Base.Fiber.{
  Fiber, k_hold, new_fiber, is_exec, is_over, is_ready, reset, swap_in, Exit, leave,
}

-- What FiberAndThread holds: a fiber or a callback, and the thread it is for, `none` for -1.
pub data Work : Type 0 where
  runs : ℕ → Work
  calls : ℕ → Work

pub record Task : Type 0 where
  pub work : Work
  pub thread : Option ℕ

pub record Scheduler : Type 0 where
  pub queue : List Task
  pub fibers : ℕ → Fiber
  pub fresh : ℕ
  pub active : ℕ
  pub idle : ℕ
  pub stopping : Bool
  pub auto_stop : Bool

-- Whether the fiber that runs comes from the queue or is the worker's own, for a callback.
pub data Kind : Type 0 where
  queued : Kind
  own : Kind

-- Where Run stands: at the head of its loop, with a task or with none, while a fiber runs, while
-- it leaves, behind SwapIn, in the idle fiber, behind its SwapIn, and behind the loop.
pub data Phase : Type 0 where
  looking : Phase
  holding : Task → Phase
  empty_handed : Phase
  running : Kind → ℕ → Phase
  leaving : Kind → ℕ → Phase
  left : Kind → ℕ → Phase
  idling : Phase
  idled : Phase
  done : Phase

-- `cb_fiber` is the local variable, and `idle_over` says that the idle fiber has ended.
pub record Worker : Type 0 where
  pub phase : Phase
  pub cb_fiber : Option ℕ
  pub idle_over : Bool

-- ScheduleNoLock, of a task that holds a fiber or a callback; the answer says whether to tickle.
unfoldable pub schedule : Task → Scheduler → Scheduler × Bool
schedule t m =
    (record m { queue = m.queue ++ (t ∷ []) }, elim m.queue [ [] ↦ true | x ∷ xs ↦ false ])

-- The task is for another thread.
abbrev pub is_elsewhere : ℕ → Task → Bool
is_elsewhere me t = elim t.thread [ none ↦ false | some i ↦ not (i == me) ]

-- The task is a fiber that some thread runs.
abbrev pub is_taken : (ℕ → Fiber) → Task → Bool
is_taken fs t = elim t.work [ runs f ↦ is_exec (fs f).state | calls c ↦ false ]

-- The walk of Run over the queue: the task taken with the rest, and `tickle_me`.
unfoldable pub pick : (ℕ → Fiber) → ℕ → List Task → Option (Task × List Task) × Bool
pick fs me [] = (none, false)
pick fs me (t ∷ ts) =
    let (found, tickle) = pick fs me ts in
    let passed : Option (Task × List Task) = elim found [
      | none ↦ none
      | some (u, us) ↦ some (u, t ∷ us)
    ] in
    if is_elsewhere me t
    then (passed, true)
    else if is_taken fs t
    then (passed, tickle)
    else (some (t, ts), elim ts [ [] ↦ false | x ∷ xs ↦ true ])

-- `--active_thread_count_` and `--idle_thread_count_`, which are of type size_t.
abbrev pub one_less : ℕ → ℕ
one_less k = (k + (2 ^ 64 - 1)) % 2 ^ 64

abbrev pub one_more : ℕ → ℕ
one_more k = (k + 1) % 2 ^ 64

unfoldable pub is_stopping : Scheduler → Bool
is_stopping m =
    m.auto_stop && m.stopping && (elim m.queue [ [] ↦ true | x ∷ xs ↦ false ]) && (m.active == 0)

-- The fiber behind SwapIn, from the queue: it is scheduled again, is over, or is on hold.
unfoldable pub settle_queued : ℕ → Scheduler → Scheduler
unfolding schedule
settle_queued f m =
    let s = (m.fibers f).state in
    if is_ready s
    then (schedule (record { work = runs f; thread = none }) m).0
    else if is_over s
    then m
    else record m { fibers = put m.fibers f (record (m.fibers f) { state = k_hold }) }

-- The worker's own fiber behind SwapIn: it is scheduled and given away, kept for the next
-- callback, or on hold and given away.
unfoldable pub settle_own : ℕ → Scheduler → Option (Scheduler × Option ℕ)
unfolding schedule
settle_own f m =
    let s = (m.fibers f).state in
    if is_ready s
    then some ((schedule (record { work = runs f; thread = none }) m).0, none)
    else if is_over s
    then elim (reset none (m.fibers f)) [
      | none ↦ none
      | some g ↦ some (record m { fibers = put m.fibers f g }, some f)
    ]
    else some (record m { fibers = put m.fibers f (record (m.fibers f) { state = k_hold }) }, none)

-- One step of the worker of the thread `me`.
pub data Move (me : ℕ) (m : Scheduler) (w : Worker) : Scheduler → Worker → Type 0 where
  take :
      {t : Task} {rest : List Task}
      → w.phase ≡ looking
      → (pick m.fibers me m.queue).0 ≡ some (t, rest)
      → Move me m w
          (record m { queue = rest; active = one_more m.active })
          (record w { phase = holding t })
  find_none :
      w.phase ≡ looking
      → (pick m.fibers me m.queue).0 ≡ none
      → Move me m w m (record w { phase = empty_handed })
  drop :
      {f : ℕ} {thread : Option ℕ}
      → w.phase ≡ holding (record { work = runs f; thread = thread })
      → is_over (m.fibers f).state ≡ true
      → Move me m w (record m { active = one_less m.active }) (record w { phase = looking })
  resume :
      {f : ℕ} {thread : Option ℕ} {g : Fiber}
      → w.phase ≡ holding (record { work = runs f; thread = thread })
      → is_over (m.fibers f).state ≡ false
      → swap_in (m.fibers f) ≡ some g
      → Move me m w (record m { fibers = put m.fibers f g }) (record w { phase = running queued f })
  call_first :
      {c : ℕ} {thread : Option ℕ} {g : Fiber}
      → w.phase ≡ holding (record { work = calls c; thread = thread })
      → w.cb_fiber ≡ none
      → swap_in (new_fiber (some c)) ≡ some g
      → Move me m w
          (record m { fibers = put m.fibers m.fresh g; fresh = suc m.fresh })
          (record w { phase = running own m.fresh; cb_fiber = some m.fresh })
  call_again :
      {c f : ℕ} {thread : Option ℕ} {g h : Fiber}
      → w.phase ≡ holding (record { work = calls c; thread = thread })
      → w.cb_fiber ≡ some f
      → reset (some c) (m.fibers f) ≡ some g
      → swap_in g ≡ some h
      → Move me m w (record m { fibers = put m.fibers f h }) (record w { phase = running own f })
  swap_out :
      {k : Kind} {f : ℕ} {g : Fiber} (x : Exit)
      → w.phase ≡ running k f
      → leave x (m.fibers f) ≡ some g
      → Move me m w (record m { fibers = put m.fibers f g }) (record w { phase = leaving k f })
  come_back :
      {k : Kind} {f : ℕ}
      → w.phase ≡ leaving k f
      → Move me m w (record m { active = one_less m.active }) (record w { phase = left k f })
  put_back :
      {f : ℕ}
      → w.phase ≡ left queued f
      → Move me m w (settle_queued f m) (record w { phase = looking })
  put_own :
      {f : ℕ} {m' : Scheduler} {kept : Option ℕ}
      → w.phase ≡ left own f
      → settle_own f m ≡ some (m', kept)
      → Move me m w m' (record w { phase = looking; cb_fiber = kept })
  idle_in :
      w.phase ≡ empty_handed
      → w.idle_over ≡ false
      → Move me m w (record m { idle = one_more m.idle }) (record w { phase = idling })
  idle_run :
      w.phase ≡ idling → Move me m w m (record w { phase = idled; idle_over = is_stopping m })
  idle_out :
      w.phase ≡ idled
      → Move me m w (record m { idle = one_less m.idle }) (record w { phase = looking })
  finish : w.phase ≡ empty_handed → w.idle_over ≡ true → Move me m w m (record w { phase = done })

-- The threads together. What others do to the scheduler is to schedule a task and to stop it, which
-- sets two flags one after the other.
pub record System : Type 0 where
  pub shared : Scheduler
  pub workers : ℕ → Worker

abbrev pub set_auto_stop : Scheduler → Scheduler
set_auto_stop m = record m { auto_stop = true }

abbrev pub set_stopping : Scheduler → Scheduler
set_stopping m = record m { stopping = true }

pub data Step (n : ℕ) (s : System) : System → Type 0 where
  work :
      (i : ℕ) {m : Scheduler} {w : Worker}
      → i < n
      → Move i s.shared (s.workers i) m w
      → Step n s (record { shared = m; workers = put s.workers i w })
  submit : (t : Task) → Step n s (record { shared = (schedule t s.shared).0; workers = s.workers })
  auto_stop_it : Step n s (record { shared = set_auto_stop s.shared; workers = s.workers })
  stop_it : Step n s (record { shared = set_stopping s.shared; workers = s.workers })

-- Start: each worker enters Run, with an idle fiber of its own.
abbrev pub start : (ℕ → Fiber) → ℕ → System
start fibers fresh = record {
  shared = record {
    queue = [];
    fibers = fibers;
    fresh = fresh;
    active = 0;
    idle = 0;
    stopping = false;
    auto_stop = false;
  };
  workers = λ i. record { phase = looking; cb_fiber = none; idle_over = false };
}

pub data Reach (n : ℕ) (s : System) : System → Type 0 where
  here : Reach n s s
  next : {t u : System} → Reach n s t → Step n t u → Reach n s u
