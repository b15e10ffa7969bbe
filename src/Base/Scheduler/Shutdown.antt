-- ===== src/Base/Scheduler/Shutdown.antt =====
-- What Stopping tells, and when a thread leaves Run.
use server_frame.Prelude.{
  ℕ, ap, put, ◌==◌, ◌<◌, ◌^◌, ◌≡◌, refl, List, [], ◌∷◌, ◌&&◌, Bool, true, false, arith,
  total_member, put_self, put_ne, ℕ-cases, inl, inr, ==_iff,
}
use server_frame.Base.Fiber.{Fiber}
use server_frame.Base.Scheduler.{
  Scheduler, Worker, Phase, Move, Step, System, Reach, start, schedule, is_stopping, Task, pick,
  put_back, put_own, idle_run, finish, take, find_none, drop, resume, call_first, call_again,
  swap_out, come_back, idle_in, idle_out, work, submit, auto_stop_it, stop_it, here, next,
}
use server_frame.Base.Scheduler.Counts.{
  is_busy, busy_in, settle_queued-Kept, settle_own-Kept, Reach-IsCounted,
}

all_hold :
    (a b : Bool) (q : List Task) (d : Bool)
    → (a && b && (elim q [ [] ↦ true | x ∷ xs ↦ false ]) && d) ≡ true
    → (b ≡ true) × (q ≡ []) × (d ≡ true)
all_hold true true [] true e = (refl, refl, refl)
all_hold true true [] false e = cc
all_hold true true (x ∷ xs) d e = cc
all_hold true false q d e = cc
all_hold false b q d e = cc

pub record HasStopped (m : Scheduler) : Type 0 where
  pub asked : m.stopping ≡ true
  pub emptied : m.queue ≡ []
  pub resting : m.active ≡ 0

pub is_stopping-HasStopped : (m : Scheduler) → is_stopping m ≡ true → HasStopped m
unfolding is_stopping
is_stopping-HasStopped m e =
    let (asked, emptied, resting) = all_hold m.auto_stop m.stopping m.queue (m.active == 0) e in
    record { asked = asked; emptied = emptied; resting = (==_iff m.active 0).0 resting }

-- Steps of the threads alone: nothing more is submitted.
pub data Works (n : ℕ) (s : System) : System → Type 0 where
  rests : Works n s s
  works :
      {t : System} (i : ℕ) {m : Scheduler} {w : Worker}
      → Works n s t
      → i < n
      → Move i t.shared (t.workers i) m w
      → Works n s (record { shared = m; workers = put t.workers i w })

-- The thread has no fiber to settle behind SwapIn.
abbrev pub has_settled : Phase → Bool
has_settled (Phase.left k f) = false
has_settled _ = true

-- The thread looks for a task, or is in its idle fiber, or has left Run.
abbrev pub has_no_work : Phase → Bool
has_no_work Phase.looking = true
has_no_work (Phase.holding t) = false
has_no_work Phase.empty_handed = true
has_no_work (Phase.running k f) = false
has_no_work (Phase.leaving k f) = false
has_no_work (Phase.left k f) = false
has_no_work Phase.idling = true
has_no_work Phase.idled = true
has_no_work Phase.done = true

not_busy : (p : Phase) → busy_in p ≡ 0 → has_settled p ≡ true → has_no_work p ≡ true
not_busy Phase.looking e h = refl
not_busy (Phase.holding t) e h = absurd (omega arith)
not_busy Phase.empty_handed e h = refl
not_busy (Phase.running k f) e h = absurd (omega arith)
not_busy (Phase.leaving k f) e h = absurd (omega arith)
not_busy (Phase.left k f) e h = cc
not_busy Phase.idling e h = refl
not_busy Phase.idled e h = refl
not_busy Phase.done e h = refl

-- The scheduler is at rest.
record IsResting (n : ℕ) (s : System) : Type 0 where
  stopped : is_stopping s.shared ≡ true
  workless : (i : ℕ) → i < n → has_no_work (s.workers i).phase ≡ true

-- A thread without work finds none, and changes at most the count of idle threads.
move_resting :
    {i : ℕ} {m : Scheduler} {w : Worker} {m' : Scheduler} {w' : Worker}
    → Move i m w m' w'
    → is_stopping m ≡ true
    → has_no_work w.phase ≡ true
    → (is_stopping m' ≡ true) × (has_no_work w'.phase ≡ true)
unfolding is_stopping pick
move_resting {i} {m} (take e f) s h =
    let none_left = ap (λ q. (pick m.fibers i q).0) (is_stopping-HasStopped m s).emptied in
    absurd (cc (none_left, f))
move_resting (find_none e f) s h = (s, refl)
move_resting (drop e f) s h = absurd (cc (ap has_no_work e, h))
move_resting (resume e f g) s h = absurd (cc (ap has_no_work e, h))
move_resting (call_first e f g) s h = absurd (cc (ap has_no_work e, h))
move_resting (call_again e f g k) s h = absurd (cc (ap has_no_work e, h))
move_resting (swap_out x e f) s h = absurd (cc (ap has_no_work e, h))
move_resting (come_back e) s h = absurd (cc (ap has_no_work e, h))
move_resting (put_back e) s h = absurd (cc (ap has_no_work e, h))
move_resting (put_own e f) s h = absurd (cc (ap has_no_work e, h))
move_resting (idle_in e f) s h = (s, refl)
move_resting (idle_run e) s h = (s, refl)
move_resting (idle_out e) s h = (s, refl)
move_resting (finish e f) s h = (s, refl)

Works-IsResting : {n : ℕ} {s t : System} → Works n s t → IsResting n s → IsResting n t
Works-IsResting rests v = v
Works-IsResting (works {t} i {m} {w} r l mv) v =
    let u = Works-IsResting r v in
    let (stopped, free) = move_resting mv u.stopped (u.workless i l) in
    record {
      stopped = stopped;
      workless = λ j k. elim (ℕ-cases j i) [
        | inl e ↦ rw (e, put_self t.workers i w) free
        | inr d ↦ rw (put_ne t.workers i w j d) (u.workless j k)
      ];
    }

-- Of fewer than 2^64 threads, when Stopping holds in a reached state in which no thread has a
-- fiber left to settle behind SwapIn, Stopping keeps holding whatever the threads do, until
-- something is submitted; and no thread holds, runs or settles a task any more.
pub is_stopping_lasts :
    {fibers : ℕ → Fiber} {fresh n : ℕ} {s t : System} (i : ℕ)
    → n < 2 ^ 64
    → Reach n (start fibers fresh) s
    → is_stopping s.shared ≡ true
    → ((j : ℕ) → j < n → has_settled (s.workers j).phase ≡ true)
    → Works n s t
    → i < n
    → (is_stopping t.shared ≡ true) × (has_no_work (t.workers i).phase ≡ true)
is_stopping_lasts {n = n} {s} {t} i few r e settled steps l =
    let stopped = is_stopping-HasStopped s.shared e in
    let resting : IsResting n s = record {
      stopped = e;
      workless = λ j k.
          let member = total_member is_busy n s.workers j k in
          not_busy (s.workers j).phase
            (omega (arith, member, (Reach-IsCounted few r).active, stopped.resting)) (settled j k);
    } in
    let after = Works-IsResting steps resting in (after.stopped, after.workless i l)

abbrev is_done : Phase → Bool
is_done Phase.looking = false
is_done (Phase.holding t) = false
is_done Phase.empty_handed = false
is_done (Phase.running k f) = false
is_done (Phase.leaving k f) = false
is_done (Phase.left k f) = false
is_done Phase.idling = false
is_done Phase.idled = false
is_done Phase.done = true

-- The state of one worker: its idle fiber has ended only behind a stop, and Run only behind that.
record IsStoppable (stopping : Bool) (w : Worker) : Type 0 where
  over : w.idle_over ≡ true → stopping ≡ true
  done : is_done w.phase ≡ true → w.idle_over ≡ true

move_stopping :
    {i : ℕ} {m : Scheduler} {w : Worker} {m' : Scheduler} {w' : Worker}
    → Move i m w m' w'
    → m'.stopping ≡ m.stopping
move_stopping {m = m} (put_back {f} e) = (settle_queued-Kept f m).2
move_stopping {m = m} (put_own {f} e x) = (settle_own-Kept f m x).2
move_stopping _ = refl

move-IsStoppable :
    {i : ℕ} {m : Scheduler} {w : Worker} {m' : Scheduler} {w' : Worker}
    → Move i m w m' w'
    → IsStoppable m.stopping w
    → IsStoppable m.stopping w'
move-IsStoppable {m = m} (idle_run e) v = record {
  over = λ o. (is_stopping-HasStopped m o).asked;
  done = λ d. cc;
}
move-IsStoppable (finish e o) v = record { over = v.over; done = λ d. o }
move-IsStoppable _ v = record { over = v.over; done = λ d. cc }

Step-IsStoppable :
    {n : ℕ} {s t : System}
    → Step n s t
    → ((i : ℕ) → IsStoppable s.shared.stopping (s.workers i))
    → (i : ℕ) → IsStoppable t.shared.stopping (t.workers i)
unfolding schedule
Step-IsStoppable {s = s} (work i {m} {w} l mv) v j = elim (ℕ-cases j i) [
  | inl e ↦ rw (e, put_self s.workers i w, move_stopping mv) (move-IsStoppable mv (v i))
  | inr d ↦ rw (put_ne s.workers i w j d, move_stopping mv) (v j)
]
Step-IsStoppable (submit t) v j = v j
Step-IsStoppable auto_stop_it v j = v j
Step-IsStoppable stop_it v j = record { over = λ o. refl; done = (v j).done }

Reach-IsStoppable :
    {fibers : ℕ → Fiber} {fresh n : ℕ} {s : System}
    → Reach n (start fibers fresh) s
    → (i : ℕ) → IsStoppable s.shared.stopping (s.workers i)
Reach-IsStoppable here i = record { over = λ o. cc; done = λ d. cc }
Reach-IsStoppable (next r st) i = Step-IsStoppable st (Reach-IsStoppable r) i

-- A thread has left Run only after the scheduler was told to stop.
pub done-stopping :
    {fibers : ℕ → Fiber} {fresh n : ℕ} {s : System} (i : ℕ)
    → Reach n (start fibers fresh) s
    → (s.workers i).phase ≡ Phase.done
    → s.shared.stopping ≡ true
done-stopping i r e = let v = Reach-IsStoppable r i in v.over (v.done (rw e))
