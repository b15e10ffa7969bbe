-- ===== src/Tests/Schedulers.antt =====
-- Runs of the scheduler.
use server_frame.Prelude.{
  ℕ, zero, suc, ◌<◌, ◌≡◌, refl, List, [], ◌∷◌, none, some, true, false, arith,
}
use server_frame.Base.Fiber.{Fiber, new_fiber, Exit, swap_in, leave, reset}
use server_frame.Base.Scheduler.{
  Task, calls, System, Phase, Kind, start, Reach, here, next, work, submit, auto_stop_it, stop_it,
  find_none, take, call_first, swap_out, come_back, put_own, pick, schedule, settle_own,
  is_stopping,
}
use server_frame.Base.Scheduler.Picking.{Picks, pick-Picks}
use server_frame.Base.Scheduler.Counts.{IsCounted, Reach-IsCounted}
use server_frame.Base.Scheduler.Shutdown.{Works, works, has_settled, has_no_work, is_stopping_lasts}
use server_frame.Base.Scheduler.Waking.{Held, idling-Held}

abbrev no_fibers : ℕ → Fiber
no_fibers a = new_fiber none

abbrev job : Task
job = record { work = calls 7; thread = none }

-- A task for the thread 3, and one for any.
abbrev two_jobs : List Task
two_jobs = record { work = calls 5; thread = some 3 } ∷ job ∷ []

pick-Picks_example : Picks no_fibers 0 two_jobs (pick no_fibers 0 two_jobs).0
pick-Picks_example = pick-Picks no_fibers 0 two_jobs

-- One thread runs one callback to its end, and the scheduler is stopped.
abbrev first_state : System
first_state = start no_fibers 0

one_job : (s : System) × Reach 1 first_state s × (is_stopping s.shared ≡ true)
unfolding schedule pick swap_in leave reset settle_own is_stopping
one_job = (
  _,
  next
      (next
        (next
          (next
            (next
              (next
                (next (next here (submit job))
                  (work 0 (omega arith) (take {t = job} {rest = []} refl refl)))
                (work 0 (omega arith) (call_first {c = 7} {thread = none} refl refl refl)))
              (work 0 (omega arith) (swap_out {k = Kind.own} {f = 0} Exit.returned refl refl)))
            (work 0 (omega arith) (come_back {k = Kind.own} {f = 0} refl)))
          (work 0 (omega arith) (put_own {f = 0} refl refl)))
        auto_stop_it)
      stop_it,
  refl,
)

Reach-IsCounted_example : IsCounted 1 one_job.0
Reach-IsCounted_example =
    Reach-IsCounted {fibers = no_fibers} {fresh = 0} {n = 1} {s = one_job.0} (omega arith) one_job.1

all_settled : (j : ℕ) → j < 1 → has_settled (one_job.0.workers j).phase ≡ true
unfolding one_job
all_settled zero l = refl
all_settled (suc j) l = absurd (omega arith)

-- The thread looks for another task and finds none.
one_look : (t : System) × Works 1 one_job.0 t
unfolding one_job pick
one_look = (_, works 0 Works.rests (omega arith) (find_none refl refl))

is_stopping_lasts_example :
    (is_stopping one_look.0.shared ≡ true) × (has_no_work (one_look.0.workers 0).phase ≡ true)
is_stopping_lasts_example =
    is_stopping_lasts {fibers = no_fibers} {fresh = 0} {n = 1} {s = one_job.0} {t = one_look.0} 0
      (omega arith) one_job.1 one_job.2 all_settled one_look.1 (omega arith)

-- A thread in its idle fiber, with a task in the queue.
abbrev asleep : System
asleep = record {
  shared = record first_state.shared { queue = two_jobs; idle = 1 };
  workers = λ i. record { phase = Phase.idling; cb_fiber = none; idle_over = false };
}

idling-Held_example : Held 0 asleep
idling-Held_example =
    idling-Held 0 asleep (record { work = calls 5; thread = some 3 } ∷ []) [] job refl refl refl
