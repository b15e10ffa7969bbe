-- ===== src/Tests/Events.antt =====
-- Runs of the IOManager, with one event that waits.
use server_frame.Prelude.{
  ℕ, get_elem?-set_self, ◌^◌, ◌<◌, ◌≡◌, ◌≢◌, refl, List, [], ◌++◌, none, some, true, false, arith,
  length, get_elem?, set, ◌&&◌, ◌||◌, inl,
}
use server_frame.IoManager.{
  k_none, k_read, k_write, FdContext, Task, IoManager, init, has, context_resize, add_event,
  del_event, cancel_event, cancel_all, Report, handle, stopping,
}
use server_frame.IoManager.Context.{IsContext, waiter, waiting, TaskOf}
use server_frame.IoManager.Invariant.{IsValid, init-IsValid, put_at}
use server_frame.IoManager.Registration.{
  registered, Replies, del_event-Replies, cancel_event-Replies,
}
use server_frame.IoManager.Adding.{Waits, add_event-Replies}
use server_frame.IoManager.Cancelling.{Idles}
use server_frame.IoManager.Idle.{cancel_all-Replies, stopping-Idles}
use server_frame.IoManager.Reports.{Handles, handle-Replies}
use server_frame.Base.Timer.{Timer, TimerManager, get_next_timer}
use server_frame.Base.Timer.Invariant as Timers
use server_frame.Base.Fiber.{new_fiber}
use server_frame.Base.Scheduler.{Scheduler, is_stopping}
use server_frame.Base.Scheduler.Shutdown.{HasStopped}

read≢none : k_read ≢ k_none
read≢none e = cc

add_event-Replies_example : Replies (add_event true (some 1) 4 true 40 k_read none init) (λ b n.
    IsValid n
    × (b ≡ true)
    × (n.scheduled ≡ init.scheduled)
    × (b ≡ true → Waits 40 k_read 1 4 none n))
add_event-Replies_example =
    add_event-Replies true 1 4 true 40 k_read none init init-IsValid refl read≢none
      (unfold init context_resize has in refl)

-- A context that waits to read, with a callback.
abbrev waiting_context : FdContext
waiting_context = record {
  read = waiting 1 4 (some 6);
  write = record { scheduler = none; fiber = none; cb = none };
  fd = 3;
  events = record { can_read = true; can_write = false };
}

abbrev busy : IoManager
busy = record { fd_contexts = set init.fd_contexts 3 waiting_context; pending = 1; scheduled = [] }

waiting-IsContext : IsContext 3 waiting_context
waiting-IsContext = record { own = refl; reads = inl (1, 6, refl); writes = refl }

busy-IsValid : IsValid busy
unfolding init context_resize
busy-IsValid = record {
  contexts = put_at 3 init.fd_contexts waiting_context init-IsValid.contexts waiting-IsContext;
  counted = refl;
  roomy = omega arith;
}

busy-registered : registered 3 k_read busy ≡ true
unfolding init context_resize has
busy-registered = refl

del_event-Replies_example : Replies (del_event true 3 k_read busy) (λ b n.
    IsValid n
    × (b ≡ (registered 3 k_read busy && true))
    × (n.scheduled ≡ busy.scheduled)
    × (b ≡ true → registered 3 k_read n ≡ false)
    × (b ≡ false → n ≡ busy))
del_event-Replies_example = del_event-Replies true 3 k_read busy busy-IsValid

cancel_event-Replies_example : Replies (cancel_event true 3 k_read busy) (λ b n.
    IsValid n
    × (b ≡ (registered 3 k_read busy && true))
    × (b ≡ false → n ≡ busy)
    × (b ≡ true
        → (registered 3 k_read n ≡ false)
          × ((c : FdContext) × (ts : List Task) × (get_elem? busy.fd_contexts 3 ≡ some c)
              × TaskOf (waiter k_read c) ts
              × (n.scheduled ≡ busy.scheduled ++ ts))))
cancel_event-Replies_example = cancel_event-Replies true 3 k_read busy busy-IsValid

cancel_all-Replies_example : Replies (cancel_all true 3 busy) (λ b n.
    IsValid n
    × (b ≡ ((registered 3 k_read busy || registered 3 k_write busy) && true))
    × (b ≡ true → Idles 3 n)
    × (b ≡ false → n ≡ busy))
cancel_all-Replies_example = cancel_all-Replies true 3 busy busy-IsValid

abbrev report : Report
report = record { fd = 3; readable = true; writable = false; failed = false }

handle-Replies_example : Handles true false report waiting_context busy (handle true report busy)
handle-Replies_example = handle-Replies true report waiting_context busy busy-IsValid (
    get_elem?-set_self init.fd_contexts 3 waiting_context
      (unfold init context_resize in omega arith))

init_small : length init.fd_contexts < 2 ^ 63
unfolding init context_resize
init_small = omega arith

abbrev blank : ℕ → Timer
blank a = record { recurring = false; ms = 0; next = 0; cb = none }

-- A timer that has fired.
abbrev no_timers : TimerManager
no_timers = record { timers = []; heap = blank; fresh = 1; tickled = false; previous_time = 0 }

no_timers-IsValid : Timers.IsValid no_timers
no_timers-IsValid = record {
  sorted = tt;
  live = tt;
  waiting = tt;
  apart = tt;
  complete = λ a l (c, e). absurd (cc);
}

abbrev stopped : Scheduler
stopped = record {
  queue = [];
  fibers = λ a. new_fiber none;
  fresh = 0;
  active = 0;
  idle = 1;
  stopping = true;
  auto_stop = true;
}

stopping-init : stopping 50 no_timers stopped init ≡ true
unfolding init stopping get_next_timer is_stopping
stopping-init = refl

stopping-Idles_example :
    (no_timers.timers ≡ [])
    × ((no_timers.heap 0).cb ≡ none)
    × (registered 7 k_write init ≡ false)
    × HasStopped stopped
stopping-Idles_example =
    stopping-Idles 50 no_timers stopped init 0 7 k_write init-IsValid no_timers-IsValid tt
      (omega arith) (omega arith) init_small stopping-init
