-- ===== src/IoManager/Context.antt =====
-- The context of one file descriptor: its mask agrees with the two contexts of its events.
use server_frame.Prelude.{
  ℕ, suc, ◌+◌, ◌≡◌, ◌≢◌, refl, arith, ◌⊎◌, inl, inr, List, [], ◌∷◌, Option, none, some, Bool, true,
  false, if◌then◌else◌,
}
use mathlib.Core.Path.{subst}
use server_frame.IoManager.{
  Event, k_none, k_read, k_write, Events, EventContext, FdContext, Task, call, resume,
  empty_context, has, with_event, without_event, get_context, put_context, reset_context,
  trigger_context, trigger_event, arm_context, arm, remove,
}

-- A context waits with a scheduler and one of a callback and a fiber.
abbrev pub IsWaiting : EventContext → Type 0
IsWaiting x =
    ((s : ℕ) × (f : ℕ) × (x ≡ record { scheduler = some s; fiber = none; cb = some f }))
    ⊎ ((s : ℕ) × (f : ℕ) × (x ≡ record { scheduler = some s; fiber = some f; cb = none }))

abbrev pub Agrees : Bool → EventContext → Type 0
Agrees true x = IsWaiting x
Agrees false x = x ≡ empty_context

-- The context of the file descriptor `i`.
pub record IsContext (i : ℕ) (c : FdContext) : Type 0 where
  pub own : c.fd ≡ i
  pub reads : Agrees c.events.can_read c.read
  pub writes : Agrees c.events.can_write c.write

abbrev pub count : Events → ℕ
count e = (if e.can_read then 1 else 0) + (if e.can_write then 1 else 0)

-- The task that a waiting context leads to.
abbrev pub TaskOf : EventContext → List Task → Type 0
TaskOf x ts =
    (s : ℕ) × (f : ℕ) × (((x ≡ record { scheduler = some s; fiber = none; cb = some f })
        × (ts ≡ call s f ∷ []))
      ⊎ ((x ≡ record { scheduler = some s; fiber = some f; cb = none }) × (ts ≡ resume s f ∷ [])))

trigger_context-IsWaiting :
    (x : EventContext)
    → IsWaiting x
    → (ts : List Task) × (trigger_context x ≡ some (empty_context, ts)) × TaskOf x ts
unfolding trigger_context
trigger_context-IsWaiting x (inl (s, f, e)) = rw e (call s f ∷ [], refl, (s, f, inl (refl, refl)))
trigger_context-IsWaiting x (inr (s, f, e)) = rw e (resume s f ∷ [], refl, (s, f, inr (refl, refl)))

-- The context without the waiting reader, or the waiting writer.
abbrev pub no_reader : FdContext → FdContext
no_reader c = record {
  read = empty_context;
  write = c.write;
  fd = c.fd;
  events = record { can_read = false; can_write = c.events.can_write };
}

abbrev pub no_writer : FdContext → FdContext
no_writer c = record {
  read = c.read;
  write = empty_context;
  fd = c.fd;
  events = record { can_read = c.events.can_read; can_write = false };
}

abbrev pub no_event : Event → FdContext → FdContext
no_event k_none c = c
no_event k_read c = no_reader c
no_event k_write c = no_writer c

pub no_event-IsContext :
    (i : ℕ) (event : Event) (c : FdContext) → IsContext i c → IsContext i (no_event event c)
no_event-IsContext i k_none c v = v
no_event-IsContext i k_read c v = record { own = v.own; reads = refl; writes = v.writes }
no_event-IsContext i k_write c v = record { own = v.own; reads = v.reads; writes = refl }

pub count-no_event :
    (event : Event) (c : FdContext)
    → has event c.events ≡ true
    → count c.events ≡ suc (count (no_event event c).events)
unfolding has
count-no_event k_none c h = cc
count-no_event k_read c h = rw h (omega arith)
count-no_event k_write c h = rw h (omega arith)

trigger_read :
    (c : FdContext) (ts : List Task)
    → c.events.can_read ≡ true
    → trigger_context c.read ≡ some (empty_context, ts)
    → trigger_event k_read c ≡ some (no_reader c, ts)
unfolding trigger_event has without_event get_context put_context
trigger_read c ts h e = rw (h, e)

trigger_write :
    (c : FdContext) (ts : List Task)
    → c.events.can_write ≡ true
    → trigger_context c.write ≡ some (empty_context, ts)
    → trigger_event k_write c ≡ some (no_writer c, ts)
unfolding trigger_event has without_event get_context put_context
trigger_write c ts h e = rw (h, e)

-- The one that waits for the event.
abbrev pub waiter : Event → FdContext → EventContext
waiter k_none c = empty_context
waiter k_read c = c.read
waiter k_write c = c.write

-- TriggerEvent on a context that waits for the event gives the scheduler the one that waits, and
-- takes the event off.
pub trigger_event_lem :
    (i : ℕ) (event : Event) (c : FdContext)
    → IsContext i c
    → has event c.events ≡ true
    → (ts : List Task) × (trigger_event event c ≡ some (no_event event c, ts))
      × TaskOf (waiter event c) ts
unfolding has
trigger_event_lem i k_none c v h = cc
trigger_event_lem i k_read c v h =
    let (ts, e, t) = trigger_context-IsWaiting c.read (subst (λ b. Agrees b c.read) h v.reads) in
    (ts, trigger_read c ts h e, t)
trigger_event_lem i k_write c v h =
    let (ts, e, t) = trigger_context-IsWaiting c.write (subst (λ b. Agrees b c.write) h v.writes) in
    (ts, trigger_write c ts h e, t)

-- DelEvent forgets it.
pub remove_lem :
    (event : Event) (c : FdContext)
    → has event c.events ≡ true
    → remove event c ≡ some (no_event event c)
unfolding remove has without_event get_context put_context reset_context
remove_lem k_none c h = cc
remove_lem k_read c h = refl
remove_lem k_write c h = refl

-- What AddEvent makes wait.
abbrev pub waiting : ℕ → ℕ → Option ℕ → EventContext
waiting s running none = record { scheduler = some s; fiber = some running; cb = none }
waiting s running (some f) = record { scheduler = some s; fiber = none; cb = some f }

waiting-IsWaiting : (s running : ℕ) (cb : Option ℕ) → IsWaiting (waiting s running cb)
waiting-IsWaiting s running none = inr (s, running, refl)
waiting-IsWaiting s running (some f) = inl (s, f, refl)

abbrev pub armed_context : ℕ → ℕ → Event → Option ℕ → FdContext → FdContext
armed_context s running k_none cb c = c
armed_context s running k_read cb c = record {
  read = waiting s running cb;
  write = c.write;
  fd = c.fd;
  events = record { can_read = true; can_write = c.events.can_write };
}
armed_context s running k_write cb c = record {
  read = c.read;
  write = waiting s running cb;
  fd = c.fd;
  events = record { can_read = c.events.can_read; can_write = true };
}

pub armed_context-IsContext :
    (i s running : ℕ) (event : Event) (cb : Option ℕ) (c : FdContext)
    → IsContext i c
    → IsContext i (armed_context s running event cb c)
armed_context-IsContext i s running k_none cb c v = v
armed_context-IsContext i s running k_read cb c v = record {
  own = v.own;
  reads = waiting-IsWaiting s running cb;
  writes = v.writes;
}
armed_context-IsContext i s running k_write cb c v = record {
  own = v.own;
  reads = v.reads;
  writes = waiting-IsWaiting s running cb;
}

pub count-armed_context :
    (s running : ℕ) (event : Event) (cb : Option ℕ) (c : FdContext)
    → event ≢ k_none
    → has event c.events ≡ false
    → count (armed_context s running event cb c).events ≡ suc (count c.events)
unfolding has
count-armed_context s running k_none cb c n h = absurd (n refl)
count-armed_context s running k_read cb c n h = rw h (omega arith)
count-armed_context s running k_write cb c n h = rw h (omega arith)

-- A callback can always wait, and the running fiber where it executes.
abbrev pub CanWait : Bool → Option ℕ → Type 0
CanWait executing none = executing ≡ true
CanWait executing (some f) = Unit {0}

arm_read :
    (s running : ℕ) (x : Bool) (cb : Option ℕ) (c : FdContext)
    → CanWait x cb
    → c.read ≡ empty_context
    → arm (some s) running x k_read cb c ≡ some (armed_context s running k_read cb c)
unfolding arm with_event get_context put_context arm_context
arm_read s running x none c w e = rw (w, e, arm)
arm_read s running x (some f) c w e = rw (e, arm)

arm_write :
    (s running : ℕ) (x : Bool) (cb : Option ℕ) (c : FdContext)
    → CanWait x cb
    → c.write ≡ empty_context
    → arm (some s) running x k_write cb c ≡ some (armed_context s running k_write cb c)
unfolding arm with_event get_context put_context arm_context
arm_write s running x none c w e = rw (w, e, arm)
arm_write s running x (some f) c w e = rw (e, arm)

-- AddEvent's assertion on the context holds when the event is not registered.
pub arm_lem :
    (i s running : ℕ) (x : Bool) (event : Event) (cb : Option ℕ) (c : FdContext)
    → IsContext i c
    → CanWait x cb
    → event ≢ k_none
    → has event c.events ≡ false
    → arm (some s) running x event cb c ≡ some (armed_context s running event cb c)
unfolding arm has with_event get_context put_context
arm_lem i s running x k_none cb c v w n h = absurd (n refl)
arm_lem i s running x k_read cb c v w n h =
    let e : c.read ≡ empty_context = subst (λ b. Agrees b c.read) h v.reads in
    arm_read s running x cb c w e
arm_lem i s running x k_write cb c v w n h =
    let e : c.write ≡ empty_context = subst (λ b. Agrees b c.write) h v.writes in
    arm_write s running x cb c w e
