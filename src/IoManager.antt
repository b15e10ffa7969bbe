-- ===== src/IoManager.antt =====
-- server_frame/iomanager.h and iomanager.cc: the events that fibers wait for, per file descriptor.
-- `ctl` says whether the call of epoll_ctl succeeds. The mutexes are held throughout each
-- operation. A callback, a fiber and a scheduler are numbers; a null pointer is `none`.
pub mod Context
pub mod Invariant
pub mod Registration
pub mod Adding
pub mod Triggers
pub mod Cancelling
pub mod Idle
pub mod Reports
use server_frame.Base.Timer.{TimerManager, get_next_timer}
use server_frame.Base.Scheduler.{Scheduler, is_stopping}
use server_frame.Prelude.{
  ℕ, zero, suc, ◌+◌, ◌-◌, ◌*◌, ◌/◌, ◌%◌, ◌^◌, List, [], ◌∷◌, ◌++◌, Option, none, some, Bool, true,
  false, not, ◌&&◌, ◌||◌, ltb, leb, ◌==◌, if◌then◌else◌, length, get_elem?, set,
}

-- enum Event.
pub data Event : Type 0 where
  k_none : Event
  k_read : Event
  k_write : Event

-- The mask `events_`, bit by bit.
pub record Events : Type 0 where
  pub can_read : Bool
  pub can_write : Bool

pub record EventContext : Type 0 where
  pub scheduler : Option ℕ
  pub fiber : Option ℕ
  pub cb : Option ℕ

pub record FdContext : Type 0 where
  pub read : EventContext
  pub write : EventContext
  pub fd : ℕ
  pub events : Events

-- What a scheduler is given: a callback to call or a fiber to resume.
pub data Task : Type 0 where
  call : ℕ → ℕ → Task
  resume : ℕ → ℕ → Task

pub record IoManager : Type 0 where
  pub fd_contexts : List FdContext
  pub pending : ℕ
  pub scheduled : List Task

-- The outcome of an operation: a failed assertion ends the program, as does a null pointer.
pub data Reply : Type 0 where
  answers : Bool → IoManager → Reply
  asserts : Reply

abbrev pub empty_context : EventContext
empty_context = record { scheduler = none; fiber = none; cb = none }

abbrev pub no_events : Events
no_events = record { can_read = false; can_write = false }

-- events_ & event, events_ | event and events_ & ~event.
unfoldable pub has : Event → Events → Bool
has k_none e = false
has k_read e = e.can_read
has k_write e = e.can_write

pub with_event : Event → Events → Events
with_event k_none e = e
with_event k_read e = record e { can_read = true }
with_event k_write e = record e { can_write = true }

pub without_event : Event → Events → Events
without_event k_none e = e
without_event k_read e = record e { can_read = false }
without_event k_write e = record e { can_write = false }

pub get_context : Event → FdContext → Option EventContext
get_context k_none c = none
get_context k_read c = some c.read
get_context k_write c = some c.write

-- The context with the one of `event` replaced.
pub put_context : Event → EventContext → FdContext → FdContext
put_context k_none x c = c
put_context k_read x c = record c { read = x }
put_context k_write x c = record c { write = x }

pub reset_context : EventContext → EventContext
reset_context x = record x { scheduler = none; fiber = none; cb = none }

-- The part of TriggerEvent behind GetContext. Schedule swaps the callback or the fiber out of the
-- context, and drops an empty one.
pub trigger_context : EventContext → Option (EventContext × List Task)
trigger_context x = elim x.scheduler [
  | none ↦ none
  | some s ↦ elim x.cb [
    | some f ↦ some (record x { scheduler = none; cb = none }, call s f ∷ [])
    | none ↦ elim x.fiber [
      | some f ↦ some (record x { scheduler = none; fiber = none }, resume s f ∷ [])
      | none ↦ some (record x { scheduler = none }, [])
    ]
  ]
]

pub trigger_event : Event → FdContext → Option (FdContext × List Task)
unfolding has without_event get_context put_context trigger_context
trigger_event event c =
    let left = record c { events = without_event event c.events } in
    if has event c.events
    then elim (get_context event left) [
      | none ↦ none
      | some x ↦ elim (trigger_context x) [
        | none ↦ none
        | some (y, tasks) ↦ some (put_context event y left, tasks)
      ]
    ]
    else none

abbrev pub new_context : ℕ → FdContext
new_context i = record { read = empty_context; write = empty_context; fd = i; events = no_events }

-- ContextResize on the contexts from index `i` on.
unfoldable pub context_resize : ℕ → ℕ → List FdContext → List FdContext
context_resize zero i cs = []
context_resize (suc n) i [] = new_context i ∷ context_resize n (suc i) []
context_resize (suc n) i (c ∷ cs) = c ∷ context_resize n (suc i) cs

-- The contexts and the count as the constructor leaves them.
unfoldable pub init : IoManager
unfolding context_resize
init = record { fd_contexts = context_resize 32 0 []; pending = 0; scheduled = [] }

is_none : Option ℕ → Bool
is_none x = elim x [ none ↦ true | some a ↦ false ]

-- The end of AddEvent, from the first assertion on. `self` is Scheduler::GetThis(), `running` is
-- Fiber::GetThis(), and `executing` says that its state is kExec.
pub arm_context : Option ℕ → ℕ → Bool → Option ℕ → EventContext → Option EventContext
unfolding is_none
arm_context self running executing cb x =
    if is_none x.scheduler && is_none x.fiber && is_none x.cb
    then elim cb [
      | some f ↦ some (record x { scheduler = self; cb = some f })
      | none ↦
          if executing then some (record x { scheduler = self; fiber = some running }) else none
    ]
    else none

pub arm : Option ℕ → ℕ → Bool → Event → Option ℕ → FdContext → Option FdContext
unfolding with_event get_context put_context arm_context
arm self running executing event cb c =
    let left = record c { events = with_event event c.events } in
    elim (get_context event left) [
      | none ↦ none
      | some x ↦ elim (arm_context self running executing cb x) [
        | none ↦ none
        | some y ↦ some (put_context event y left)
      ]
    ]

-- The contexts after AddEvent has made room for `fd`.
pub reserve : ℕ → List FdContext → List FdContext
unfolding context_resize
reserve fd cs = if ltb fd (length cs) then cs else context_resize (fd * 3 / 2) 0 cs

-- AddEvent; the answers 0 and -1 are `true` and `false`.
pub add_event : Bool → Option ℕ → ℕ → Bool → ℕ → Event → Option ℕ → IoManager → Reply
unfolding reserve has arm
add_event ctl self running executing fd event cb m =
    let cs = reserve fd m.fd_contexts in
    elim (get_elem? cs fd) [
      | none ↦ asserts
      | some c ↦
          if has event c.events
          then asserts
          else if not ctl
          then answers false (record m { fd_contexts = cs })
          else elim (arm self running executing event cb c) [
            | none ↦ asserts
            | some d ↦
                answers true
                  (record m { fd_contexts = set cs fd d; pending = (m.pending + 1) % 2 ^ 64 })
          ]
    ]

-- The context after DelEvent.
pub remove : Event → FdContext → Option FdContext
unfolding without_event get_context put_context reset_context
remove event c =
    let left = record c { events = without_event event c.events } in
    elim (get_context event left) [
      | none ↦ none
      | some x ↦ some (put_context event (reset_context x) left)
    ]

pub less_one : ℕ → ℕ
less_one p = (p + (2 ^ 64 - 1)) % 2 ^ 64

pub del_event : Bool → ℕ → Event → IoManager → Reply
unfolding has remove less_one
del_event ctl fd event m = elim (get_elem? m.fd_contexts fd) [
  | none ↦ answers false m
  | some c ↦
      if not (has event c.events)
      then answers false m
      else if not ctl
      then answers false m
      else elim (remove event c) [
        | none ↦ asserts
        | some d ↦
            answers true
              (record m { fd_contexts = set m.fd_contexts fd d; pending = less_one m.pending })
      ]
]

-- TriggerEvent on the context at `fd`, and the count.
pub trigger : ℕ → Event → FdContext → IoManager → Option (FdContext × IoManager)
unfolding trigger_event less_one
trigger fd event c m = elim (trigger_event event c) [
  | none ↦ none
  | some (d, tasks) ↦ some (
    d,
    record m {
      fd_contexts = set m.fd_contexts fd d;
      pending = less_one m.pending;
      scheduled = m.scheduled ++ tasks;
    },
  )
]

pub cancel_event : Bool → ℕ → Event → IoManager → Reply
unfolding has trigger
cancel_event ctl fd event m = elim (get_elem? m.fd_contexts fd) [
  | none ↦ answers false m
  | some c ↦
      if not (has event c.events)
      then answers false m
      else if not ctl
      then answers false m
      else elim (trigger fd event c m) [ none ↦ asserts | some (d, n) ↦ answers true n ]
]

-- BothDone events, for those of a context that `wanted` names.
pub trigger_both : ℕ → Events → FdContext → IoManager → Option (FdContext × IoManager)
unfolding trigger
trigger_both fd wanted c m =
    let first = if wanted.can_read then trigger fd k_read c m else some (c, m) in
    elim first [
      | none ↦ none
      | some (d, n) ↦ if wanted.can_write then trigger fd k_write d n else some (d, n)
    ]

pub cancel_all : Bool → ℕ → IoManager → Reply
unfolding trigger_both
cancel_all ctl fd m = elim (get_elem? m.fd_contexts fd) [
  | none ↦ answers false m
  | some c ↦
      if not (c.events.can_read || c.events.can_write)
      then answers false m
      else if not ctl
      then answers false m
      else elim (trigger_both fd c.events c m) [
        | none ↦ asserts
        | some (d, n) ↦ if d.events.can_read || d.events.can_write then asserts else answers true n
      ]
]

-- Stopping, of the IOManager with its TimerManager, whose `tickled_` it also clears, and its
-- Scheduler.
unfoldable pub stopping : ℕ → TimerManager → Scheduler → IoManager → Bool
unfolding get_next_timer is_stopping
stopping now timers scheduler m =
    ((get_next_timer now timers).0 == 2 ^ 64 - 1) && (m.pending == 0) && is_stopping scheduler

-- What epoll_wait reports for the context of `fd`: `failed` is EPOLLERR or EPOLLHUP.
pub record Report : Type 0 where
  pub fd : ℕ
  pub readable : Bool
  pub writable : Bool
  pub failed : Bool

pub real_events : Report → Events → Events
real_events r e = record {
  can_read = r.readable || (r.failed && e.can_read);
  can_write = r.writable || (r.failed && e.can_write);
}

-- events_ & real_events is not empty.
pub overlaps : Events → Events → Bool
overlaps e real = (e.can_read && real.can_read) || (e.can_write && real.can_write)

-- The body of Idle's loop over the reported events.
pub handle : Bool → Report → IoManager → Reply
handle ctl r m = elim (get_elem? m.fd_contexts r.fd) [
  | none ↦ asserts
  | some c ↦
      let real = real_events r c.events in
      if not (overlaps c.events real)
      then answers true m
      else if not ctl
      then answers true m
      else elim (trigger_both r.fd real c m) [ none ↦ asserts | some (d, n) ↦ answers true n ]
]

pub handle_all : List (Bool × Report) → IoManager → Reply
unfolding handle
handle_all [] m = answers true m
handle_all ((ctl, r) ∷ rs) m = elim (handle ctl r m) [
  | asserts ↦ asserts
  | answers b n ↦ handle_all rs n
]

-- The timeout that Idle passes to epoll_wait, as the 32 bits of an int.
pub wait_time : ℕ → ℕ
wait_time next =
    let max_timeout : ℕ = 3000 in
    let low = next % 2 ^ 32 in
    let waits : ℕ =
      if next == 2 ^ 64 - 1
      then max_timeout
      else if ltb low (2 ^ 31) && ltb max_timeout low
      then max_timeout
      else next in
    waits % 2 ^ 32
