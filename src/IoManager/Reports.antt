-- ===== src/IoManager/Reports.antt =====
-- What the loop of Idle does with a report of epoll. A report may be stale: DelEvent, CancelEvent or
-- CancelAll of another thread may have taken an event off since.
use server_frame.Prelude.{
  ℕ, ◌≡◌, refl, sym, ap, ◌∙◌, ◌⊎◌, inl, inr, List, ◌++◌, Option, none, some, Bool, true, false, not,
  ◌&&◌, ◌||◌, if◌then◌else◌, get_elem?, Bool-cases, arith,
}
use mathlib.Core.Path.{subst}
use server_frame.IoManager.{
  k_read, k_write, Events, FdContext, Task, IoManager, Reply, answers, asserts, has, trigger_both,
  Report, real_events, handle, overlaps,
}
use server_frame.IoManager.Invariant.{IsValid}
use server_frame.IoManager.Registration.{registered}
use server_frame.IoManager.Triggers.{
  trigger_both-BothDone, TasksOf, SameOthers, trigger_both_read, trigger_both_write,
}

-- An event is taken when it is registered and epoll reports it, an error or a hang-up.
abbrev pub takes_read : Report → Events → Bool
takes_read r e = e.can_read && (r.readable || r.failed)

abbrev pub takes_write : Report → Events → Bool
takes_write r e = e.can_write && (r.writable || r.failed)

-- epoll reports an event that is not registered.
abbrev pub is_stale : Report → Events → Bool
is_stale r e = (r.readable && not e.can_read) || (r.writable && not e.can_write)

-- The state behind a report of which all is taken.
pub record Taken (r : Report) (c : FdContext) (m n : IoManager) : Type 0 where
  pub valid : IsValid n
  pub reads : registered r.fd k_read n ≡ (c.events.can_read && not (r.readable || r.failed))
  pub writes : registered r.fd k_write n ≡ (c.events.can_write && not (r.writable || r.failed))
  pub for_reader : List Task
  pub for_writer : List Task
  pub reader : TasksOf (takes_read r c.events) c.read for_reader
  pub writer : TasksOf (takes_write r c.events) c.write for_writer
  pub scheduled : n.scheduled ≡ m.scheduled ++ for_reader ++ for_writer
  pub others : SameOthers r.fd n m

-- By whether epoll takes events off, and whether the report is stale.
abbrev pub Handles : Bool → Bool → Report → FdContext → IoManager → Reply → Type 0
Handles false stale r c m reply = reply ≡ answers true m
Handles true true r c m reply = reply ≡ asserts
Handles true false r c m reply = (n : IoManager) × (reply ≡ answers true n) × Taken r c m n

abbrev answer : Option (FdContext × IoManager) → Reply
answer o = elim o [ none ↦ asserts | some (d, n) ↦ answers true n ]

handle_step :
    (ctl : Bool) (r : Report) (c : FdContext) (m : IoManager)
    → get_elem? m.fd_contexts r.fd ≡ some c
    → handle ctl r m ≡ (
        if not (overlaps c.events (real_events r c.events))
        then answers true m
        else if not ctl
        then answers true m
        else answer (trigger_both r.fd (real_events r c.events) c m))
unfolding handle
handle_step ctl r c m e = rw (handle, e)

has_read :
    (fd : ℕ) (c : FdContext) (m : IoManager)
    → get_elem? m.fd_contexts fd ≡ some c
    → registered fd k_read m ≡ c.events.can_read
unfolding has
has_read fd c m e = rw (registered, e) refl

has_write :
    (fd : ℕ) (c : FdContext) (m : IoManager)
    → get_elem? m.fd_contexts fd ≡ some c
    → registered fd k_write m ≡ c.events.can_write
unfolding has
has_write fd c m e = rw (registered, e) refl

-- `real_events` of one event, for a report that is not stale.
fresh_event : (x f a : Bool) → (x && not a) ≡ false → (x || (f && a)) ≡ (a && (x || f))
fresh_event true f true e = refl
fresh_event true f false e = cc
fresh_event false true a e = ground arith
fresh_event false false a e = ground arith

kept_event : (x f a : Bool) → (a && not (a && (x || f))) ≡ (a && not (x || f))
kept_event x f true = refl
kept_event x f false = refl

overlap_lem :
    (r : Report) (e : Events) → overlaps e (real_events r e) ≡ (takes_read r e || takes_write r e)
unfolding overlaps real_events
overlap_lem r e = ground arith

all_fresh :
    (r : Report) (e : Events)
    → is_stale r e ≡ false
    → ((r.readable && not e.can_read) ≡ false) × ((r.writable && not e.can_write) ≡ false)
all_fresh r e h = ground arith

real_lem :
    (r : Report) (e : Events)
    → is_stale r e ≡ false
    → ((real_events r e).can_read ≡ takes_read r e)
      × ((real_events r e).can_write ≡ takes_write r e)
unfolding real_events
real_lem r e h =
    let (reads, writes) = all_fresh r e h in
    (
      fresh_event r.readable r.failed e.can_read reads,
      fresh_event r.writable r.failed e.can_write writes,
    )

taken_registered : (a b : Bool) → (a && b) ≡ true → a ≡ true
taken_registered true b e = refl
taken_registered false b e = cc

handle_kept :
    (ctl : Bool) (r : Report) (c : FdContext) (m : IoManager)
    → get_elem? m.fd_contexts r.fd ≡ some c
    → ((takes_read r c.events || takes_write r c.events) && ctl) ≡ false
    → handle ctl r m ≡ answers true m
handle_kept ctl r c m e h = elim (Bool-cases (overlaps c.events (real_events r c.events))) [
  | inr o ↦ rw (handle_step ctl r c m e, o)
  | inl o ↦
      let off : ctl ≡ false = ap (λ b. b && ctl) (sym (sym (overlap_lem r c.events) ∙ o)) ∙ h in
      rw (handle_step ctl r c m e, o, off)
]

both_true : (a b : Bool) → (a && b) ≡ true → (a ≡ true) × (b ≡ true)
both_true true true e = (refl, refl)
both_true true false e = cc
both_true false b e = cc

handle_taken :
    (ctl : Bool) (r : Report) (c : FdContext) (m : IoManager)
    → get_elem? m.fd_contexts r.fd ≡ some c
    → ((takes_read r c.events || takes_write r c.events) && ctl) ≡ true
    → handle ctl r m ≡ answer (trigger_both r.fd (real_events r c.events) c m)
handle_taken ctl r c m e h =
    let (taken, t) = both_true (takes_read r c.events || takes_write r c.events) ctl h in
    rw (handle_step ctl r c m e, overlap_lem r c.events, taken, t)

fresh-Taken :
    (r : Report) (c : FdContext) (m : IoManager)
    → IsValid m
    → get_elem? m.fd_contexts r.fd ≡ some c
    → is_stale r c.events ≡ false
    → (n : IoManager) × (answer (trigger_both r.fd (real_events r c.events) c m) ≡ answers true n)
      × Taken r c m n
fresh-Taken r c m v e h =
    let (reads, writes) = real_lem r c.events h in
    let both =
      trigger_both-BothDone r.fd (real_events r c.events) c m v e
        (λ q. taken_registered c.events.can_read (r.readable || r.failed) (sym reads ∙ q))
        (λ q. taken_registered c.events.can_write (r.writable || r.failed) (sym writes ∙ q)) in
    let n = both.after in
    (
      n,
      ap answer both.result,
      record {
        valid = both.valid;
        reads =
            has_read r.fd both.context n both.stored
            ∙ both.reads
            ∙ ap (λ b. c.events.can_read && not b) reads
            ∙ kept_event r.readable r.failed c.events.can_read;
        writes =
            has_write r.fd both.context n both.stored
            ∙ both.writes
            ∙ ap (λ b. c.events.can_write && not b) writes
            ∙ kept_event r.writable r.failed c.events.can_write;
        for_reader = both.for_reader;
        for_writer = both.for_writer;
        reader = subst (λ b. TasksOf b c.read both.for_reader) reads both.reader;
        writer = subst (λ b. TasksOf b c.write both.for_writer) writes both.writer;
        scheduled = both.scheduled;
        others = both.others;
      },
    )

stale_cases :
    (r : Report) (e : Events)
    → is_stale r e ≡ true
    → ((r.readable ≡ true) × (e.can_read ≡ false))
      ⊎ ((r.readable && not e.can_read) ≡ false) × (r.writable ≡ true) × (e.can_write ≡ false)
stale_cases r e h = ground arith

real_read : (x f a : Bool) → (x && not a) ≡ false → (x || (f && a)) ≡ true → a ≡ true
real_read x f true h t = refl
real_read true f false h t = cc
real_read false f false h t = ground arith

reported : (x b : Bool) → x ≡ true → (x || b) ≡ true
reported x b e = rw e refl

stale-asserts :
    (r : Report) (c : FdContext) (m : IoManager)
    → IsValid m
    → get_elem? m.fd_contexts r.fd ≡ some c
    → is_stale r c.events ≡ true
    → answer (trigger_both r.fd (real_events r c.events) c m) ≡ asserts
unfolding real_events
stale-asserts r c m v e h =
    let real = real_events r c.events in
    elim (stale_cases r c.events h) [
      | inl (x, a) ↦ ap answer (
          trigger_both_read r.fd real c m (reported r.readable (r.failed && c.events.can_read) x) a)
      | inr (k, x, a) ↦ ap answer (
          trigger_both_write r.fd real c m v e (real_read r.readable r.failed c.events.can_read k)
            (reported r.writable (r.failed && c.events.can_write) x) a)
    ]

-- On a valid IOManager, for a report on a descriptor with a context `c`: if no registered event is
-- reported, nor an error or a hang-up for one, or if epoll fails, the loop of Idle changes
-- nothing. Otherwise it fails an assertion if the report is stale, that is, reports an event that
-- is not registered. If it is not, just the reported events, and at an error or a hang-up all that
-- are registered, are taken off; those who wait for them are scheduled, the reader first; the
-- invariant holds again, and no other descriptor changes.
pub handle-Replies :
    (ctl : Bool) (r : Report) (c : FdContext) (m : IoManager)
    → IsValid m
    → get_elem? m.fd_contexts r.fd ≡ some c
    → Handles
        ((takes_read r c.events || takes_write r c.events) && ctl)
        (is_stale r c.events)
        r
        c
        m
        (handle ctl r m)
handle-Replies ctl r c m v e =
    go ((takes_read r c.events || takes_write r c.events) && ctl) (is_stale r c.events) refl refl
  where
    go :
        (b stale : Bool)
        → ((takes_read r c.events || takes_write r c.events) && ctl) ≡ b
        → is_stale r c.events ≡ stale
        → Handles b stale r c m (handle ctl r m)
    go false stale p q = handle_kept ctl r c m e p
    go true true p q = handle_taken ctl r c m e p ∙ stale-asserts r c m v e q
    go true false p q =
        let (n, f, t) = fresh-Taken r c m v e q in (n, handle_taken ctl r c m e p ∙ f, t)
