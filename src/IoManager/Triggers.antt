-- ===== src/IoManager/Triggers.antt =====
-- Triggering both events of a context, one after the other.
use server_frame.Prelude.{
  ℕ, ◌≡◌, refl, sym, ap, ◌∙◌, ◌≢◌, List, [], append-nil, get_elem?-set_ne, ◌++◌, Option, none, some,
  Bool, true, false, not, ◌&&◌, if◌then◌else◌, get_elem?, get_elem?-set_self,
}
use mathlib.Core.Path.{subst}
use server_frame.IoManager.{
  Event, EventContext, Task, trigger_event, k_read, k_write, Events, FdContext, IoManager, has,
  trigger, trigger_both,
}
use server_frame.IoManager.Context.{
  TaskOf, waiter, no_event, no_reader, no_writer, trigger_event_lem,
}
use server_frame.IoManager.Invariant.{IsValid, IsContext-at, no_event-IsValid}
use server_frame.IoManager.Registration.{in_range, trigger_on, taken_off}

-- What is scheduled for a context, if its event is triggered.
abbrev pub TasksOf : Bool → EventContext → List Task → Type 0
TasksOf true x ts = TaskOf x ts
TasksOf false x ts = ts ≡ []

abbrev pub SameOthers : ℕ → IoManager → IoManager → Type 0
SameOthers fd n m = (i : ℕ) → fd ≢ i → get_elem? n.fd_contexts i ≡ get_elem? m.fd_contexts i

-- The state after the events that `wanted` names are triggered, one after the other.
pub record BothDone (fd : ℕ) (wanted : Events) (c : FdContext) (m : IoManager) : Type 0 where
  pub context : FdContext
  pub after : IoManager
  pub result : trigger_both fd wanted c m ≡ some (context, after)
  pub valid : IsValid after
  pub stored : get_elem? after.fd_contexts fd ≡ some context
  pub reads : context.events.can_read ≡ (c.events.can_read && not wanted.can_read)
  pub writes : context.events.can_write ≡ (c.events.can_write && not wanted.can_write)
  pub for_reader : List Task
  pub for_writer : List Task
  pub reader : TasksOf wanted.can_read c.read for_reader
  pub writer : TasksOf wanted.can_write c.write for_writer
  pub scheduled : after.scheduled ≡ m.scheduled ++ for_reader ++ for_writer
  pub others : SameOthers fd after m

-- One event of a valid state.
record One (fd : ℕ) (event : Event) (c : FdContext) (m : IoManager) : Type 0 where
  after : IoManager
  result : trigger fd event c m ≡ some (no_event event c, after)
  valid : IsValid after
  stored : get_elem? after.fd_contexts fd ≡ some (no_event event c)
  tasks : List Task
  task : TaskOf (waiter event c) tasks
  scheduled : after.scheduled ≡ m.scheduled ++ tasks
  others : SameOthers fd after m

trigger-One :
    (fd : ℕ) (event : Event) (c : FdContext) (m : IoManager)
    → IsValid m
    → get_elem? m.fd_contexts fd ≡ some c
    → has event c.events ≡ true
    → One fd event c m
trigger-One fd event c m v e h =
    let (ts, f, task) =
      trigger_event_lem fd event c (IsContext-at fd m.fd_contexts v.contexts e) h in
    record {
      after = taken_off fd event c (m.scheduled ++ ts) m;
      result = trigger_on fd event c m ts f;
      valid = no_event-IsValid fd event c m (m.scheduled ++ ts) v e h;
      stored =
          get_elem?-set_self m.fd_contexts fd (no_event event c) (in_range fd m.fd_contexts c e);
      tasks = ts;
      task = task;
      scheduled = refl;
      others = λ i d. get_elem?-set_ne m.fd_contexts fd i (no_event event c) d;
    }

second : ℕ → Bool → FdContext × IoManager → Option (FdContext × IoManager)
second fd w (d, n) = if w then trigger fd k_write d n else some (d, n)

first_of : ℕ → Bool → FdContext → IoManager → Option (FdContext × IoManager)
first_of fd r c m = if r then trigger fd k_read c m else some (c, m)

trigger_both_step :
    (fd : ℕ) (wanted : Events) (c : FdContext) (m : IoManager)
    → trigger_both fd wanted c m ≡ elim (first_of fd wanted.can_read c m) [
      | none ↦ none
      | some p ↦ second fd wanted.can_write p
    ]
unfolding trigger_both first_of second
trigger_both_step fd wanted c m = refl

and_true : (a : Bool) → a ≡ (a && true)
and_true true = refl
and_true false = refl

and_false : (a : Bool) → false ≡ (a && false)
and_false true = refl
and_false false = refl

-- A step that may trigger an event keeps the invariant.
abbrev Stepped :
    ℕ → IoManager → Bool → EventContext → Option (FdContext × IoManager) → Bool → Bool → Type 0
Stepped fd m t x o r w =
    (d : FdContext) × (n : IoManager) × (ts : List Task) × (o ≡ some (d, n))
    × TasksOf t x ts
    × (n.scheduled ≡ m.scheduled ++ ts)
    × SameOthers fd n m
    × IsValid n
    × (get_elem? n.fd_contexts fd ≡ some d)
    × (d.events.can_read ≡ r)
    × (d.events.can_write ≡ w)

first_of-Stepped :
    (fd : ℕ) (r : Bool) (c : FdContext) (m : IoManager)
    → IsValid m
    → get_elem? m.fd_contexts fd ≡ some c
    → (r ≡ true → c.events.can_read ≡ true)
    → (p : Stepped fd m r c.read
        (first_of fd r c m)
        (c.events.can_read && not r)
        c.events.can_write)
      × (p.0.write ≡ c.write)
unfolding first_of has
first_of-Stepped fd true c m v e h =
    let one = trigger-One fd k_read c m v e (h refl) in
    (
      (
        no_reader c,
        one.after,
        one.tasks,
        one.result,
        one.task,
        one.scheduled,
        one.others,
        one.valid,
        one.stored,
        and_false c.events.can_read,
        refl,
      ),
      refl,
    )
first_of-Stepped fd false c m v e h = (
  (
    c,
    m,
    [],
    refl,
    refl,
    sym (append-nil m.scheduled),
    (λ i d. refl),
    v,
    e,
    and_true c.events.can_read,
    refl,
  ),
  refl,
)

second-Stepped :
    (fd : ℕ) (w : Bool) (c : FdContext) (m : IoManager)
    → IsValid m
    → get_elem? m.fd_contexts fd ≡ some c
    → (w ≡ true → c.events.can_write ≡ true)
    → Stepped fd m w c.write (second fd w (c, m)) c.events.can_read (c.events.can_write && not w)
unfolding second has
second-Stepped fd true c m v e h =
    let one = trigger-One fd k_write c m v e (h refl) in
    (
      no_writer c,
      one.after,
      one.tasks,
      one.result,
      one.task,
      one.scheduled,
      one.others,
      one.valid,
      one.stored,
      refl,
      and_false c.events.can_write,
    )
second-Stepped fd false c m v e h = (
  c,
  m,
  [],
  refl,
  refl,
  sym (append-nil m.scheduled),
  (λ i d. refl),
  v,
  e,
  refl,
  and_true c.events.can_write,
)

-- Triggering events that are registered fails no assertion, and takes off just those.
pub trigger_both-BothDone :
    (fd : ℕ) (wanted : Events) (c : FdContext) (m : IoManager)
    → IsValid m
    → get_elem? m.fd_contexts fd ≡ some c
    → (wanted.can_read ≡ true → c.events.can_read ≡ true)
    → (wanted.can_write ≡ true → c.events.can_write ≡ true)
    → BothDone fd wanted c m
trigger_both-BothDone fd wanted c m v e hr hw =
    let ((d, n, rs, f, tr, sr, sn, vn, en, dr, dw), same) =
      first_of-Stepped fd wanted.can_read c m v e hr in
    let (d', n', ws, f', tw, sw, sn', vn', en', dr', dw') =
      second-Stepped fd wanted.can_write d n vn en (λ t. dw ∙ hw t) in
    record {
      context = d';
      after = n';
      result =
          trigger_both_step fd wanted c m
          ∙ ap (λ o. elim o [ none ↦ none | some p ↦ second fd wanted.can_write p ]) f
          ∙ f';
      valid = vn';
      stored = en';
      reads = dr' ∙ dr;
      writes = dw' ∙ ap (λ b. b && not wanted.can_write) dw;
      for_reader = rs;
      for_writer = ws;
      reader = tr;
      writer = subst (λ x. TasksOf wanted.can_write x ws) same tw;
      scheduled = sw ∙ ap (λ k. k ++ ws) sr;
      others = λ i k. sn' i k ∙ sn i k;
    }

trigger-none :
    (fd : ℕ) (event : Event) (c : FdContext) (m : IoManager)
    → has event c.events ≡ false
    → trigger fd event c m ≡ none
unfolding trigger trigger_event
trigger-none fd event c m e = rw (trigger, trigger_event, e)

-- TriggerEvent of an event that is not registered fails its assertion.
pub trigger_both_read :
    (fd : ℕ) (wanted : Events) (c : FdContext) (m : IoManager)
    → wanted.can_read ≡ true
    → c.events.can_read ≡ false
    → trigger_both fd wanted c m ≡ none
unfolding trigger_both has
trigger_both_read fd wanted c m w e = rw (trigger_both, w, trigger-none fd k_read c m e)

pub trigger_both_write :
    (fd : ℕ) (wanted : Events) (c : FdContext) (m : IoManager)
    → IsValid m
    → get_elem? m.fd_contexts fd ≡ some c
    → (wanted.can_read ≡ true → c.events.can_read ≡ true)
    → wanted.can_write ≡ true
    → c.events.can_write ≡ false
    → trigger_both fd wanted c m ≡ none
unfolding second has
trigger_both_write fd wanted c m v e hr w h =
    let ((d, n, rs, f, tr, sr, sn, vn, en, dr, dw), same) =
      first_of-Stepped fd wanted.can_read c m v e hr in
    trigger_both_step fd wanted c m
    ∙ ap (λ o. elim o [ none ↦ none | some p ↦ second fd wanted.can_write p ]) f
    ∙ rw (second, w, trigger-none fd k_write d n (dw ∙ h))
