-- ===== src/IoManager/Registration.antt =====
-- What AddEvent, DelEvent and CancelEvent do, on every branch.
use server_frame.Prelude.{
  ℕ, zero, suc, ◌<◌, ◌≡◌, refl, ap, ◌∙◌, arith, inl, inr, List, [], ◌∷◌, ◌++◌, Option, none, some,
  Bool, true, false, ◌&&◌, length, get_elem?, set, Option-cases, Bool-cases, get_elem?-set_self,
}
use server_frame.IoManager.{
  Event, k_none, k_read, k_write, FdContext, Task, IoManager, Reply, answers, asserts, has,
  less_one, del_event, trigger_event, trigger, cancel_event,
}
use server_frame.IoManager.Context.{TaskOf, no_event, waiter, trigger_event_lem, remove_lem}
use server_frame.IoManager.Invariant.{IsValid, IsContext-at, no_event-IsValid}

-- The event is registered for the file descriptor.
abbrev pub registered : ℕ → Event → IoManager → Bool
registered fd event m = elim (get_elem? m.fd_contexts fd) [
  | none ↦ false
  | some c ↦ has event c.events
]

abbrev pub Replies : Reply → (Bool → IoManager → Type 0) → Type 0
Replies (answers r m) P = P r m
Replies asserts P = ⊥

-- The state after an event is taken off.
abbrev pub taken_off : ℕ → Event → FdContext → List Task → IoManager → IoManager
taken_off fd event c tasks m = record m {
  fd_contexts = set m.fd_contexts fd (no_event event c);
  pending = less_one m.pending;
  scheduled = tasks;
}

del_event_none :
    (ctl : Bool) (fd : ℕ) (event : Event) (m : IoManager)
    → registered fd event m ≡ false
    → del_event ctl fd event m ≡ answers false m
unfolding del_event
del_event_none ctl fd event m e = elim (Option-cases (get_elem? m.fd_contexts fd)) [
  | inl f ↦ rw (f, del_event)
  | inr (c, f) ↦
      let h : has event c.events ≡ false = rw (registered, f) at e in rw (f, h, del_event)
]

cancel_event_none :
    (ctl : Bool) (fd : ℕ) (event : Event) (m : IoManager)
    → registered fd event m ≡ false
    → cancel_event ctl fd event m ≡ answers false m
unfolding cancel_event
cancel_event_none ctl fd event m e = elim (Option-cases (get_elem? m.fd_contexts fd)) [
  | inl f ↦ rw (f, cancel_event)
  | inr (c, f) ↦
      let h : has event c.events ≡ false = rw (registered, f) at e in rw (f, h, cancel_event)
]

pub registered_at :
    (fd : ℕ) (event : Event) (m : IoManager)
    → registered fd event m ≡ true
    → (c : FdContext) × (get_elem? m.fd_contexts fd ≡ some c) × (has event c.events ≡ true)
registered_at fd event m e = elim (Option-cases (get_elem? m.fd_contexts fd)) [
  | inl f ↦ let g : false ≡ true = rw (registered, f) at e in (cc)
  | inr (c, f) ↦ let g : has event c.events ≡ true = rw (registered, f) at e in (c, f, g)
]

del_event_on :
    (fd : ℕ) (event : Event) (c : FdContext) (m : IoManager)
    → get_elem? m.fd_contexts fd ≡ some c
    → has event c.events ≡ true
    → del_event true fd event m ≡ answers true (taken_off fd event c m.scheduled m)
unfolding del_event
del_event_on fd event c m e h = rw (del_event, e, h, remove_lem event c h)

del_event_failed :
    (fd : ℕ) (event : Event) (c : FdContext) (m : IoManager)
    → get_elem? m.fd_contexts fd ≡ some c
    → del_event false fd event m ≡ answers false m
unfolding del_event
del_event_failed fd event c m e = elim (Bool-cases (has event c.events)) [
  | inl h ↦ rw (del_event, e, h)
  | inr h ↦ rw (del_event, e, h)
]

pub trigger_on :
    (fd : ℕ) (event : Event) (c : FdContext) (m : IoManager) (ts : List Task)
    → trigger_event event c ≡ some (no_event event c, ts)
    → trigger fd event c m ≡ some (no_event event c, taken_off fd event c (m.scheduled ++ ts) m)
unfolding trigger
trigger_on fd event c m ts e = rw (trigger, e)

abbrev outcome : Option (FdContext × IoManager) → Reply
outcome o = elim o [ none ↦ asserts | some (d, n) ↦ answers true n ]

cancel_event_step :
    (fd : ℕ) (event : Event) (c : FdContext) (m : IoManager)
    → get_elem? m.fd_contexts fd ≡ some c
    → has event c.events ≡ true
    → cancel_event true fd event m ≡ outcome (trigger fd event c m)
unfolding cancel_event trigger trigger_event
cancel_event_step fd event c m e h = rw (trigger_event, trigger, cancel_event, e, h)

cancel_event_on :
    (fd : ℕ) (event : Event) (c : FdContext) (m : IoManager) (ts : List Task)
    → get_elem? m.fd_contexts fd ≡ some c
    → has event c.events ≡ true
    → trigger_event event c ≡ some (no_event event c, ts)
    → cancel_event true fd event m ≡ answers true (taken_off fd event c (m.scheduled ++ ts) m)
cancel_event_on fd event c m ts e h f =
    cancel_event_step fd event c m e h ∙ ap outcome (trigger_on fd event c m ts f)

cancel_event_failed :
    (fd : ℕ) (event : Event) (c : FdContext) (m : IoManager)
    → get_elem? m.fd_contexts fd ≡ some c
    → cancel_event false fd event m ≡ answers false m
unfolding cancel_event
cancel_event_failed fd event c m e = elim (Bool-cases (has event c.events)) [
  | inl h ↦ rw (cancel_event, e, h)
  | inr h ↦ rw (cancel_event, e, h)
]

pub has-no_event : (event : Event) (c : FdContext) → has event (no_event event c).events ≡ false
unfolding has
has-no_event k_none c = refl
has-no_event k_read c = refl
has-no_event k_write c = refl

pub in_range :
    (fd : ℕ) (cs : List FdContext) (c : FdContext) → get_elem? cs fd ≡ some c → fd < length cs
in_range fd [] c e = cc
in_range zero (x ∷ xs) c e = omega arith
in_range (suc fd) (x ∷ xs) c e = omega (arith, in_range fd xs c e)

registered-taken_off :
    (fd : ℕ) (event : Event) (c : FdContext) (ts : List Task) (m : IoManager)
    → get_elem? m.fd_contexts fd ≡ some c
    → registered fd event (taken_off fd event c ts m) ≡ false
registered-taken_off fd event c ts m e =
    rw
      (
        registered,
        get_elem?-set_self m.fd_contexts fd (no_event event c) (in_range fd m.fd_contexts c e),
      )
      (has-no_event event c)

-- On a valid IOManager DelEvent never fails an assertion. It answers whether the event was
-- registered and epoll took it off; it keeps the invariant, schedules nothing, leaves the event
-- unregistered when it answers true, and changes nothing when it answers false.
pub del_event-Replies :
    (ctl : Bool) (fd : ℕ) (event : Event) (m : IoManager)
    → IsValid m
    → Replies (del_event ctl fd event m) (λ b n.
      IsValid n
      × (b ≡ (registered fd event m && ctl))
      × (n.scheduled ≡ m.scheduled)
      × (b ≡ true → registered fd event n ≡ false)
      × (b ≡ false → n ≡ m))
del_event-Replies ctl fd event m v = elim (Bool-cases (registered fd event m)) [
  | inl e ↦
      let (c, f, h) = registered_at fd event m e in
      elim (Bool-cases ctl) [
        | inl t ↦
            rw (t, e, del_event_on fd event c m f h)
              (
                no_event-IsValid fd event c m m.scheduled v f h,
                refl,
                refl,
                (λ q. registered-taken_off fd event c m.scheduled m f),
                (λ q. cc),
              )
        | inr t ↦ rw (t, e, del_event_failed fd event c m f) (v, refl, refl, (λ q. cc), λ q. refl)
      ]
  | inr e ↦ rw (e, del_event_none ctl fd event m e) (v, refl, refl, (λ q. e), λ q. refl)
]

-- On a valid IOManager CancelEvent never fails an assertion. It answers whether the event was
-- registered and epoll took it off; it keeps the invariant and changes nothing when it answers
-- false; when it answers true the event is unregistered and what waited for it is scheduled,
-- once, on the scheduler that it waits with.
pub cancel_event-Replies :
    (ctl : Bool) (fd : ℕ) (event : Event) (m : IoManager)
    → IsValid m
    → Replies (cancel_event ctl fd event m) (λ b n.
      IsValid n
      × (b ≡ (registered fd event m && ctl))
      × (b ≡ false → n ≡ m)
      × (b ≡ true
          → (registered fd event n ≡ false)
            × ((c : FdContext) × (ts : List Task) × (get_elem? m.fd_contexts fd ≡ some c)
                × TaskOf (waiter event c) ts
                × (n.scheduled ≡ m.scheduled ++ ts))))
cancel_event-Replies ctl fd event m v = elim (Bool-cases (registered fd event m)) [
  | inl e ↦
      let (c, f, h) = registered_at fd event m e in
      elim (Bool-cases ctl) [
        | inl t ↦
            let own = IsContext-at fd m.fd_contexts v.contexts f in
            let (ts, g, task) = trigger_event_lem fd event c own h in
            rw (t, e, cancel_event_on fd event c m ts f h g)
              (
                no_event-IsValid fd event c m (m.scheduled ++ ts) v f h,
                refl,
                (λ q. cc),
                (λ q. (
                  registered-taken_off fd event c (m.scheduled ++ ts) m f,
                  (c, ts, f, task, refl),
                )),
              )
        | inr t ↦ rw (t, e, cancel_event_failed fd event c m f) (v, refl, (λ q. refl), λ q. cc)
      ]
  | inr e ↦ rw (e, cancel_event_none ctl fd event m e) (v, refl, (λ q. refl), λ q. cc)
]
