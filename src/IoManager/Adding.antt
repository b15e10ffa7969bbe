-- ===== src/IoManager/Adding.antt =====
-- What AddEvent does, on every branch.
use server_frame.Prelude.{
  ℕ, zero, suc, ◌+◌, ◌*◌, ◌/◌, ◌%◌, ◌^◌, ◌≤◌, ◌<◌, ◌≡◌, ◌≢◌, refl, sym, ap, ◌∙◌, arith, inl, inr,
  List, [], ◌∷◌, Option, none, some, Bool, true, false, ltb, length, get_elem?, set, Bool-cases,
  lt→ltb, get_elem?-set_self, length-set,
}
use mathlib.Core.Path.{subst}
use server_frame.IoManager.{
  Event, k_none, k_read, k_write, FdContext, IoManager, answers, asserts, has, reserve, add_event,
  arm, context_resize,
}
use server_frame.IoManager.Context.{
  armed_context, armed_context-IsContext, count-armed_context, arm_lem, CanWait, waiter, waiting,
}
use server_frame.IoManager.Invariant.{IsValid, armed, IsContext-at, put_at, armed-set, reserve_lem}
use server_frame.IoManager.Registration.{registered, registered_at, Replies, in_range}

exists_at :
    (fd : ℕ) (cs : List FdContext) → fd < length cs → (c : FdContext) × (get_elem? cs fd ≡ some c)
exists_at fd [] l = absurd (omega arith)
exists_at zero (x ∷ xs) l = (x, refl)
exists_at (suc fd) (x ∷ xs) l = exists_at fd xs (omega arith)

-- The new contexts have no events.
has-context_resize :
    (n k i : ℕ) (event : Event) (cs : List FdContext) (c : FdContext)
    → get_elem? (context_resize n k cs) i ≡ some c
    → length cs ≤ i
    → has event c.events ≡ false
unfolding context_resize has
has-context_resize zero k i event cs c e l = cc
has-context_resize (suc n) k zero k_none [] c e l = refl
has-context_resize (suc n) k zero k_read [] c e l =
    subst (λ o. elim o [ none ↦ Unit {0} | some y ↦ y.events.can_read ≡ false ]) e refl
has-context_resize (suc n) k zero k_write [] c e l =
    subst (λ o. elim o [ none ↦ Unit {0} | some y ↦ y.events.can_write ≡ false ]) e refl
has-context_resize (suc n) k (suc i) event [] c e l =
    has-context_resize n (suc k) i event [] c e (omega arith)
has-context_resize (suc n) k zero event (x ∷ xs) c e l = absurd (omega arith)
has-context_resize (suc n) k (suc i) event (x ∷ xs) c e l =
    has-context_resize n (suc k) i event xs c e (omega arith)

not_registered :
    (fd : ℕ) (event : Event) (m : IoManager) (c : FdContext)
    → registered fd event m ≡ false
    → get_elem? (reserve fd m.fd_contexts) fd ≡ some c
    → has event c.events ≡ false
unfolding reserve
not_registered fd event m c r e = elim (Bool-cases (ltb fd (length m.fd_contexts))) [
  | inl t ↦ let f : get_elem? m.fd_contexts fd ≡ some c = rw t at e in rw (registered, f) at r
  | inr t ↦
      let f : get_elem? (context_resize (fd * 3 / 2) 0 m.fd_contexts) fd ≡ some c = rw t at e in
      has-context_resize (fd * 3 / 2) 0 fd event m.fd_contexts c f (ground arith)
]

-- The state after the event is added.
abbrev added : ℕ → FdContext → List FdContext → IoManager → IoManager
added fd d cs m = record m { fd_contexts = set cs fd d; pending = (m.pending + 1) % 2 ^ 64 }

add_event_on :
    (s running : ℕ) (x : Bool) (fd : ℕ) (event : Event) (cb : Option ℕ) (c d : FdContext)
    (m : IoManager)
    → get_elem? (reserve fd m.fd_contexts) fd ≡ some c
    → has event c.events ≡ false
    → arm (some s) running x event cb c ≡ some d
    → add_event true (some s) running x fd event cb m
      ≡ answers true (added fd d (reserve fd m.fd_contexts) m)
unfolding add_event reserve
add_event_on s running x fd event cb c d m e h a = rw (add_event, e, h, a)

add_event_failed :
    (s running : ℕ) (x : Bool) (fd : ℕ) (event : Event) (cb : Option ℕ) (c : FdContext)
    (m : IoManager)
    → get_elem? (reserve fd m.fd_contexts) fd ≡ some c
    → has event c.events ≡ false
    → add_event false (some s) running x fd event cb m
      ≡ answers false (record m { fd_contexts = reserve fd m.fd_contexts })
unfolding add_event reserve
add_event_failed s running x fd event cb c m e h = rw (add_event, e, h)

armed_context-has :
    (s running : ℕ) (event : Event) (cb : Option ℕ) (c : FdContext)
    → event ≢ k_none
    → (has event (armed_context s running event cb c).events ≡ true)
      × (waiter event (armed_context s running event cb c) ≡ waiting s running cb)
unfolding has
armed_context-has s running k_none cb c n = absurd (n refl)
armed_context-has s running k_read cb c n = (refl, refl)
armed_context-has s running k_write cb c n = (refl, refl)

added-IsValid :
    (s running fd : ℕ) (event : Event) (cb : Option ℕ) (c : FdContext) (m : IoManager)
    → IsValid m
    → event ≢ k_none
    → get_elem? (reserve fd m.fd_contexts) fd ≡ some c
    → has event c.events ≡ false
    → IsValid (added fd (armed_context s running event cb c) (reserve fd m.fd_contexts) m)
added-IsValid s running fd event cb c m v n e h =
    let (w, same, room, l) = reserve_lem fd m.fd_contexts v.roomy v.contexts in
    let cs = reserve fd m.fd_contexts in
    let d = armed_context s running event cb c in
    let more = count-armed_context s running event cb c n h in
    let sum = armed-set fd cs c d e in
    let counted : m.pending ≡ armed m.fd_contexts % 2 ^ 64 = v.counted in
    record {
      contexts =
          put_at fd cs d w
            (armed_context-IsContext fd s running event cb c (IsContext-at fd cs w e));
      counted = omega (arith, more, sum, same, counted);
      roomy = rw (length-set cs fd d) room;
    }

-- What AddEvent leaves for the event.
abbrev pub Waits : ℕ → Event → (s running : ℕ) → Option ℕ → IoManager → Type 0
Waits fd event s running cb n =
    (c : FdContext) × (get_elem? n.fd_contexts fd ≡ some c)
    × (has event c.events ≡ true)
    × (waiter event c ≡ waiting s running cb)

-- On a valid IOManager and a thread with a scheduler, AddEvent of an event that is neither kNone
-- nor registered fails no assertion, for any descriptor that is not negative, given a callback or
-- a fiber that executes. It answers whether epoll took the event, keeps the
-- invariant and schedules nothing; when it answers true, the callback, or without one the running
-- fiber, waits for the event on that scheduler.
pub add_event-Replies :
    (ctl : Bool) (s running : ℕ) (x : Bool) (fd : ℕ) (event : Event) (cb : Option ℕ) (m : IoManager)
    → IsValid m
    → CanWait x cb
    → event ≢ k_none
    → registered fd event m ≡ false
    → Replies (add_event ctl (some s) running x fd event cb m) (λ b n.
      IsValid n
      × (b ≡ ctl)
      × (n.scheduled ≡ m.scheduled)
      × (b ≡ true → Waits fd event s running cb n))
add_event-Replies ctl s running x fd event cb m v k n r =
    let cs = reserve fd m.fd_contexts in
    let (w, same, room, l) = reserve_lem fd m.fd_contexts v.roomy v.contexts in
    let (c, e) = exists_at fd cs l in
    let h = not_registered fd event m c r e in
    let d = armed_context s running event cb c in
    elim (Bool-cases ctl) [
      | inl t ↦
          let a = arm_lem fd s running x event cb c (IsContext-at fd cs w e) k n h in
          let (on, waits) = armed_context-has s running event cb c n in
          rw (t, add_event_on s running x fd event cb c d m e h a)
            (
              added-IsValid s running fd event cb c m v n e h,
              refl,
              refl,
              λ q. (d, get_elem?-set_self cs fd d l, on, waits),
            )
      | inr t ↦
          rw (t, add_event_failed s running x fd event cb c m e h)
            (
              record {
                contexts = w;
                counted = v.counted ∙ ap (λ k. k % 2 ^ 64) (sym same);
                roomy = room;
              },
              refl,
              refl,
              λ q. cc,
            )
    ]

registered_lt :
    (fd : ℕ) (event : Event) (m : IoManager)
    → registered fd event m ≡ true
    → reserve fd m.fd_contexts ≡ m.fd_contexts
unfolding reserve
registered_lt fd event m r =
    let (c, e, h) = registered_at fd event m r in
    let l = in_range fd m.fd_contexts c e in rw (lt→ltb fd (length m.fd_contexts) l)

-- AddEvent of an event that is registered fails its assertion, before epoll is called.
pub add_event_twice :
    (ctl : Bool) (self : Option ℕ) (running : ℕ) (x : Bool) (fd : ℕ) (event : Event) (cb : Option ℕ)
    (m : IoManager)
    → registered fd event m ≡ true
    → add_event ctl self running x fd event cb m ≡ asserts
unfolding add_event
add_event_twice ctl self running x fd event cb m r =
    let (c, e, h) = registered_at fd event m r in rw (add_event, registered_lt fd event m r, e, h)
